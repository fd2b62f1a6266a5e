-- ===== src/Snmp/Metric/Prefix.antt =====
-- `findCommonPrefix` gives the longest common prefix.
use net_mapper.Prelude.{
  ℕ, ◌≡◌, refl, arith, Bool, Bool-cases, inl, inr, ==_iff, ◌==◌, [], ◌∷◌, Bytes,
}
use net_mapper.Snmp.Metric.{find_common_prefix}

abbrev pub IsPrefix : Bytes → Bytes → Type 0
IsPrefix [] a = Unit
IsPrefix (x ∷ p) [] = ⊥
IsPrefix (x ∷ p) (y ∷ a) = (x ≡ y) × IsPrefix p a

pub record IsLongestCommonPrefix (a b p : Bytes) : Type 0 where
  pub of_first : IsPrefix p a
  pub of_second : IsPrefix p b
  pub longest : (q : Bytes) → IsPrefix q a → IsPrefix q b → IsPrefix q p

-- findCommonPrefix returns a prefix of both names that has every common prefix of them as its own
-- prefix.
pub find_common_prefix-IsLongestCommonPrefix :
    (a b : Bytes) → IsLongestCommonPrefix a b (find_common_prefix a b)
unfolding find_common_prefix
find_common_prefix-IsLongestCommonPrefix [] b = record {
  of_first = tt;
  of_second = tt;
  longest = λ q first second. first;
}
find_common_prefix-IsLongestCommonPrefix (x ∷ a) [] = record {
  of_first = tt;
  of_second = tt;
  longest = λ q first second. second;
}
find_common_prefix-IsLongestCommonPrefix (x ∷ a) (y ∷ b) = elim (Bool-cases (x == y)) [
  | inl e ↦
      let same : x ≡ y = (==_iff x y).0 e in
      let r = find_common_prefix-IsLongestCommonPrefix a b in
      rw (e, find_common_prefix)
        (record {
          of_first = (refl, r.of_first);
          of_second = (same, r.of_second);
          longest = longer x y a b (find_common_prefix a b) r.longest;
        })
  | inr e ↦
      rw (e, find_common_prefix)
        (record { of_first = tt; of_second = tt; longest = none_longer x y a b e })
]
  where
    longer :
        (x y : ℕ) (a b p : Bytes)
        → ((q : Bytes) → IsPrefix q a → IsPrefix q b → IsPrefix q p)
        → (q : Bytes) → IsPrefix q (x ∷ a)
        → IsPrefix q (y ∷ b)
        → IsPrefix q (x ∷ p)
    longer x y a b p h [] first second = tt
    longer x y a b p h (c ∷ q) (is, first) (_, second) = (is, h q first second)

    none_longer :
        (x y : ℕ) (a b : Bytes)
        → (x == y) ≡ Bool.false
        → (q : Bytes) → IsPrefix q (x ∷ a)
        → IsPrefix q (y ∷ b)
        → IsPrefix q []
    none_longer x y a b e [] first second = tt
    none_longer x y a b e (c ∷ q) (is, _) (is', _) = absurd (ground arith)
