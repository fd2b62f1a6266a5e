-- ===== src/Binary/Registry/Order.antt =====
-- The registry is sorted, and no name is in it twice.
use net_mapper.Prelude.{◌≡◌, refl, arith, true, false, ◌||◌, List, [], ◌∷◌, ◌++◌}
use net_mapper.Prelude.{Bytes, str_eq, All, All-append, inl, inr, Bool-cases, >>=-eq-ok, ok}
use net_mapper.Binary.Registry.{
  Provider, str_less, precedes, insert, sort, has_name, register, register_all,
}

str_less_trans : (a b c : Bytes) → str_less a b ≡ true → str_less b c ≡ true → str_less a c ≡ true
unfolding str_less
str_less_trans [] [] c h k = cc
str_less_trans [] (y ∷ b) [] h k = cc
str_less_trans [] (y ∷ b) (z ∷ c) h k = refl
str_less_trans (x ∷ a) [] c h k = cc
str_less_trans (x ∷ a) (y ∷ b) [] h k = cc
str_less_trans (x ∷ a) (y ∷ b) (z ∷ c) h k = ground (arith, str_less_trans a b c)

str_less_total : (a b : Bytes) → str_eq a b ≡ false → str_less a b ≡ false → str_less b a ≡ true
unfolding str_less str_eq
str_less_total [] [] e h = cc
str_less_total [] (y ∷ b) e h = cc
str_less_total (x ∷ a) [] e h = refl
str_less_total (x ∷ a) (y ∷ b) e h = ground (arith, str_less_total a b)

str_eq_comm : (a b : Bytes) → str_eq a b ≡ str_eq b a
unfolding str_eq
str_eq_comm [] [] = refl
str_eq_comm [] (y ∷ b) = refl
str_eq_comm (x ∷ a) [] = refl
str_eq_comm (x ∷ a) (y ∷ b) = ground (arith, str_eq_comm a b)

module _ {Any : Type 0} where
  precedes_trans :
      (p q r : Provider Any) → precedes p q ≡ true → precedes q r ≡ true → precedes p r ≡ true
  precedes_trans p q r h k = ground (arith, str_less_trans p.name q.name r.name)

  precedes_total :
      (p q : Provider Any)
      → str_eq p.name q.name ≡ false
      → precedes p q ≡ false
      → precedes q p ≡ true
  precedes_total p q ne h = ground (arith, str_less_total p.name q.name)

  unfoldable pub IsSorted : List (Provider Any) → Type 0
  IsSorted [] = Unit
  IsSorted (p ∷ ps) = All (λ q. precedes p q ≡ true) ps × IsSorted ps

  unfoldable pub HasUniqueNames : List (Provider Any) → Type 0
  HasUniqueNames [] = Unit
  HasUniqueNames (p ∷ ps) = (has_name p.name ps ≡ false) × HasUniqueNames ps

  All-insert :
      (P : Provider Any → Type 0) (p : Provider Any) (qs : List (Provider Any))
      → P p
      → All P qs
      → All P (insert p qs)
  unfolding insert
  All-insert P p [] hp h = (hp, tt)
  All-insert P p (q ∷ qs) hp (hq, h) = elim (Bool-cases (precedes p q)) [
    | inl e ↦ rw (e, insert) (hp, (hq, h))
    | inr e ↦ rw (e, insert) (hq, All-insert P p qs hp h)
  ]

  has_name-insert :
      (n : Bytes) (p : Provider Any) (qs : List (Provider Any))
      → has_name n (insert p qs) ≡ (str_eq p.name n || has_name n qs)
  unfolding insert has_name
  has_name-insert n p [] = refl
  has_name-insert n p (q ∷ qs) = ground (arith, has_name-insert n p qs)

  has_name-sort : (n : Bytes) (ps : List (Provider Any)) → has_name n (sort ps) ≡ has_name n ps
  unfolding sort has_name
  has_name-sort n [] = refl
  has_name-sort n (p ∷ ps) = rw (has_name-insert n p (sort ps), has_name-sort n ps)

  precede-All :
      (p q : Provider Any) (qs : List (Provider Any))
      → precedes p q ≡ true
      → All (λ r. precedes q r ≡ true) qs
      → All (λ r. precedes p r ≡ true) qs
  precede-All p q [] h k = tt
  precede-All p q (r ∷ qs) h (k, ks) = (precedes_trans p q r h k, precede-All p q qs h ks)

  insert-IsSorted :
      (p : Provider Any) (qs : List (Provider Any))
      → has_name p.name qs ≡ false
      → IsSorted qs
      → IsSorted (insert p qs)
  unfolding insert has_name IsSorted
  insert-IsSorted p [] new s = (tt, tt)
  insert-IsSorted p (q ∷ qs) new (first, s) = elim (Bool-cases (precedes p q)) [
    | inl e ↦ rw (e, insert) ((e, precede-All p q qs e first), (first, s))
    | inr e ↦
        let different : str_eq p.name q.name ≡ false = ground (arith, str_eq_comm p.name q.name) in
        rw (e, insert)
          (
            All-insert (λ r. precedes q r ≡ true) p qs (precedes_total p q different e) first,
            insert-IsSorted p qs (ground arith) s,
          )
  ]

  insert-HasUniqueNames :
      (p : Provider Any) (qs : List (Provider Any))
      → has_name p.name qs ≡ false
      → HasUniqueNames qs
      → HasUniqueNames (insert p qs)
  unfolding insert has_name HasUniqueNames
  insert-HasUniqueNames p [] new u = (refl, tt)
  insert-HasUniqueNames p (q ∷ qs) new (only, u) = elim (Bool-cases (precedes p q)) [
    | inl e ↦ rw (e, insert) (new, (only, u))
    | inr e ↦
        rw (e, insert)
          (
            ground (arith, str_eq_comm p.name q.name, has_name-insert q.name p qs),
            insert-HasUniqueNames p qs (ground arith) u,
          )
  ]

  sort-IsSorted : (ps : List (Provider Any)) → HasUniqueNames ps → IsSorted (sort ps)
  unfolding sort HasUniqueNames IsSorted
  sort-IsSorted [] u = tt
  sort-IsSorted (p ∷ ps) (new, u) =
      insert-IsSorted p (sort ps) (ground (arith, has_name-sort p.name ps)) (sort-IsSorted ps u)

  sort-HasUniqueNames : (ps : List (Provider Any)) → HasUniqueNames ps → HasUniqueNames (sort ps)
  unfolding sort HasUniqueNames
  sort-HasUniqueNames [] u = tt
  sort-HasUniqueNames (p ∷ ps) (new, u) =
      insert-HasUniqueNames p (sort ps) (ground (arith, has_name-sort p.name ps))
        (sort-HasUniqueNames ps u)

  has_name-append :
      (n : Bytes) (ps : List (Provider Any)) (p : Provider Any)
      → has_name n (ps ++ (p ∷ [])) ≡ (has_name n ps || str_eq p.name n)
  unfolding has_name
  has_name-append n [] p = ground arith
  has_name-append n (q ∷ ps) p = ground (arith, has_name-append n ps p)

  append-HasUniqueNames :
      (ps : List (Provider Any)) (p : Provider Any)
      → HasUniqueNames ps
      → has_name p.name ps ≡ false
      → HasUniqueNames (ps ++ (p ∷ []))
  unfolding HasUniqueNames has_name
  append-HasUniqueNames [] p u new = (refl, tt)
  append-HasUniqueNames (q ∷ ps) p (only, u) new = (
    ground (arith, has_name-append q.name ps p, str_eq_comm p.name q.name),
    append-HasUniqueNames ps p u (ground arith),
  )

  pub register_lem :
      (p : Provider Any) (ps qs : List (Provider Any))
      → HasUniqueNames ps
      → register p ps ≡ ok qs
      → IsSorted qs × HasUniqueNames qs
  unfolding register
  register_lem p ps qs u h = elim (Bool-cases (has_name p.name ps)) [
    | inl e ↦ absurd (ground arith)
    | inr e ↦
        let same : sort (ps ++ (p ∷ [])) ≡ qs = ground arith in
        let u' = append-HasUniqueNames ps p u e in
        rw (← same) (sort-IsSorted _ u', sort-HasUniqueNames _ u')
  ]

  pub register_all_lem :
      (rs ps qs : List (Provider Any))
      → IsSorted ps
      → HasUniqueNames ps
      → register_all rs ps ≡ ok qs
      → IsSorted qs × HasUniqueNames qs
  unfolding register_all
  register_all_lem [] ps qs s u h = let e : ps ≡ qs = cc in rw (← e) (s, u)
  register_all_lem (r ∷ rs) ps qs s u h =
      let (ps', first, after) = >>=-eq-ok (register r ps) (register_all rs) h in
      let (s', u') = register_lem r ps ps' u first in register_all_lem rs ps' qs s' u' after

  All-insert_back :
      (P : Provider Any → Type 0) (p : Provider Any) (qs : List (Provider Any))
      → All P (insert p qs)
      → P p × All P qs
  unfolding insert
  All-insert_back P p [] h = h
  All-insert_back P p (q ∷ qs) h = elim (Bool-cases (precedes p q)) [
    | inl e ↦ rw (e, insert) at h
    | inr e ↦
        let (hq, rest) : All P (q ∷ insert p qs) = rw (e, insert) at h in
        let (hp, hqs) = All-insert_back P p qs rest in (hp, (hq, hqs))
  ]

  All-sort : (P : Provider Any → Type 0) (ps : List (Provider Any)) → All P ps → All P (sort ps)
  unfolding sort
  All-sort P [] h = tt
  All-sort P (p ∷ ps) (hp, h) = All-insert P p (sort ps) hp (All-sort P ps h)

  All-sort_back :
      (P : Provider Any → Type 0) (ps : List (Provider Any)) → All P (sort ps) → All P ps
  unfolding sort
  All-sort_back P [] h = tt
  All-sort_back P (p ∷ ps) h =
      let (hp, rest) = All-insert_back P p (sort ps) h in (hp, All-sort_back P ps rest)

  All-append_back :
      (P : Provider Any → Type 0) (ps : List (Provider Any)) (p : Provider Any)
      → All P (ps ++ (p ∷ []))
      → All P ps × P p
  All-append_back P [] p (hp, _) = (tt, hp)
  All-append_back P (q ∷ ps) p (hq, h) = let (hps, hp) = All-append_back P ps p h in ((hq, hps), hp)

  registered_lem :
      (p : Provider Any) (ps qs : List (Provider Any))
      → register p ps ≡ ok qs
      → sort (ps ++ (p ∷ [])) ≡ qs
  unfolding register
  registered_lem p ps qs h = elim (Bool-cases (has_name p.name ps)) [
    | inl e ↦ absurd (ground arith)
    | inr e ↦ ground arith
  ]

  -- The registry holds nothing but what has been registered, and all of it.
  pub register_all-All :
      (P : Provider Any → Type 0) (rs ps qs : List (Provider Any))
      → All P ps
      → All P rs
      → register_all rs ps ≡ ok qs
      → All P qs
  unfolding register_all
  register_all-All P [] ps qs hp hr h = let e : ps ≡ qs = cc in rw (← e) hp
  register_all-All P (r ∷ rs) ps qs hp (this, hr) h =
      let (ps', first, after) = >>=-eq-ok (register r ps) (register_all rs) h in
      let sorted = All-sort P (ps ++ (r ∷ [])) (All-append P ps (r ∷ []) hp (this, tt)) in
      register_all-All P rs ps' qs (rw (registered_lem r ps ps' first) at sorted) hr after

  pub All-register_all :
      (P : Provider Any → Type 0) (rs ps qs : List (Provider Any))
      → All P qs
      → register_all rs ps ≡ ok qs
      → All P ps × All P rs
  unfolding register_all
  All-register_all P [] ps qs hq h = let e : ps ≡ qs = cc in (rw e hq, tt)
  All-register_all P (r ∷ rs) ps qs hq h =
      let (ps', first, after) = >>=-eq-ok (register r ps) (register_all rs) h in
      let (sorted, rest) = All-register_all P rs ps' qs hq after in
      let (before, this) =
        All-append_back P ps r
          (All-sort_back P (ps ++ (r ∷ [])) (rw (registered_lem r ps ps' first) sorted)) in
      (before, (this, rest))
