-- ===== src/Go/Oid/Unpack.antt =====
-- What `UnpackAsn1` accepts.
use native.Mathlib.Nat.{zero-add}
use net_mapper.Prelude.{ℕ, ◌+◌, ◌/◌, ◌%◌, ◌<◌, ◌≡◌, refl, arith, bit_and, Bool, true, false, not}
use net_mapper.Prelude.{
  panicked, ap, [], ◌∷◌, Bytes, ltb, leb, ◌==◌, if◌then◌else◌, All, ok, err, ◌>>=◌, Outcome, length,
  Bool-cases, inl, inr, ◌⊎◌,
}
use net_mapper.Prelude.Bits.{bit_and_80}
use net_mapper.Binary.Error.{Error}
use net_mapper.Binary.Value.{Envelope}
use net_mapper.Go.Oid.{Oid, unpack_elements, unpack_oid}

-- The bytes end where an element ends: the last one has no top bit.
abbrev pub ends_closed : Bool → Bytes → Bool
ends_closed inside [] = not inside
ends_closed inside (b ∷ bs) = ends_closed (leb 128 b) bs

-- The number of bytes without the top bit.
abbrev pub count_last : Bytes → ℕ
count_last [] = 0
count_last (b ∷ bs) = (if ltb b 128 then 1 else 0) + count_last bs

-- What the loops return for bytes that end as they should, and for others.
abbrev Answers : Bool → ℕ → Outcome Error Oid → Type 0
Answers closed k (ok ns) = (closed ≡ true) × (length ns ≡ k)
Answers closed k (err e) = (closed ≡ false) × (e ≡ Error.oid_truncated)
Answers closed k _ = ⊥

Answers-cons :
    (closed : Bool) (k : ℕ) (r : Outcome Error Oid) (v : ℕ)
    → Answers closed k r
    → Answers closed (1 + k) (r >>= λ ns. ok (v ∷ ns))
Answers-cons closed k (ok ns) v a = (a.0, omega (arith, a.1))
Answers-cons closed k (err e) v a = a
Answers-cons closed k panicked v a = a

unpack_elements-Answers :
    (bs : Bytes) (n : ℕ) (inside : Bool)
    → All (λ b. b < 256) bs
    → Answers (ends_closed inside bs) (count_last bs) (unpack_elements bs n inside)
unfolding unpack_elements
unpack_elements-Answers [] n true h = ground arith
unpack_elements-Answers [] n false h = ground arith
unpack_elements-Answers (b ∷ bs) n inside (hb, h) = elim (Bool-cases (ltb b 128)) [
  | inl last ↦
      let test : (bit_and b 0x80 == 0) ≡ true = ground (arith, bit_and_80 b) in
      let flag : leb 128 b ≡ false = ground arith in
      rw (test, flag, last)
        (Answers-cons _ (count_last bs) (unpack_elements bs 0 false) _
          (unpack_elements-Answers bs 0 false h))
  | inr more ↦
      let test : (bit_and b 0x80 == 0) ≡ false = ground (arith, bit_and_80 b) in
      let flag : leb 128 b ≡ true = ground arith in
      rw (test, flag, more, zero-add) (unpack_elements-Answers bs _ true h)
]

Answers-cases :
    (closed : Bool) (k : ℕ) (r : Outcome Error Oid)
    → Answers closed k r
    → ((ns : Oid) × (r ≡ ok ns) × (length ns ≡ k) × (closed ≡ true))
      ⊎ ((r ≡ err Error.oid_truncated) × (closed ≡ false))
Answers-cases closed k (ok ns) a = inl (ns, refl, a.1, a.0)
Answers-cases closed k (err e) a = inr (ap err a.1, a.0)
Answers-cases closed k panicked a = absurd a

-- On at least one byte, tagged as an OID, UnpackAsn1 never panics: it returns two elements for the
-- first byte and one for each later byte below 128, and refuses the bytes exactly when, behind the
-- first, the last one has its top bit set.
pub unpack_oid_cases :
    (e : Envelope) (b : ℕ) (bs : Bytes)
    → e.tag ≡ 6
    → All (λ x. x < 256) bs
    → ((o : Oid) × (unpack_oid e (b ∷ bs) ≡ ok o)
        × (length o ≡ 2 + count_last bs)
        × (ends_closed false bs ≡ true))
      ⊎ ((unpack_oid e (b ∷ bs) ≡ err Error.oid_truncated) × (ends_closed false bs ≡ false))
unfolding unpack_oid
unpack_oid_cases e b bs tag h =
    let test : (e.tag == 6) ≡ true = ground arith in
    elim (Answers-cases _ _ (unpack_elements bs 0 false) (unpack_elements-Answers bs 0 false h)) [
      | inl (ns, read, size, closed) ↦
          inl (b / 40 ∷ b % 40 ∷ ns, rw (test, read), omega arith, closed)
      | inr (cut, closed) ↦ inr (rw (test, cut), closed)
    ]
