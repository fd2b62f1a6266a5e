-- ===== src/Go/Decimal/Digits.antt =====
-- A printed number and a printed OID are parsed back.
use net_mapper.Prelude.{
  ℕ, zero, suc, ◌+◌, ◌-◌, ◌*◌, ◌/◌, ◌%◌, ◌^◌, ◌<◌, ◌≡◌, ◌≢◌, refl, ◌∙◌, arith, true, false,
  Bool-cases, inl, inr, [], ◌∷◌, ◌++◌, append_assoc, append-nil, none, some, Bytes, All, ltb, leb,
  ◌==◌, ok,
}
use net_mapper.Go.Oid.{Oid}
use net_mapper.Go.Decimal.{
  digits, itoa, is_digit, digits_value, atoi_digits, oid_text, split_on, parse_part, parse_parts,
  parse_oid,
}

digits_value-cons :
    (n m d : ℕ) (out : Bytes)
    → d < 10
    → n * 10 + d ≡ m
    → digits_value n ((b'0' + d) ∷ out) ≡ digits_value m out
unfolding digits_value
digits_value-cons n m d out small e =
    let same : n * 10 + (b'0' + d - b'0') ≡ m = omega arith in
    let digit : is_digit (b'0' + d) ≡ true = ground arith in rw (digit, same) refl

digits_value-digits :
    (fuel n : ℕ) (out : Bytes)
    → n < 10 ^ fuel
    → digits_value 0 (digits fuel n out) ≡ digits_value n out
unfolding digits
digits_value-digits zero n out h = let e : n ≡ 0 = omega arith in rw e refl
digits_value-digits (suc fuel) n out h = elim (Bool-cases (ltb n 10)) [
  | inl small ↦ rw (small, digits) (digits_value-cons 0 n n out (ground arith) (omega arith))
  | inr big ↦
      rw (big, digits)
        (digits_value-digits fuel (n / 10) ((b'0' + n % 10) ∷ out) (omega arith)
          ∙ digits_value-cons (n / 10) n (n % 10) out (omega arith) (omega arith))
]

-- Text of digits that is not empty.
data IsNumber : Bytes → Type 0 where
  number : (c : ℕ) (cs : Bytes) → All (λ d. is_digit d ≡ true) (c ∷ cs) → IsNumber (c ∷ cs)

digits-IsNumber :
    (fuel n : ℕ) (out : Bytes)
    → All (λ d. is_digit d ≡ true) out
    → IsNumber (digits (suc fuel) n out)
unfolding digits
digits-IsNumber zero n out h = elim (Bool-cases (ltb n 10)) [
  | inl small ↦ rw (small, digits) (number _ out (ground arith, h))
  | inr big ↦ rw (big, digits) (number _ out (ground arith, h))
]
digits-IsNumber (suc fuel) n out h = elim (Bool-cases (ltb n 10)) [
  | inl small ↦ rw (small, digits) (number _ out (ground arith, h))
  | inr big ↦ rw (big, digits) (digits-IsNumber fuel (n / 10) _ (ground arith, h))
]

itoa_lem : (n : ℕ) → n < 2 ^ 63 → itoa n ≡ digits 20 n []
unfolding itoa
itoa_lem n h = let positive : leb (2 ^ 63) n ≡ false = ground arith in rw positive refl

itoa-IsNumber : (n : ℕ) → n < 2 ^ 63 → IsNumber (itoa n)
itoa-IsNumber n h = rw (itoa_lem n h) (digits-IsNumber 19 n [] tt)

atoi_digits_lem :
    (s : Bytes) (n : ℕ) → digits_value 0 s ≡ some n → n < 2 ^ 63 → atoi_digits s ≡ some n
unfolding atoi_digits
atoi_digits_lem s n value h =
    let fits : ltb n (2 ^ 63) ≡ true = ground arith in rw (atoi_digits, value, fits) refl

digits_value_nil : (n : ℕ) → digits_value n [] ≡ some n
unfolding digits_value
digits_value_nil n = refl

-- `Atoi` gives back the int that `Itoa` printed.
pub atoi_digits-itoa : (n : ℕ) → n < 2 ^ 63 → atoi_digits (itoa n) ≡ some n
atoi_digits-itoa n h = rw (itoa_lem n h) (
    atoi_digits_lem (digits 20 n []) n
      (digits_value-digits 20 n [] (omega arith) ∙ digits_value_nil n) h)

split_on-number :
    (part ds rest : Bytes)
    → All (λ d. is_digit d ≡ true) ds
    → (split_on b'.' part (ds ++ b'.' ∷ rest) ≡ (part ++ ds) ∷ split_on b'.' [] rest)
      × (split_on b'.' part ds ≡ (part ++ ds) ∷ [])
unfolding split_on
split_on-number part [] rest h = (rw (append-nil part) refl, rw (append-nil part) refl)
split_on-number part (d ∷ ds) rest (hd, h) =
    let no_dot : (d == b'.') ≡ false = ground arith in
    let (a, b) = split_on-number (part ++ d ∷ []) ds rest h in
    rw (no_dot, ← append_assoc part (d ∷ []) ds) (a, b)

number_part :
    (c : ℕ) (cs : Bytes) (n : ℕ)
    → is_digit c ≡ true
    → atoi_digits (c ∷ cs) ≡ some n
    → parse_part none (c ∷ cs) ≡ ok (n ∷ [])
unfolding parse_part
number_part c cs n digit e = rw (digit, e) refl

parse_part-itoa : (n : ℕ) → n < 2 ^ 63 → parse_part none (itoa n) ≡ ok (n ∷ [])
parse_part-itoa n h = go (itoa n) (itoa-IsNumber n h) (atoi_digits-itoa n h)
  where
    go : (s : Bytes) → IsNumber s → atoi_digits s ≡ some n → parse_part none s ≡ ok (n ∷ [])
    go s (number c cs h) e = number_part c cs n h.0 e

All-digits : (s : Bytes) → IsNumber s → All (λ d. is_digit d ≡ true) s
All-digits s (number c cs h) = h

-- ParseOID without a lookup function gives back every OID that String printed, if it has an
-- element and none is negative.
pub parse_oid-oid_text :
    (o : Oid) → o ≢ [] → All (λ n. n < 2 ^ 63) o → parse_oid none (oid_text o) ≡ ok o
unfolding parse_oid oid_text parse_parts
parse_oid-oid_text [] some_left h = absurd (some_left refl)
parse_oid-oid_text (n ∷ []) some_left (hn, _) =
    let s = split_on-number [] (itoa n) [] (All-digits (itoa n) (itoa-IsNumber n hn)) in
    rw (s.1, parse_part-itoa n hn) refl
parse_oid-oid_text (n ∷ m ∷ ns) some_left (hn, h) =
    let s =
      split_on-number [] (itoa n) (oid_text (m ∷ ns)) (All-digits (itoa n) (itoa-IsNumber n hn)) in
    let rest = parse_oid-oid_text (m ∷ ns) (λ e. cc) h in rw (s.0, parse_part-itoa n hn, rest) refl
