-- ===== src/Binary/Charset.antt =====
-- pkg/asn1/asn1binary/charset.go: the byte sets that validate PrintableString and IA5String.
-- A `CharSetByteValidator` is a list of eight 32-bit words.
mod Tests
use net_mapper.Prelude.{
  ℕ, zero, suc, ◌+◌, ◌-◌, ◌*◌, ◌/◌, ◌%◌, ◌^◌, ◌<◌, ◌≡◌, ◌↔◌, refl, bit_and, bit_or,
}
use net_mapper.Prelude.{
  Bool, true, false, not, ◌&&◌, ◌||◌, List, [], ◌∷◌, arith, All, inl, inr, Bool-cases,
}
use net_mapper.Prelude.{
  Bytes, leb, ◌==◌, if◌then◌else◌, get_or, set, replicate, Outcome, ok, err, codes,
}
use net_mapper.Prelude.Bits.{all_below, all_below-at}
use net_mapper.Binary.Error.{Error, invalid_character}

abbrev pub Charset : Type 0
Charset = List ℕ

abbrev pub word_index : ℕ → ℕ
word_index r = r / 32

abbrev pub word_mask : ℕ → ℕ
word_mask r = 2 ^ (r % 32)

-- `c[n] |= mask`, or `c[n] &^= mask`: the bits of the mask that are set are taken off.
unfoldable pub set_char : Bool → Charset → ℕ → Charset
set_char on c r =
    let n = word_index r in
    let w = get_or c n 0 in
    set c n (if on then bit_or w (word_mask r) else w - bit_and w (word_mask r))

unfoldable pub set_chars : Bool → Charset → Bytes → Charset
unfolding set_char
set_chars on c [] = c
set_chars on c (r ∷ rs) = set_chars on (set_char on c r) rs

-- `for r := from; r <= to; r++`, as the number of rounds; `to` is below 255, where `r++` would wrap.
unfoldable pub set_rounds : Bool → Charset → ℕ → ℕ → Charset
unfolding set_char
set_rounds on c r zero = c
set_rounds on c r (suc rounds) = set_rounds on (set_char on c r) (r + 1) rounds

unfoldable pub set_char_range : Bool → Charset → ℕ → ℕ → Charset
unfolding set_rounds
set_char_range on c from to = set_rounds on c from (to + 1 - from)

unfoldable pub has_char : Charset → ℕ → Bool
has_char c r = not (bit_and (get_or c (word_index r) 0) (word_mask r) == 0)

unfoldable pub validate_bytes : Charset → Bytes → Outcome Error (Unit {0})
unfolding has_char
validate_bytes c [] = ok tt
validate_bytes c (r ∷ rs) =
    if bit_and (get_or c (word_index r) 0) (word_mask r) == 0
    then err (invalid_character r)
    else validate_bytes c rs

-- The two sets that `init` fills.
unfoldable pub printable_string : Charset
unfolding set_chars set_char_range
printable_string =
    let c0 = replicate 8 0 in
    let c1 = set_char_range true c0 b'A' b'Z' in
    let c2 = set_char_range true c1 b'a' b'z' in
    let c3 = set_char_range true c2 b'0' b'9' in set_chars true c3 (codes " '()+,-./:=?")

unfoldable pub ia5_string : Charset
unfolding set_char_range
ia5_string = set_char_range true (replicate 8 0) 0 127

-- The characters of PrintableString as X.680 lists them.
abbrev pub is_printable : ℕ → Bool
is_printable r =
    leb b'A' r && leb r b'Z'
    || leb b'a' r && leb r b'z'
    || leb b'0' r && leb r b'9'
    || r == b' '
    || r == b'\''
    || r == b'('
    || r == b')'
    || r == b'+'
    || r == b','
    || r == b'-'
    || r == b'.'
    || r == b'/'
    || r == b':'
    || r == b'='
    || r == b'?'

abbrev same_bool : Bool → Bool → Bool
same_bool a b = if a then b else not b

same_bool_eq : (a b : Bool) → same_bool a b ≡ true → a ≡ b
same_bool_eq a b h = ground arith

printable_table :
    all_below (λ r. same_bool (has_char printable_string r) (is_printable r)) 256 ≡ true
unfolding all_below has_char printable_string
printable_table = refl

ia5_table : all_below (λ r. same_bool (has_char ia5_string r) (leb r 127)) 256 ≡ true
unfolding all_below has_char ia5_string
ia5_table = refl

-- A text passes when every byte is in the set.
validate_bytes-All :
    (c : Charset) (rs : Bytes) → (validate_bytes c rs ≡ ok tt) ↔ All (λ r. has_char c r ≡ true) rs
unfolding validate_bytes
validate_bytes-All c [] = (λ _. tt, λ _. refl)
validate_bytes-All c (r ∷ rs) = ground (arith, validate_bytes-All c rs)

module _ (c : Charset) (p : ℕ → Bool) (agrees : (r : ℕ) → r < 256 → has_char c r ≡ p r) where
  All-agree :
      (rs : Bytes)
      → All (λ r. r < 256) rs
      → All (λ r. has_char c r ≡ true) rs ↔ All (λ r. p r ≡ true) rs
  All-agree [] h = (λ _. tt, λ _. tt)
  All-agree (r ∷ rs) (hr, h) = ground (arith, agrees r hr, All-agree rs h)

-- PrintableStringValidator accepts a byte string exactly when X.680 allows each of its characters.
pub printable_string_iff :
    (rs : Bytes)
    → All (λ r. r < 256) rs
    → (validate_bytes printable_string rs ≡ ok tt) ↔ All (λ r. is_printable r ≡ true) rs
printable_string_iff rs h =
    let table =
      λ (r : ℕ) (lt : r < 256). same_bool_eq _ _ (all_below-at _ r 256 printable_table lt) in
    let a = validate_bytes-All printable_string rs in
    let b = All-agree printable_string is_printable table rs h in
    (λ x. b.0 (a.0 x), λ x. a.1 (b.1 x))

-- IA5StringValidator accepts a byte string exactly when every byte is at most 127.
pub ia5_string_iff :
    (rs : Bytes)
    → All (λ r. r < 256) rs
    → (validate_bytes ia5_string rs ≡ ok tt) ↔ All (λ r. leb r 127 ≡ true) rs
ia5_string_iff rs h =
    let table = λ (r : ℕ) (lt : r < 256). same_bool_eq _ _ (all_below-at _ r 256 ia5_table lt) in
    let a = validate_bytes-All ia5_string rs in
    let b = All-agree ia5_string (λ r. leb r 127) table rs h in (λ x. b.0 (a.0 x), λ x. a.1 (b.1 x))
