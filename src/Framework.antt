-- ===== src/Framework.antt =====
-- internal/framework/helpers.go: the names of plugins, and the fields that a configuration may have.
-- `range` over a string gives runes; a byte from 128 on begins or is no rune that is allowed, so the text is
-- gone through byte by byte, and an error keeps its kind alone.
pub mod Laws
pub mod Config
pub mod Plugin
mod Tests
use net_mapper.Prelude.{
  ℕ, zero, suc, ◌+◌, ◌-◌, Bool, true, false, not, ◌&&◌, ◌||◌, List, [], ◌∷◌, ◌++◌, Option, none,
  some,
}
use net_mapper.Prelude.{
  Bytes, codes, ltb, leb, ◌==◌, str_eq, if◌then◌else◌, length, get_elem?, take, Outcome, ok, err,
}

pub data Error : Type 0 where
  empty_string string_too_long first_not_letter invalid_character : Error
  unexpected_fields : List Bytes → Error

abbrev pub is_letter : ℕ → Bool
is_letter c = leb b'a' c && leb c b'z' || leb b'A' c && leb c b'Z'

abbrev pub is_word : ℕ → Bool
is_word c = is_letter c || leb b'0' c && leb c b'9' || c == b'_'

-- The loop; the first byte, of index 0, has a test of its own.
unfoldable pub check_chars : Bool → Bytes → Outcome Error (Unit {0})
check_chars first [] = ok tt
check_chars first (c ∷ cs) =
    let rest = check_chars false cs in
    if first && not (is_letter c)
    then err first_not_letter
    else if not (is_word c)
    then err invalid_character
    else rest

unfoldable pub is_identifier : Bytes → Outcome Error (Unit {0})
is_identifier s =
    if length s == 0
    then err empty_string
    else if ltb 64 (length s)
    then err string_too_long
    else check_chars true s

-- `strings.HasSuffix` for one byte.
unfoldable pub has_last : ℕ → Bytes → Bool
has_last c s = elim (get_elem? s (length s - 1)) [ none ↦ false | some b ↦ b == c ]

abbrev pub without_last : Bytes → Bytes
without_last s = take (length s - 1) s

unfoldable pub variations_of : Bytes → List Bytes
unfolding has_last
variations_of field =
    field
    ∷ (if has_last b's' field then without_last field else field ++ codes "s")
    ∷ (if has_last b'y' field then (without_last field ++ codes "ies") ∷ [] else [])

unfoldable pub variations : List Bytes → List Bytes
variations [] = []
variations (field ∷ fields) = variations_of field ++ variations fields

-- `slices.Contains`
unfoldable pub contains : List Bytes → Bytes → Bool
contains [] k = false
contains (s ∷ ss) k = str_eq s k || contains ss k

-- The loop of `CheckFields` over the keys of the configuration.
unfoldable pub unexpected : List Bytes → List Bytes → List Bytes
unexpected allowed [] = []
unexpected allowed (k ∷ ks) =
    let rest = unexpected allowed ks in if not (contains allowed k) then k ∷ rest else rest

abbrev none_or_error : List Bytes → Outcome Error (Unit {0})
none_or_error [] = ok tt
none_or_error (k ∷ ks) = err (unexpected_fields (k ∷ ks))

unfoldable pub check_fields : List Bytes → List Bytes → Outcome Error (Unit {0})
check_fields keys fields = none_or_error (unexpected (variations fields) keys)
