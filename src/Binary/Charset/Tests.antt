-- ===== src/Binary/Charset/Tests.antt =====
-- Runs of charset.go, and its theorems at concrete inputs.
use net_mapper.Prelude.{◌≡◌, ◌↔◌, refl, true, codes, All, ok, err, leb, arith}
use net_mapper.Binary.Error.{invalid_character}
use net_mapper.Binary.Charset.{validate_bytes, printable_string, ia5_string, is_printable}
use net_mapper.Binary.Charset.{printable_string_iff, ia5_string_iff, set_char}
use net_mapper.Prelude.{false, replicate}

at_sign : validate_bytes printable_string (codes "a@b") ≡ err (invalid_character b'@')
unfolding validate_bytes printable_string
at_sign = refl

-- A character can be taken out again.
removed : set_char false (set_char true (replicate 8 0) b'A') b'A' ≡ replicate 8 0
unfolding set_char
removed = refl

printable_string_iff_run :
    (validate_bytes printable_string (codes "O'Hara, 3") ≡ ok tt)
    ↔ All (λ r. is_printable r ≡ true) (codes "O'Hara, 3")
printable_string_iff_run = printable_string_iff (codes "O'Hara, 3") (omega arith)

ia5_string_iff_run :
    (validate_bytes ia5_string (codes "a@b") ≡ ok tt) ↔ All (λ r. leb r 127 ≡ true) (codes "a@b")
ia5_string_iff_run = ia5_string_iff (codes "a@b") (omega arith)
