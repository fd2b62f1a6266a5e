-- ===== src/Go/Oid.antt =====
-- pkg/asn1/asn1go/oid.go: `PackAsn1`, `UnpackAsn1` and `LessThan`.
-- An element is the 64-bit pattern of an `int`; one from 2 ^ 63 on is negative.
pub mod RoundTrip
pub mod Unpack
pub mod LessThan
mod Tests
use net_mapper.Prelude.{
  ℕ, zero, suc, ◌+◌, ◌*◌, ◌/◌, ◌%◌, ◌^◌, bit_and, bit_or, Bool, true, false, not,
}
use net_mapper.Prelude.{
  List, [], ◌∷◌, ◌++◌, Bytes, ltb, leb, ◌==◌, if◌then◌else◌, Outcome, ok, err, panicked, ◌>>=◌,
}
use net_mapper.Binary.Error
use net_mapper.Binary.Error.{Error}
use net_mapper.Binary.Value.{Envelope}

abbrev pub Oid : Type 0
Oid = List ℕ

abbrev pub is_negative : ℕ → Bool
is_negative n = leb (2 ^ 63) n

-- `for n > 0 { reverse[j] = byte(n & 0x7F); n >>= 7; j++ }` on the room that is left in `reverse`,
-- for an `n` that is not negative.
unfoldable pub groups : ℕ → ℕ → Outcome Error Bytes
groups zero n = if n == 0 then ok [] else panicked
groups (suc room) n =
    let rest = groups room (n / 2 ^ 7) in
    if n == 0 then ok [] else (rest >>= λ gs. ok (bit_and n 0x7f % 256 ∷ gs))

-- `for j--; j >= 0; j--`: the last group is written first, and all but `reverse[0]` get the top bit.
unfoldable pub write_high : Bytes → Bytes → Bytes
write_high [] out = out
write_high (g ∷ gs) out = write_high gs (bit_or g 0x80 ∷ out)

unfoldable pub write_groups : Bytes → Bytes
unfolding write_high
write_groups [] = []
write_groups (g ∷ gs) = write_high gs (g ∷ [])

unfoldable pub pack_element : ℕ → Outcome Error Bytes
pack_element n =
    if is_negative n
    then err Error.oid_negative
    else if ltb n 128
    then ok (n % 256 ∷ [])
    else (groups 10 n >>= λ gs. ok (write_groups gs))

unfoldable pub pack_elements : Oid → Outcome Error Bytes
pack_elements [] = ok []
pack_elements (n ∷ ns) = pack_element n >>= λ bytes. pack_elements ns >>= λ rest. ok (bytes ++ rest)

unfoldable pub pack_oid : Oid → Outcome Error (Envelope × Bytes)
pack_oid [] = err (Error.unexpected Error.oid_prefix 2 0)
pack_oid (a ∷ []) = err (Error.unexpected Error.oid_prefix 2 1)
pack_oid (a ∷ b ∷ ns) = pack_elements ns >>= λ bytes.
    ok (record { class = 0; tag = 6 }, (a * 40 + b) % 2 ^ 64 % 256 ∷ bytes)

-- The two loops of `UnpackAsn1`: `inside` is true in the inner loop, behind its first byte.
unfoldable pub unpack_elements : Bytes → ℕ → Bool → Outcome Error Oid
unpack_elements [] n inside = if inside then err Error.oid_truncated else ok []
unpack_elements (b ∷ bs) n inside =
    let n' = (n * 2 ^ 7 % 2 ^ 64 + bit_and b 0x7f) % 2 ^ 64 in
    let last = bit_and b 0x80 == 0 in
    let rest = unpack_elements bs (if last then 0 else n') (not last) in
    if last then (rest >>= λ ns. ok (n' ∷ ns)) else rest

unfoldable pub unpack_oid : Envelope → Bytes → Outcome Error Oid
unpack_oid e [] =
    if not (e.tag == 6)
    then err (Error.unexpected Error.unexpected_tag 6 e.tag)
    else err (Error.unexpected Error.oid_prefix 1 0)
unpack_oid e (b ∷ bs) =
    if not (e.tag == 6)
    then err (Error.unexpected Error.unexpected_tag 6 e.tag)
    else (unpack_elements bs 0 false >>= λ ns. ok (b / 40 ∷ b % 40 ∷ ns))

-- `<` on ints.
abbrev pub int_less : ℕ → ℕ → Bool
int_less a b = ltb ((a + 2 ^ 63) % 2 ^ 64) ((b + 2 ^ 63) % 2 ^ 64)

unfoldable pub less_than : Oid → Oid → Bool
less_than [] [] = false
less_than [] (b ∷ bs) = true
less_than (a ∷ as') [] = false
less_than (a ∷ as') (b ∷ bs) =
    let rest = less_than as' bs in if not (a == b) then int_less a b else rest
