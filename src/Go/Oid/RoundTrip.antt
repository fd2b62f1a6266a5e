-- ===== src/Go/Oid/RoundTrip.antt =====
-- `UnpackAsn1` after `PackAsn1`.
use mathlib.Core.Path.{subst}
use native.Mathlib.Nat.{pow-suc}
use net_mapper.Prelude.{
  ℕ, zero, suc, ◌+◌, ◌*◌, ◌/◌, ◌%◌, ◌^◌, ◌<◌, ◌≡◌, refl, ap, ◌∙◌, arith, bit_and, bit_or, Bool,
  true, false,
}
use net_mapper.Prelude.{[], ◌∷◌, ◌++◌, Bytes, ltb, ◌==◌, All, ok, ◌>>=◌, Bool-cases, inl, inr}
use net_mapper.Prelude.Bits.{bit_and-7f, bit_and_80, bit_or_80}
use net_mapper.Go.Oid.{
  Oid, groups, write_high, write_groups, pack_element, pack_elements, pack_oid, unpack_elements,
  unpack_oid,
}

-- The number that groups of seven bits stand for, the least significant first.
abbrev value_7 : Bytes → ℕ
value_7 [] = 0
value_7 (g ∷ gs) = g + 128 * value_7 gs

abbrev IsGroup : ℕ → Type 0
IsGroup g = g < 128

-- What `groups` leaves in the array.
record Grouped (n : ℕ) (room : ℕ) : Type 0 where
  gs : Bytes
  made : groups room n ≡ ok gs
  exact : value_7 gs ≡ n
  small : All IsGroup gs

groups-Grouped : (room n : ℕ) → n < 128 ^ room → Grouped n room
unfolding groups
groups-Grouped zero n h = record { gs = []; made = ground arith; exact = omega arith; small = tt }
groups-Grouped (suc room) n h = elim (Bool-cases (n == 0)) [
  | inl done ↦ record { gs = []; made = rw done; exact = ground arith; small = tt }
  | inr more ↦
      let later = groups-Grouped room (n / 128) (omega (arith, pow-suc 128 room)) in
      let low : bit_and n 0x7f % 256 ≡ n % 128 = omega (arith, bit_and-7f n) in
      record {
        gs = n % 128 ∷ later.gs;
        made = rw (more, later.made, low);
        exact = omega (arith, later.exact);
        small = (omega arith, later.small);
      }
]

-- A byte inside an element, and its last byte.
unpack_high :
    (g n : ℕ) (t : Bytes) (inside : Bool)
    → g < 128
    → n * 128 + g < 2 ^ 64
    → unpack_elements (bit_or g 0x80 ∷ t) n inside ≡ unpack_elements t (n * 128 + g) true
unfolding unpack_elements
unpack_high g n t inside hg fits =
    let test : (bit_and (g + 128) 0x80 == 0) ≡ false = ground (arith, bit_and_80 (g + 128)) in
    let sum : (n * 2 ^ 7 % 2 ^ 64 + bit_and (g + 128) 0x7f) % 2 ^ 64 ≡ n * 128 + g =
      omega (arith, bit_and-7f (g + 128)) in
    rw (bit_or_80 g hg, test, sum)

unpack_last :
    (g n : ℕ) (t : Bytes) (inside : Bool)
    → g < 128
    → n * 128 + g < 2 ^ 64
    → unpack_elements (g ∷ t) n inside
      ≡ (unpack_elements t 0 false >>= λ ns. ok ((n * 128 + g) ∷ ns))
unfolding unpack_elements
unpack_last g n t inside hg fits =
    let test : (bit_and g 0x80 == 0) ≡ true = ground (arith, bit_and_80 g) in
    let sum : (n * 2 ^ 7 % 2 ^ 64 + bit_and g 0x7f) % 2 ^ 64 ≡ n * 128 + g =
      omega (arith, bit_and-7f g) in
    rw (test, sum)

abbrev is_cons : Bytes → Bool
is_cons [] = false
is_cons (g ∷ gs) = true

unpack-write_high :
    (gs t : Bytes)
    → All IsGroup gs
    → value_7 gs < 2 ^ 64
    → unpack_elements (write_high gs t) 0 false ≡ unpack_elements t (value_7 gs) (is_cons gs)
unfolding write_high
unpack-write_high [] t h fits = refl
unpack-write_high (g ∷ gs) t (hg, h) fits =
    unpack-write_high gs (bit_or g 0x80 ∷ t) h (omega arith)
    ∙ unpack_high g (value_7 gs) t (is_cons gs) hg (omega arith)
    ∙ ap (λ (n : ℕ). unpack_elements t n true) (omega arith)

write_high-append : (gs out t : Bytes) → write_high gs out ++ t ≡ write_high gs (out ++ t)
unfolding write_high
write_high-append [] out t = refl
write_high-append (g ∷ gs) out t = write_high-append gs (bit_or g 0x80 ∷ out) t

unpack-write_groups :
    (gs t : Bytes)
    → All IsGroup gs
    → 0 < value_7 gs
    → value_7 gs < 2 ^ 64
    → unpack_elements (write_groups gs ++ t) 0 false
      ≡ (unpack_elements t 0 false >>= λ ns. ok (value_7 gs ∷ ns))
unfolding write_groups
unpack-write_groups [] t h pos fits = absurd (omega arith)
unpack-write_groups (g ∷ gs) t (hg, h) pos fits =
    let value : value_7 gs * 128 + g ≡ g + 128 * value_7 gs = omega arith in
    rw (write_high-append gs (g ∷ []) t) (
      unpack-write_high gs (g ∷ t) h (omega arith)
      ∙ rw (← value) (unpack_last g (value_7 gs) t (is_cons gs) hg (omega arith)))

-- What one element is packed to, and how it is read back in front of anything.
record Packed (n : ℕ) : Type 0 where
  bytes : Bytes
  packed : pack_element n ≡ ok bytes
  unpacked :
      (t : Bytes)
      → unpack_elements (bytes ++ t) 0 false ≡ (unpack_elements t 0 false >>= λ ns. ok (n ∷ ns))

pack_element-Packed : (n : ℕ) → n < 2 ^ 63 → Packed n
unfolding pack_element
pack_element-Packed n h = elim (Bool-cases (ltb n 128)) [
  | inl small ↦ record {
    bytes = n % 256 ∷ [];
    packed = ground arith;
    unpacked = λ t.
        let byte : n % 256 ≡ n = ground arith in
        let whole : 0 * 128 + n ≡ n = omega arith in
        rw byte (unpack_last n 0 t false (ground arith) (omega arith) ∙ rw whole);
  }
  | inr large ↦
      let grouped = groups-Grouped 10 n (omega arith) in
      record {
        bytes = write_groups grouped.gs;
        packed = rw (large, grouped.made) (ground arith);
        unpacked = λ t.
            subst
              (λ (m : ℕ).
                unpack_elements (write_groups grouped.gs ++ t) 0 false
                ≡ (unpack_elements t 0 false >>= λ ns. ok (m ∷ ns)))
              grouped.exact
              (unpack-write_groups grouped.gs t grouped.small (ground (arith, grouped.exact))
                (omega (arith, grouped.exact)));
      }
]

pack_elements-unpacked :
    (ns : Oid)
    → All (λ n. n < 2 ^ 63) ns
    → (bytes : Bytes) × (pack_elements ns ≡ ok bytes) × (unpack_elements bytes 0 false ≡ ok ns)
unfolding pack_elements unpack_elements
pack_elements-unpacked [] h = ([], refl, refl)
pack_elements-unpacked (n ∷ ns) (hn, h) =
    let one = pack_element-Packed n hn in
    let (bytes, packed, unpacked) = pack_elements-unpacked ns h in
    (one.bytes ++ bytes, rw (one.packed, packed), one.unpacked bytes ∙ rw unpacked)

-- UnpackAsn1 gives back the OID that PackAsn1 packed, if the second element is below 40, the first
-- two fit one byte, and no other element is negative.
pub unpack_oid-pack_oid :
    (a b : ℕ) (ns : Oid)
    → b < 40
    → a * 40 + b < 256
    → All (λ n. n < 2 ^ 63) ns
    → (pack_oid (a ∷ b ∷ ns) >>= λ (e, bytes). unpack_oid e bytes) ≡ ok (a ∷ b ∷ ns)
unfolding pack_oid unpack_oid
unpack_oid-pack_oid a b ns hb fits h =
    let (bytes, packed, unpacked) = pack_elements-unpacked ns h in
    let byte : (a * 40 + b) % 2 ^ 64 % 256 ≡ a * 40 + b = omega arith in
    let first : (a * 40 + b) / 40 ≡ a = omega arith in
    let second : (a * 40 + b) % 40 ≡ b = omega arith in rw (packed, byte, unpacked, first, second)
