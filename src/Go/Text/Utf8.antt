-- ===== src/Go/Text/Utf8.antt =====
-- UTF-8 as the Go language reads and writes it, for string.go.
use native.Mathlib.Decide.{dec_lt}
use net_mapper.Prelude.{
  ◌∙◌, ap, ℕ, zero, suc, ◌+◌, ◌-◌, ◌*◌, ◌/◌, ◌%◌, ◌≤◌, ◌<◌, ◌≡◌, ◌⊎◌, refl, arith, Bool, ◌&&◌, ◌||◌,
}
use net_mapper.Prelude.{List, [], ◌∷◌, ◌++◌, Bytes, ltb, leb, ◌==◌, if◌then◌else◌, All}

abbrev replacement : ℕ
replacement = 0xfffd

-- A byte behind the first.
abbrev follows : ℕ → Bool
follows b = leb 0x80 b && leb b 0xbf

-- The second byte of three or four, which excludes long forms, surrogates and what is above 0x10FFFF.
abbrev second_fits : ℕ → ℕ → Bool
second_fits first b =
    follows b
    && (if first == 0xe0
        then leb 0xa0 b
        else if first == 0xed
        then leb b 0x9f
        else if first == 0xf0
        then leb 0x90 b
        else if first == 0xf4
        then leb b 0x8f
        else leb 0 b)

-- The rune at the front and the number of its bytes.
unfoldable pub decode_rune : ℕ → Bytes → ℕ × ℕ
decode_rune a (b ∷ c ∷ d ∷ rest) =
    if ltb a 0x80
    then (a, 1)
    else if leb 0xc2 a && leb a 0xdf && follows b
    then ((a - 0xc0) * 64 + (b - 0x80), 2)
    else if leb 0xe0 a && leb a 0xef && second_fits a b && follows c
    then ((a - 0xe0) * 4096 + (b - 0x80) * 64 + (c - 0x80), 3)
    else if leb 0xf0 a && leb a 0xf4 && second_fits a b && follows c && follows d
    then ((a - 0xf0) * 262144 + (b - 0x80) * 4096 + (c - 0x80) * 64 + (d - 0x80), 4)
    else (replacement, 1)
decode_rune a (b ∷ c ∷ []) =
    if ltb a 0x80
    then (a, 1)
    else if leb 0xc2 a && leb a 0xdf && follows b
    then ((a - 0xc0) * 64 + (b - 0x80), 2)
    else if leb 0xe0 a && leb a 0xef && second_fits a b && follows c
    then ((a - 0xe0) * 4096 + (b - 0x80) * 64 + (c - 0x80), 3)
    else (replacement, 1)
decode_rune a (b ∷ []) =
    if ltb a 0x80
    then (a, 1)
    else if leb 0xc2 a && leb a 0xdf && follows b
    then ((a - 0xc0) * 64 + (b - 0x80), 2)
    else (replacement, 1)
decode_rune a [] = if ltb a 0x80 then (a, 1) else (replacement, 1)

-- The runes of a string behind the bytes that belong to the last one.
unfoldable pub runes_behind : ℕ → Bytes → List ℕ
runes_behind skip [] = []
runes_behind (suc skip) (b ∷ bs) = runes_behind skip bs
runes_behind zero (b ∷ bs) = let (r, width) = decode_rune b bs in r ∷ runes_behind (width - 1) bs

unfoldable pub runes : Bytes → List ℕ
runes bytes = runes_behind 0 bytes

unfoldable pub encode_rune : ℕ → Bytes
encode_rune r =
    if ltb r 0x80
    then r ∷ []
    else if ltb r 0x800
    then (0xc0 + r / 64) ∷ (0x80 + r % 64) ∷ []
    else if leb 0xd800 r && leb r 0xdfff || ltb 0x10ffff r
    then 0xef ∷ 0xbf ∷ 0xbd ∷ []
    else if ltb r 0x10000
    then (0xe0 + r / 4096) ∷ (0x80 + r / 64 % 64) ∷ (0x80 + r % 64) ∷ []
    else (0xf0 + r / 262144) ∷ (0x80 + r / 4096 % 64) ∷ (0x80 + r / 64 % 64) ∷ (0x80 + r % 64) ∷ []

-- `string(runes)`
unfoldable pub from_runes : List ℕ → Bytes
from_runes [] = []
from_runes (r ∷ rs) = encode_rune r ++ from_runes rs

-- A code point of the Basic Multilingual Plane that is no surrogate.
abbrev pub IsBmp : ℕ → Type 0
IsBmp r = (r < 0xd800) ⊎ ((0xe000 ≤ r) × (r < 0x10000))

decode_two :
    (a b : ℕ) (rest : Bytes)
    → 0xc2 ≤ a
    → a ≤ 0xdf
    → 0x80 ≤ b
    → b ≤ 0xbf
    → decode_rune a (b ∷ rest) ≡ ((a - 0xc0) * 64 + (b - 0x80), 2)
unfolding decode_rune
decode_two a b [] l1 h1 l2 h2 = ground arith
decode_two a b (c ∷ []) l1 h1 l2 h2 = ground arith
decode_two a b (c ∷ d ∷ rest) l1 h1 l2 h2 = ground arith

decode_three :
    (a b c : ℕ) (rest : Bytes)
    → 0xe0 ≤ a
    → a ≤ 0xef
    → second_fits a b ≡ Bool.true
    → 0x80 ≤ c
    → c ≤ 0xbf
    → decode_rune a (b ∷ c ∷ rest) ≡ ((a - 0xe0) * 4096 + (b - 0x80) * 64 + (c - 0x80), 3)
unfolding decode_rune
decode_three a b c [] l1 h1 f l2 h2 = ground arith
decode_three a b c (d ∷ rest) l1 h1 f l2 h2 = ground arith

decode_one : (a : ℕ) (rest : Bytes) → a < 0x80 → decode_rune a rest ≡ (a, 1)
unfolding decode_rune
decode_one a [] h = ground arith
decode_one a (b ∷ []) h = ground arith
decode_one a (b ∷ c ∷ []) h = ground arith
decode_one a (b ∷ c ∷ d ∷ rest) h = ground arith

three_value :
    (r : ℕ)
    → r < 0x10000
    → (0xe0 + r / 4096 - 0xe0) * 4096 + (0x80 + r / 64 % 64 - 0x80) * 64 + (0x80 + r % 64 - 0x80)
      ≡ r
three_value r h = omega arith

second_fits_lem :
    (x y : ℕ)
    → x < 16
    → y < 64
    → (x ≡ 0 → 32 ≤ y)
    → (x ≡ 13 → y < 32)
    → second_fits (0xe0 + x) (0x80 + y) ≡ Bool.true
second_fits_lem x y hx hy low surrogate = ground arith

runes_three :
    (r : ℕ) (rest : Bytes)
    → IsBmp r
    → 0x800 ≤ r
    → runes_behind 0 (encode_rune r ++ rest) ≡ r ∷ runes_behind 0 rest
unfolding runes_behind encode_rune
runes_three r rest h lo =
    let fits =
      second_fits_lem (r / 4096) (r / 64 % 64) (omega arith) (omega arith) (omega arith)
        (omega arith) in
    let d =
      decode_three (0xe0 + r / 4096) (0x80 + r / 64 % 64) (0x80 + r % 64) rest (omega arith)
        (omega arith) fits (omega arith) (omega arith) in
    ground (arith, d, three_value r (omega arith))

runes-encode_rune :
    (r : ℕ) (rest : Bytes)
    → IsBmp r
    → runes_behind 0 (encode_rune r ++ rest) ≡ r ∷ runes_behind 0 rest
unfolding runes_behind encode_rune
runes-encode_rune r rest h = elim (dec_lt r 0x80) [
  | yes one ↦ ground (arith, decode_one r rest one)
  | no more ↦ elim (dec_lt r 0x800) [
    | yes two ↦
        let a = 0xc0 + r / 64 in
        let b = 0x80 + r % 64 in
        let value : (a - 0xc0) * 64 + (b - 0x80) ≡ r = omega arith in
        let d = decode_two a b rest (omega arith) (omega arith) (omega arith) (omega arith) in
        ground (arith, d, value)
    | no three ↦ runes_three r rest h (omega arith)
  ]
]

-- Go reads back the runes of the Basic Multilingual Plane that it writes.
pub runes-from_runes : (rs : List ℕ) → All IsBmp rs → runes (from_runes rs) ≡ rs
unfolding runes from_runes runes_behind
runes-from_runes [] h = refl
runes-from_runes (r ∷ rs) (hr, h) =
    runes-encode_rune r (from_runes rs) hr ∙ ap (λ t. r ∷ t) (runes-from_runes rs h)
