-- ===== src/Go/Integer/Read.antt =====
-- What `GetInt` returns.
use native.Mathlib.Nat.{pow-suc, pow-le-pow_right}
use net_mapper.Prelude.{
  ℕ, zero, suc, ◌+◌, ◌-◌, ◌*◌, ◌%◌, ◌^◌, ◌≤◌, ◌<◌, ◌≡◌, refl, ap, ◌∙◌, arith, Bool, true, false,
  not,
}
use net_mapper.Prelude.{
  [], ◌∷◌, ◌++◌, Bytes, ltb, leb, ◌==◌, if◌then◌else◌, length, All, ok, panicked, ◌>>=◌,
}
use net_mapper.Prelude.{bit_and, Bool-cases, inl, inr}
use net_mapper.Prelude.Bits.{bit_and_80}
use net_mapper.Binary.Value.Length.{IsByte}
use net_mapper.Go.Integer.{read_bytes, extend_sign, get_int, shift_left}

-- The number that bytes stand for, the most significant first.
abbrev pub be_value : Bytes → ℕ
be_value [] = 0
be_value (b ∷ bs) = b * 256 ^ length bs + be_value bs

-- The 64-bit pattern of the two's complement number that at most eight bytes stand for.
abbrev pub signed_value : Bytes → ℕ
signed_value [] = 0
signed_value (b ∷ bs) =
    if ltb b 128 then be_value (b ∷ bs) else 2 ^ 64 - 256 ^ suc (length bs) + be_value (b ∷ bs)

pub be_value-lt : (bs : Bytes) → All IsByte bs → be_value bs < 256 ^ length bs
be_value-lt [] h = omega arith
be_value-lt (b ∷ bs) (hb, h) =
    let top : b * 256 ^ length bs ≤ 255 * 256 ^ length bs = grind arith in
    omega (arith, be_value-lt bs h, pow-suc 256 (length bs))

regroup :
    (n b j : ℕ) (bs : Bytes)
    → ◌≡◌ {A = ℕ × ℕ}
        ((n * 256 + b) * 256 ^ length bs + be_value bs, 8 * (suc j + length bs))
        (n * 256 ^ suc (length bs) + (b * 256 ^ length bs + be_value bs), 8 * (j + suc (length bs)))
regroup n b j bs = ground (arith, ap (λ (t : ℕ). n * t) (pow-suc 256 (length bs)))

-- While there is room nothing is refused or lost. `j` bytes have been read.
read_bytes-be_value :
    (bits : ℕ) (negate : Bool) (j n : ℕ) (bs : Bytes)
    → n < 256 ^ j
    → j + length bs ≤ 8
    → 8 * (j + length bs) ≤ bits
    → All IsByte bs
    → read_bytes bits negate n (8 * j) bs
      ≡ ok (n * 256 ^ length bs + be_value bs, 8 * (j + length bs))
unfolding read_bytes
read_bytes-be_value bits negate j n [] fits few room h = ground arith
read_bytes-be_value bits negate j n (b ∷ bs) fits few room (hb, h) =
    let next : n * 256 + b < 256 ^ suc j = omega (arith, pow-suc 256 j) in
    let bound = pow-le-pow_right {n = 256} (omega arith) {i = suc j} {j = 8} (omega arith) in
    let test : leb bits (8 * j) ≡ false = ground arith in
    let no_wrap : (n * 2 ^ 8 % 2 ^ 64 + b) % 2 ^ 64 ≡ n * 256 + b = omega arith in
    let count : 8 * j + 8 ≡ 8 * suc j = omega arith in
    rw (test, no_wrap, count)
      (read_bytes-be_value bits negate (suc j) (n * 256 + b) bs next (omega arith) (omega arith) h
        ∙ ap ok (regroup n b j bs))

-- The two shifts fill the bits above `k` bytes with the sign.
extend_sign-negative :
    (k n : ℕ)
    → k ≤ 7
    → 128 * 256 ^ k ≤ n
    → n < 256 ^ suc k
    → extend_sign true (n, 8 * suc k) ≡ ok (2 ^ 64 - 256 ^ suc k + n)
unfolding extend_sign
extend_sign-negative zero n few lo hi = ground arith
extend_sign-negative (suc zero) n few lo hi = ground arith
extend_sign-negative (suc (suc zero)) n few lo hi = ground arith
extend_sign-negative (suc (suc (suc zero))) n few lo hi = ground arith
extend_sign-negative (suc (suc (suc (suc zero)))) n few lo hi = ground arith
extend_sign-negative (suc (suc (suc (suc (suc zero))))) n few lo hi = ground arith
extend_sign-negative (suc (suc (suc (suc (suc (suc zero)))))) n few lo hi = ground arith
extend_sign-negative (suc (suc (suc (suc (suc (suc (suc zero))))))) n few lo hi = ground arith
extend_sign-negative (suc (suc (suc (suc (suc (suc (suc (suc k)))))))) n few lo hi =
    absurd (omega arith)

top_bit : (b : ℕ) → b < 256 → not (bit_and b 0x80 == 0) ≡ not (ltb b 128)
top_bit b h = ground (arith, bit_and_80 b h)

read_whole :
    (bits : ℕ) (negate : Bool) (bs : Bytes)
    → length bs ≤ 8
    → 8 * length bs ≤ bits
    → All IsByte bs
    → read_bytes bits negate 0 0 bs ≡ ok (be_value bs, 8 * length bs)
read_whole bits negate bs few room h =
    read_bytes-be_value bits negate 0 0 bs (omega arith) (omega arith) (omega arith) h
    ∙ ground arith

-- `GetInt` past its guards.
get_int-cons :
    (bits b : ℕ) (bs : Bytes)
    → bits ≤ 64
    → bits % 8 ≡ 0
    → b < 256
    → get_int bits (b ∷ bs)
      ≡ (read_bytes bits (not (ltb b 128)) 0 0 (b ∷ bs) >>= extend_sign (not (ltb b 128)))
unfolding get_int
get_int-cons bits b bs max whole hb = rw (top_bit b hb) (ground arith)

-- GetInt of at least one byte, at a size of at most 64 bits that is a multiple of eight and holds
-- the bytes, is the two's complement number that they stand for.
pub get_int-signed_value :
    (bits b : ℕ) (bs : Bytes)
    → bits ≤ 64
    → bits % 8 ≡ 0
    → 8 * length (b ∷ bs) ≤ bits
    → All IsByte (b ∷ bs)
    → get_int bits (b ∷ bs) ≡ ok (signed_value (b ∷ bs))
unfolding extend_sign
get_int-signed_value bits b bs max whole room (hb, h) =
    let start = get_int-cons bits b bs max whole hb in
    let few : length bs ≤ 7 = omega arith in
    let low = be_value-lt bs h in
    let size = pow-suc 256 (length bs) in
    let loop = λ (s : Bool). read_whole bits s (b ∷ bs) (omega arith) room (hb, h) in
    elim (Bool-cases (ltb b 128)) [
      | inl plus ↦ rw (start, plus, loop false, extend_sign)
      | inr minus ↦
          let at_most : b * 256 ^ length bs ≤ 255 * 256 ^ length bs = grind arith in
          let at_least : 128 * 256 ^ length bs ≤ b * 256 ^ length bs = grind arith in
          rw (start, minus, loop true)
            (extend_sign-negative (length bs) (be_value (b ∷ bs)) few (omega arith) (omega arith))
    ]

-- A number of more than eight bytes is checked in its last bytes, not in its first.
read_bytes-append :
    (bits n k m j : ℕ) (negate : Bool) (xs ys : Bytes)
    → read_bytes bits negate n k xs ≡ ok (m, j)
    → read_bytes bits negate n k (xs ++ ys) ≡ read_bytes bits negate m j ys
unfolding read_bytes
read_bytes-append bits n k m j negate [] ys h = ground arith
read_bytes-append bits n k m j negate (b ∷ xs) ys h =
    ground (arith, read_bytes-append bits ((shift_left n 8 + b) % 2 ^ 64) (k + 8) m j negate xs ys)

ninth_plus : (n : ℕ) → read_bytes 64 false n 64 (0 ∷ []) ≡ ok (n * 256 % 2 ^ 64, 72)
unfolding read_bytes
ninth_plus n = ground arith

ninth_minus : (n : ℕ) → (read_bytes 64 true n 64 (0xff ∷ []) >>= extend_sign true) ≡ panicked
unfolding read_bytes extend_sign
ninth_minus n = refl

nine :
    (s : Bool) (b last : ℕ) (bs : Bytes)
    → length bs ≡ 7
    → All IsByte (b ∷ bs)
    → not (ltb b 128) ≡ s
    → get_int 64 (b ∷ (bs ++ (last ∷ [])))
      ≡ (read_bytes 64 s (be_value (b ∷ bs)) 64 (last ∷ []) >>= extend_sign s)
nine s b last bs size (hb, h) sign =
    let loop = read_whole 64 s (b ∷ bs) (omega arith) (omega arith) (hb, h) in
    let bits : 8 * length (b ∷ bs) ≡ 64 = omega arith in
    rw (get_int-cons 64 b (bs ++ (last ∷ [])) (omega arith) refl hb, sign)
      (rw (read_bytes-append 64 0 0 _ _ s (b ∷ bs) (last ∷ []) loop, bits))

-- Nine bytes of a number that is not negative, of which the last is zero, are accepted by GetInt
-- at 64 bits, and the number is cut to 64 bits, so that the first byte is lost.
pub get_int_nine :
    (b : ℕ) (bs : Bytes)
    → length bs ≡ 7
    → All IsByte (b ∷ bs)
    → b < 128
    → get_int 64 ((b ∷ bs) ++ (0 ∷ [])) ≡ ok (be_value (b ∷ bs) * 256 % 2 ^ 64)
unfolding extend_sign
get_int_nine b bs size h plus =
    nine false b 0 bs size h (ground arith) ∙ rw (ninth_plus (be_value (b ∷ bs)))

-- GetInt at 64 bits panics on nine bytes of a negative number of which the last is 0xFF.
pub get_int-panicked :
    (b : ℕ) (bs : Bytes)
    → length bs ≡ 7
    → All IsByte (b ∷ bs)
    → 128 ≤ b
    → get_int 64 ((b ∷ bs) ++ (0xff ∷ [])) ≡ panicked
get_int-panicked b bs size h minus =
    nine true b 0xff bs size h (ground arith) ∙ ninth_minus (be_value (b ∷ bs))
