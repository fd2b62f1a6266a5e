-- ===== src/Go/Integer/Write.antt =====
-- What `SetInt` writes.
use native.Mathlib.Nat.{pow-suc, pow-le-pow_right}
use net_mapper.Prelude.{
  ℕ, zero, suc, ◌+◌, ◌*◌, ◌/◌, ◌%◌, ◌^◌, ◌≤◌, ◌<◌, ◌≡◌, refl, ap, ◌∙◌, arith, Bool, true, false,
  not, bit_and,
}
use net_mapper.Prelude.{
  [], ◌∷◌, Bytes, ltb, leb, ◌==◌, if◌then◌else◌, length, All, Bool-cases, inl, inr, ◌⊎◌, ◌&&◌, ◌||◌,
  sym,
}
use net_mapper.Prelude.Bits.{bit_and_80, bit_and-ff}
use net_mapper.Binary.Value.Length.{IsByte, rev_onto}
use net_mapper.Go.Integer.{put_bytes, trim_front, set_int, shift_right, is_negative}
use net_mapper.Go.Integer.Read.{signed_value}

-- The low `k` bytes of a number, the least significant first.
abbrev pub low_bytes : ℕ → ℕ → Bytes
low_bytes zero w = []
low_bytes (suc k) w = w % 256 ∷ low_bytes k (w / 256)

-- What stands above `m` bytes does not matter to the first `k ≤ m`.
low_bytes_above : (k m a c : ℕ) → k ≤ m → low_bytes k (a + c * 256 ^ m) ≡ low_bytes k a
low_bytes_above zero m a c le = refl
low_bytes_above (suc k) zero a c le = absurd (omega arith)
low_bytes_above (suc k) (suc m) a c le =
    let e : c * 256 ^ suc m ≡ c * 256 ^ m * 256 =
      omega (arith, ap (λ (t : ℕ). c * t) (pow-suc 256 m)) in
    let q : (a + c * 256 ^ suc m) / 256 ≡ a / 256 + c * 256 ^ m = omega arith in
    let r : (a + c * 256 ^ suc m) % 256 ≡ a % 256 = omega arith in
    rw (q, r, low_bytes_above k m (a / 256) c (omega arith))

shift_right_8 : (w : ℕ) → shift_right w 8 ≡ w / 256 + (if is_negative w then 255 else 0) * 256 ^ 7
shift_right_8 w = ground arith

put_bytes-low_bytes :
    (k w : ℕ) (out : Bytes) → k ≤ 8 → put_bytes k w out ≡ rev_onto (low_bytes k w) out
unfolding put_bytes
put_bytes-low_bytes zero w out le = refl
put_bytes-low_bytes (suc k) w out le =
    let byte : bit_and w 0xff % 256 ≡ w % 256 = omega (arith, bit_and-ff w) in
    rw (shift_right_8 w, byte)
      (put_bytes-low_bytes k _ (w % 256 ∷ out) (omega arith)
        ∙ rw (low_bytes_above k 7 (w / 256) (if is_negative w then 255 else 0) (omega arith)))

low_bytes-IsByte : (k w : ℕ) (t : Bytes) → All IsByte t → All IsByte (rev_onto (low_bytes k w) t)
low_bytes-IsByte zero w t h = h
low_bytes-IsByte (suc k) w t h = low_bytes-IsByte k (w / 256) (w % 256 ∷ t) (omega arith, h)

pub signed_eight : (w : ℕ) → w < 2 ^ 64 → signed_value (rev_onto (low_bytes 8 w) []) ≡ w
signed_eight w h = ground arith

-- A first byte that only repeats the sign can go.
drop_fill :
    (t c : ℕ) (bs : Bytes)
    → (t ≡ 0) ⊎ (t ≡ 0xff)
    → c < 256
    → length bs ≤ 6
    → bit_and c 0x80 ≡ bit_and t 0x80
    → signed_value (c ∷ bs) ≡ signed_value (t ∷ c ∷ bs)
drop_fill t c bs fill hc few same =
    let size = pow-suc 256 (length bs) in
    let size' = pow-suc 256 (suc (length bs)) in
    let bound =
      pow-le-pow_right {n = 256} (omega arith) {i = suc (suc (length bs))} {j = 8} (omega arith) in
    ground (arith, bit_and_80 c hc, bit_and_80 t (omega arith))

-- What trimming keeps: the value, at least one byte, and no more bytes than there were.
pub record Trimmed (bs out : Bytes) : Type 0 where
  pub value : signed_value out ≡ signed_value bs
  pub some_left : 1 ≤ length out
  pub not_longer : length out ≤ length bs
  pub bytes : All IsByte out

trim_front-Trimmed :
    (t : ℕ) (bs : Bytes)
    → (t ≡ 0) ⊎ (t ≡ 0xff)
    → 1 ≤ length bs
    → length bs ≤ 8
    → All IsByte bs
    → Trimmed bs (trim_front t bs)
unfolding trim_front
trim_front-Trimmed t [] fill lo hi h = absurd (omega arith)
trim_front-Trimmed t (b ∷ []) fill lo hi h = record {
  value = refl;
  some_left = omega arith;
  not_longer = omega arith;
  bytes = h;
}
trim_front-Trimmed t (b ∷ c ∷ bs) fill lo hi (hb, (hc, h)) =
    let rest = trim_front-Trimmed t (c ∷ bs) fill (omega arith) (omega arith) (hc, h) in
    elim (Bool-cases (b == t && bit_and c 0x80 == bit_and t 0x80)) [
      | inr stop ↦ rw stop (record {
        value = refl;
        some_left = omega arith;
        not_longer = omega arith;
        bytes = (hb, (hc, h));
      })
      | inl go ↦
          let same : b ≡ t = ground arith in
          let sign : bit_and c 0x80 ≡ bit_and t 0x80 = ground arith in
          rw go (record {
            value =
                rest.value
                ∙ drop_fill b c bs (rw same fill) hc (omega arith)
                    (sign ∙ ap (λ (x : ℕ). bit_and x 0x80) (sym same));
            some_left = rest.some_left;
            not_longer = omega (arith, rest.not_longer);
            bytes = rest.bytes;
          })
    ]

-- No shorter byte string stands for the number: the first nine bits are not all equal.
abbrev pub is_minimal : Bytes → Bool
is_minimal [] = false
is_minimal (b ∷ []) = true
is_minimal (b ∷ c ∷ bs) = not (b == 0 && ltb c 128 || b == 0xff && leb 128 c)

trim_front-is_minimal :
    (t b : ℕ) (bs : Bytes)
    → (t ≡ 0) ⊎ (t ≡ 0xff)
    → All IsByte (b ∷ bs)
    → bit_and b 0x80 ≡ bit_and t 0x80
    → is_minimal (trim_front t (b ∷ bs)) ≡ true
unfolding trim_front
trim_front-is_minimal t b [] fill h sign = refl
trim_front-is_minimal t b (c ∷ bs) fill (hb, (hc, h)) sign = ground (
  arith,
  bit_and_80 b hb,
  bit_and_80 c hc,
  bit_and_80 t (omega arith),
  trim_front-is_minimal t c bs fill (hc, h),
)

-- The fill byte that `SetInt` takes off.
abbrev fill_byte : ℕ → ℕ
fill_byte w = if is_negative w then 0xff else 0

fill_byte-cases : (w : ℕ) → (fill_byte w ≡ 0) ⊎ (fill_byte w ≡ 0xff)
fill_byte-cases w = ground arith

head_sign :
    (w : ℕ)
    → w < 2 ^ 64
    → bit_and (w / 256 / 256 / 256 / 256 / 256 / 256 / 256 % 256) 0x80 ≡ bit_and (fill_byte w) 0x80
head_sign w h =
    rw (bit_and_80 (w / 256 / 256 / 256 / 256 / 256 / 256 / 256 % 256) (omega arith)) (ground arith)

pub set_int-Trimmed : (w : ℕ) → Trimmed (rev_onto (low_bytes 8 w) []) (set_int w)
unfolding set_int
set_int-Trimmed w = rw (put_bytes-low_bytes 8 w [] (omega arith)) (
    trim_front-Trimmed (fill_byte w) _ (fill_byte-cases w) (omega arith) (omega arith)
      (low_bytes-IsByte 8 w [] tt))

-- SetInt of an int64 writes one to eight bytes, and no byte too many: where there are two or more,
-- the first nine bits are not all equal.
pub set_int-is_minimal :
    (w : ℕ)
    → w < 2 ^ 64
    → (is_minimal (set_int w) ≡ true) × (1 ≤ length (set_int w)) × (length (set_int w) ≤ 8)
unfolding set_int
set_int-is_minimal w h =
    let kept = set_int-Trimmed w in
    (
      rw (put_bytes-low_bytes 8 w [] (omega arith)) (
          trim_front-is_minimal (fill_byte w) _ _ (fill_byte-cases w) (low_bytes-IsByte 8 w [] tt)
            (head_sign w h)),
      kept.some_left,
      kept.not_longer,
    )
