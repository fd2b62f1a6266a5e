-- ===== src/Prelude/Bits.antt =====
-- Shifts, and the laws of `|` and `&` that the codecs use, as arithmetic.
use Prim.Native.Nat.{ℕ, zero, suc, ◌+◌, ◌*◌, ◌/◌, ◌%◌, ◌^◌, ◌≤◌, ◌<◌, min, max, bit_and, bit_or}
use Prim.Native.Nat.{digits, bit_and-bitwise, bit_or-bitwise}
use mathlib.Core.Path.{◌≡◌, refl, ap}
use mathlib.Core.Bool.{Bool, true, ◌&&◌}
use native.Mathlib.Nat.{pow-suc}
use native.Mathlib.Omega.{arith}
use net_mapper.Prelude.Tests.{◌==◌, ==_iff}

-- Over a small range, a law is checked value by value.
unfoldable pub all_below : (ℕ → Bool) → ℕ → Bool
all_below law (suc k) = law k && all_below law k
all_below law zero = true

pub all_below-at : (law : ℕ → Bool) (y k : ℕ) → all_below law k ≡ true → y < k → law y ≡ true
unfolding all_below
all_below-at law y (suc k) checked below = ground (arith, all_below-at law y k)
all_below-at law y zero checked below = absurd (omega arith)

-- Two functions that agree at every byte.
pub agree_byte :
    (f g : ℕ → ℕ) → all_below (λ x. f x == g x) 256 ≡ true → (b : ℕ) → b < 256 → f b ≡ g b
agree_byte f g table b h = (==_iff (f b) (g b)).0 (all_below-at (λ x. f x == g x) b 256 table h)

pub bit_and_3f : (b : ℕ) → b < 256 → bit_and b 0x3f ≡ b % 64
unfolding all_below
bit_and_3f = agree_byte _ _ refl

pub bit_and_80 : (b : ℕ) → b < 256 → bit_and b 0x80 ≡ b / 128 * 128
unfolding all_below
bit_and_80 = agree_byte _ _ refl

pub bit_or_80 : (b : ℕ) → b < 128 → bit_or b 0x80 ≡ b + 128
unfolding all_below
bit_or_80 b h = (==_iff _ _).0 (all_below-at (λ x. bit_or x 0x80 == x + 128) b 128 refl h)

-- The native operations stand for `digits` with the first number as fuel; any larger fuel does.
module _ (last : ℕ → ℕ) (join : ℕ → ℕ → ℕ) where
  enough : (a b f g : ℕ) → a ≤ f → a ≤ g → digits last join f a b ≡ digits last join g a b
  enough zero b zero zero le_f le_g = refl
  enough zero b zero (suc g) le_f le_g = refl
  enough zero b (suc f) zero le_f le_g = refl
  enough zero b (suc f) (suc g) le_f le_g = refl
  enough (suc a) b zero g le_f le_g = absurd (omega arith)
  enough (suc a) b (suc f) zero le_f le_g = absurd (omega arith)
  enough (suc a) b (suc f) (suc g) le_f le_g =
      ap (λ (t : ℕ). t * 2 + join (suc a % 2) (b % 2))
        (enough (suc a / 2) (b / 2) f g (omega arith) (omega arith))

  low_digit :
      (a b : ℕ)
      → digits last join (suc a) (suc a) b
        ≡ digits last join (suc a / 2) (suc a / 2) (b / 2) * 2 + join (suc a % 2) (b % 2)
  low_digit a b =
      ap (λ (t : ℕ). t * 2 + join (suc a % 2) (b % 2))
        (enough (suc a / 2) (b / 2) a (suc a / 2) (omega arith) (omega arith))

-- `|` digit by digit, the lowest first.
or_digit : (a b : ℕ) → bit_or a b ≡ 2 * bit_or (a / 2) (b / 2) + max (a % 2) (b % 2)
or_digit zero b = omega (arith, bit_or-bitwise 0 b, bit_or-bitwise 0 (b / 2))
or_digit (suc a) b = omega (
  arith,
  bit_or-bitwise (suc a) b,
  bit_or-bitwise (suc a / 2) (b / 2),
  low_digit (λ y. y) max a b,
)

-- `&` digit by digit.
and_digit : (a b : ℕ) → bit_and a b ≡ 2 * bit_and (a / 2) (b / 2) + min (a % 2) (b % 2)
and_digit zero b = omega (arith, bit_and-bitwise 0 b, bit_and-bitwise 0 (b / 2))
and_digit (suc a) b = omega (
  arith,
  bit_and-bitwise (suc a) b,
  bit_and-bitwise (suc a / 2) (b / 2),
  low_digit (λ y. 0) min a b,
)

double_pow : (q k : ℕ) → q * 2 ^ suc k ≡ 2 * (q * 2 ^ k)
double_pow q k = omega (arith, ap (◌*◌ q) (pow-suc 2 k))

-- `r | q << k` is a sum when `r` fits `k` bits.
pub bit_or_disjoint : (k r q : ℕ) → r < 2 ^ k → bit_or r (q * 2 ^ k) ≡ r + q * 2 ^ k
bit_or_disjoint zero zero q fits = omega (arith, bit_or-bitwise 0 (q * 1))
bit_or_disjoint zero (suc r) q fits = absurd (omega arith)
bit_or_disjoint (suc k) r q fits = rw double_pow (
    omega (
      arith,
      double_pow 1 k,
      or_digit r (2 * (q * 2 ^ k)),
      halve,
      bit_or_disjoint k (r / 2) q (omega (arith, double_pow 1 k)),
    ))
  where
    halve : bit_or (r / 2) (2 * (q * 2 ^ k) / 2) ≡ bit_or (r / 2) (q * 2 ^ k)
    halve = ap (bit_or (r / 2)) (omega arith)

-- The low `k` digits of `a`, and the number with `k` digits 1.
abbrev low : ℕ → ℕ → ℕ
low zero a = 0
low (suc k) a = 2 * low k (a / 2) + a % 2

abbrev ones : ℕ → ℕ
ones zero = 0
ones (suc k) = 2 * ones k + 1

nothing_left : (fuel a : ℕ) → a ≤ fuel → bit_and a 0 ≡ 0
nothing_left zero zero le = refl
nothing_left zero (suc a) le = absurd (omega arith)
nothing_left (suc fuel) a le = omega (arith, and_digit a 0, nothing_left fuel (a / 2) (omega arith))

bit_and-ones : (k a : ℕ) → bit_and a (ones k) ≡ low k a
bit_and-ones zero a = nothing_left a a (omega arith)
bit_and-ones (suc k) a = omega (arith, and_digit a (2 * ones k + 1), half, bit_and-ones k (a / 2))
  where
    half : bit_and (a / 2) ((2 * ones k + 1) / 2) ≡ bit_and (a / 2) (ones k)
    half = ap (bit_and (a / 2)) (omega arith)

-- `n & 0xFF` at every number, not at bytes alone.
pub bit_and-ff : (a : ℕ) → bit_and a 0xff ≡ a % 256
bit_and-ff a = omega (arith, bit_and-ones 8 a)

-- `n & 0x7F` at every number.
pub bit_and-7f : (a : ℕ) → bit_and a 0x7f ≡ a % 128
bit_and-7f a = omega (arith, bit_and-ones 7 a)
