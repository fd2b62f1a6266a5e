-- ===== src/Binary/Value/Length.antt =====
-- The length field of the long form, in plain arithmetic.
use Prim.Native.Nat.add
use native.Mathlib.Nat.{pow-suc, pow-le-pow_right, mod-eq_of_lt}
use native.Mathlib.Numerals.{towards_suc}
use net_mapper.Prelude.{
  ℕ, zero, suc, ◌+◌, ◌-◌, ◌*◌, ◌/◌, ◌%◌, ◌^◌, ◌≤◌, ◌<◌, ◌≡◌, refl, ap, ◌∙◌, arith,
}
use net_mapper.Prelude.{[], ◌∷◌, some, Bytes, length, get_elem?, drop, All, ok, bit_or}
use net_mapper.Prelude.Bits.{bit_or_disjoint}
use net_mapper.Binary.Value.{read_length}

-- The bytes of `r`, last one first, in front of `t`.
abbrev pub rev_onto : Bytes → Bytes → Bytes
rev_onto [] t = t
rev_onto (b ∷ r) t = rev_onto r (b ∷ t)

abbrev pub IsByte : ℕ → Type 0
IsByte b = b < 256

-- The number that bytes stand for, the least significant first.
abbrev pub le_value : Bytes → ℕ
le_value [] = 0
le_value (b ∷ r) = b + 256 * le_value r

-- `k` bytes of `n`, from byte `i` on, the least significant first.
abbrev pub le_digits : ℕ → ℕ → ℕ → Bytes
le_digits n i zero = []
le_digits n i (suc k) = n / 2 ^ (i * 8) % 256 ∷ le_digits n (suc i) k

pub length-rev_onto : (r t : Bytes) → length (rev_onto r t) ≡ length r + length t
length-rev_onto [] t = omega arith
length-rev_onto (b ∷ r) t = omega (arith, length-rev_onto r (b ∷ t))

get_elem?-rev_onto_add :
    (r t : Bytes) (k : ℕ) → get_elem? (rev_onto r t) (length r + k) ≡ get_elem? t k
get_elem?-rev_onto_add [] t k = rw add.zero
get_elem?-rev_onto_add (b ∷ r) t k =
    let e : suc (length r) + k ≡ length r + suc k = omega arith in
    rw e (get_elem?-rev_onto_add r (b ∷ t) (suc k))

pub drop-rev_onto : (r t : Bytes) (k : ℕ) → drop (length r + k) (rev_onto r t) ≡ drop k t
drop-rev_onto [] t k = rw add.zero
drop-rev_onto (b ∷ r) t k =
    let e : suc (length r) + k ≡ length r + suc k = omega arith in
    rw e (drop-rev_onto r (b ∷ t) (suc k))

-- The first `k` bytes, reversed, and what is behind them.
pub rev_onto-cases :
    (k : ℕ) (done xs : Bytes)
    → k ≤ length xs
    → All IsByte done
    → All IsByte xs
    → (r : Bytes) × (t : Bytes) × (rev_onto done xs ≡ rev_onto r t)
      × (length r ≡ length done + k)
      × All IsByte r
rev_onto-cases zero done xs le hd hx = (done, xs, refl, omega arith, hd)
rev_onto-cases (suc k) done [] le hd hx = absurd (omega arith)
rev_onto-cases (suc k) done (x ∷ xs) le hd (px, hx) =
    let (r, t, same, size, hr) = rev_onto-cases k (x ∷ done) xs (omega arith) (px, hd) hx in
    (r, t, same, omega arith, hr)

pub le_value-lt : (r : Bytes) → All IsByte r → le_value r < 256 ^ length r
le_value-lt [] h = omega arith
le_value-lt (b ∷ r) (hb, h) = omega (arith, le_value-lt r h, pow-suc 256 (length r))

shift_eight : (s : ℕ) → 2 ^ (s + 8) ≡ 256 * 2 ^ s
shift_eight s = simp towards_suc (omega arith)

pub pow_next : (i : ℕ) → 2 ^ (suc i * 8) ≡ 256 * 2 ^ (i * 8)
pow_next i = let e : suc i * 8 ≡ i * 8 + 8 = omega arith in rw e (shift_eight (i * 8))

-- One round of the loop reads the byte at `top - i`.
read_length-suc :
    (rounds i top acc : ℕ) (bytes : Bytes) (b : ℕ)
    → get_elem? bytes (top - i) ≡ some b
    → read_length (suc rounds) i top bytes acc
      ≡ read_length rounds (suc i) top bytes (bit_or acc (b * 2 ^ (i * 8) % 2 ^ 64))
unfolding read_length
read_length-suc rounds i top acc bytes b h = rw (h, read_length)

mul_mono : (a b c : ℕ) → a ≤ b → a * c ≤ b * c
mul_mono a b c h = grind arith

-- The bits of byte `i` are still free, so `|` adds them.
merge_byte :
    (i acc b : ℕ)
    → i < 8
    → b < 256
    → acc < 2 ^ (i * 8)
    → (bit_or acc (b * 2 ^ (i * 8) % 2 ^ 64) ≡ acc + b * 2 ^ (i * 8))
      × (acc + b * 2 ^ (i * 8) < 2 ^ (suc i * 8))
merge_byte i acc b hi hb fits =
    let small = pow-le-pow_right {n = 2} (omega arith) {i = i * 8} {j = 56} (omega arith) in
    let product = mul_mono b 255 (2 ^ (i * 8)) (omega arith) in
    let in_range : b * 2 ^ (i * 8) < 2 ^ 64 = omega arith in
    (rw (mod-eq_of_lt in_range) (bit_or_disjoint (i * 8) acc b fits), omega (arith, pow_next i))

pub read_length-le_value :
    (r t : Bytes) (h l i acc : ℕ)
    → i + length r ≤ 8
    → All IsByte r
    → acc < 2 ^ (i * 8)
    → read_length (length r) i (1 + i + length r) (h ∷ l ∷ rev_onto r t) acc
      ≡ ok (acc + le_value r * 2 ^ (i * 8))
read_length-le_value [] t h l i acc room bytes fits = unfold read_length in ap ok (omega arith)
read_length-le_value (b ∷ r) t h l i acc room (hb, bytes) fits =
    let (merged, fits') = merge_byte i acc b (omega arith) hb fits in
    let e : 1 + i + suc (length r) ≡ 1 + suc i + length r = omega arith in
    let e' : 1 + suc i + length r - i ≡ suc (suc (length r + 0)) = omega arith in
    read_length-suc (length r) i _ acc (h ∷ l ∷ rev_onto r (b ∷ t)) b
      (rw (e, e') (get_elem?-rev_onto_add r (b ∷ t) 0))
    ∙ rw (merged, e)
        (read_length-le_value r (b ∷ t) h l (suc i) (acc + b * 2 ^ (i * 8)) (omega arith) bytes
            fits'
          ∙ ap ok (omega (arith, ap (λ (t : ℕ). le_value r * t) (pow_next i))))
