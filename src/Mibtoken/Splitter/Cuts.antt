-- ===== src/Mibtoken/Splitter/Cuts.antt =====
-- Cutting a token off the front of a text, and the split functions that go over one class of bytes.
use net_mapper.Prelude.{
  ℕ, suc, ◌+◌, ◌≤◌, ◌<◌, ◌≡◌, refl, arith, ap, Bool, true, false, [], ◌∷◌, none, some, inl, inr,
}
use net_mapper.Prelude.{Bytes, ◌==◌, if◌then◌else◌, length, take, Option-cases, ok, err, panicked}
use net_mapper.Mibtoken.Token.{Source, is_digit}
use net_mapper.Mibtoken.Splitter.{
  Error, Split, first_outside, is_blank, is_ident_byte, is_line_byte, all_or_more, add_column,
  need_more, one_byte, split_space, split_ident, split_number, string_from, string_position,
  split_string, split_comment,
}

-- A token is a non-empty prefix of the bytes that are taken off. No token is no bytes, and only while
-- more text may come.
unfoldable pub IsWellSplit : Bytes → Bool → Split → Type 0
IsWellSplit text at_eof (p, ok (n, some t)) =
    (0 < n) × (n ≤ length text) × ((k : ℕ) × (0 < k) × (k ≤ n) × (t ≡ take k text))
IsWellSplit text at_eof (p, ok (n, none)) = (n ≡ 0) × (at_eof ≡ false)
IsWellSplit text at_eof (p, err e) = Unit
IsWellSplit text at_eof (p, panicked) = Unit

first_outside-lt :
    (class : ℕ → Bool) (text : Bytes) (i : ℕ) → first_outside class text ≡ some i → i < length text
unfolding first_outside
first_outside-lt class [] i h = absurd (cc)
first_outside-lt class (b ∷ bs) i h = elim (Option-cases (first_outside class bs)) [
  | inl e ↦ ground arith
  | inr (j, e) ↦ let ih = first_outside-lt class bs j e in ground (arith, ih)
]

first_outside-pos :
    (class : ℕ → Bool) (b : ℕ) (bs : Bytes) (i : ℕ)
    → class b ≡ true
    → first_outside class (b ∷ bs) ≡ some i
    → 0 < i
unfolding first_outside
first_outside-pos class b bs i inside h = elim (Option-cases (first_outside class bs)) [
  | inl e ↦ ground arith
  | inr (j, e) ↦ ground arith
]

take_all : (text : Bytes) → text ≡ take (length text) text
take_all [] = refl
take_all (b ∷ bs) = ap (◌∷◌ b) (take_all bs)

pub token_cut :
    (p : Source) (text : Bytes) (at_eof : Bool) (n k : ℕ)
    → n ≤ length text
    → 0 < k
    → k ≤ n
    → IsWellSplit text at_eof (p, ok (n, some (take k text)))
unfolding IsWellSplit
token_cut p text at_eof n k inside above within = (omega arith, inside, (k, above, within, refl))

pub error_cut :
    (p : Source) (text : Bytes) (at_eof : Bool) (e : Error) → IsWellSplit text at_eof (p, err e)
unfolding IsWellSplit
error_cut p text at_eof e = tt

pub panic_cut : (p : Source) (text : Bytes) (at_eof : Bool) → IsWellSplit text at_eof (p, panicked)
unfolding IsWellSplit
panic_cut p text at_eof = tt

more_cut : (p : Source) (text : Bytes) → IsWellSplit text false (need_more p)
unfolding IsWellSplit
more_cut p text = (refl, refl)

all_or_more-IsWellSplit :
    (p : Source) (b : ℕ) (bs : Bytes) (at_eof : Bool)
    → IsWellSplit (b ∷ bs) at_eof (all_or_more p (b ∷ bs) at_eof)
all_or_more-IsWellSplit p b bs true =
    rw
      (ap
        (λ t.
          IsWellSplit (b ∷ bs) true (add_column (length (b ∷ bs)) p, ok (length (b ∷ bs), some t)))
        (take_all (b ∷ bs)))
      (token_cut _ (b ∷ bs) true (length (b ∷ bs)) (length (b ∷ bs)) (omega arith) (omega arith)
        (omega arith))
all_or_more-IsWellSplit p b bs false = more_cut p (b ∷ bs)

pub split_space-IsWellSplit :
    (p : Source) (b : ℕ) (bs : Bytes) (at_eof : Bool)
    → is_blank b ≡ true
    → IsWellSplit (b ∷ bs) at_eof (split_space p (b ∷ bs) at_eof)
unfolding split_space
split_space-IsWellSplit p b bs at_eof inside =
    elim (Option-cases (first_outside is_blank (b ∷ bs))) [
      | inl e ↦ rw (e, split_space) (all_or_more-IsWellSplit p b bs at_eof)
      | inr (i, e) ↦
          let below = first_outside-lt is_blank (b ∷ bs) i e in
          let above = first_outside-pos is_blank b bs i inside e in
          rw (e, split_space)
            (token_cut _ (b ∷ bs) at_eof i 1 (omega (arith, below)) (omega arith)
              (omega (arith, above)))
    ]

-- A loop whose token is all that it went over.
run_IsWellSplit :
    (p : Source) (b : ℕ) (bs : Bytes) (at_eof : Bool) (i : ℕ)
    → 0 < i
    → i < length (b ∷ bs)
    → IsWellSplit (b ∷ bs) at_eof (add_column i p, ok (i, some (take i (b ∷ bs))))
run_IsWellSplit p b bs at_eof i above below =
    token_cut _ (b ∷ bs) at_eof i i (omega (arith, below)) above (omega arith)

pub split_ident-IsWellSplit :
    (p : Source) (b : ℕ) (bs : Bytes) (at_eof : Bool)
    → is_ident_byte b ≡ true
    → IsWellSplit (b ∷ bs) at_eof (split_ident p (b ∷ bs) at_eof)
unfolding split_ident
split_ident-IsWellSplit p b bs at_eof inside =
    elim (Option-cases (first_outside is_ident_byte (b ∷ bs))) [
      | inl e ↦ rw (e, split_ident) (all_or_more-IsWellSplit p b bs at_eof)
      | inr (i, e) ↦
          rw (e, split_ident)
            (run_IsWellSplit p b bs at_eof i (first_outside-pos is_ident_byte b bs i inside e)
              (first_outside-lt is_ident_byte (b ∷ bs) i e))
    ]

pub split_comment-IsWellSplit :
    (p : Source) (b : ℕ) (bs : Bytes) (at_eof : Bool)
    → is_line_byte b ≡ true
    → IsWellSplit (b ∷ bs) at_eof (split_comment p (b ∷ bs) at_eof)
unfolding split_comment
split_comment-IsWellSplit p b bs at_eof inside =
    elim (Option-cases (first_outside is_line_byte (b ∷ bs))) [
      | inl e ↦ rw (e, split_comment) (all_or_more-IsWellSplit p b bs at_eof)
      | inr (i, e) ↦
          rw (e, split_comment)
            (run_IsWellSplit p b bs at_eof i (first_outside-pos is_line_byte b bs i inside e)
              (first_outside-lt is_line_byte (b ∷ bs) i e))
    ]

pub split_number-IsWellSplit :
    (p : Source) (b : ℕ) (bs : Bytes) (at_eof : Bool)
    → IsWellSplit (b ∷ bs) at_eof (split_number p (b ∷ bs) at_eof)
unfolding split_number
split_number-IsWellSplit p b bs at_eof = elim (Option-cases (first_outside is_digit bs)) [
  | inl e ↦ rw (e, split_number) (all_or_more-IsWellSplit p b bs at_eof)
  | inr (i, e) ↦
      rw (e, split_number)
        (run_IsWellSplit p b bs at_eof (suc i) (omega arith)
          (omega (arith, first_outside-lt is_digit bs i e)))
]

-- Both branches of a test.
pub either :
    (text : Bytes) (at_eof c : Bool) (x y : Split)
    → IsWellSplit text at_eof x
    → IsWellSplit text at_eof y
    → IsWellSplit text at_eof (if c then x else y)
either text at_eof true x y hx hy = hx
either text at_eof false x y hx hy = hy

string_from-IsWellSplit :
    (first : ℕ) (text : Bytes) (at_eof skip : Bool) (prev i : ℕ) (p : Source) (bs : Bytes)
    → length text ≡ i + length bs
    → IsWellSplit text at_eof (string_from first text at_eof skip prev i p bs)
unfolding string_from
string_from-IsWellSplit first text true skip prev i p [] size = error_cut p text true _
string_from-IsWellSplit first text false skip prev i p [] size = more_cut p text
string_from-IsWellSplit first text at_eof true prev i p (b ∷ bs) size =
    string_from-IsWellSplit first text at_eof false b (suc i) p bs (omega (arith, size))
string_from-IsWellSplit first text at_eof false prev i p (b ∷ bs) size =
    let rest =
      string_from-IsWellSplit first text at_eof (b == 92) b (suc i) (string_position prev b bs p) bs
        (omega (arith, size)) in
    let closed =
      token_cut (add_column 1 p) text at_eof (suc i) (suc i) (omega (arith, size)) (omega arith)
        (omega arith) in
    either text at_eof _ _ _ (panic_cut p text at_eof) (either text at_eof _ _ _ closed rest)

pub split_string-IsWellSplit :
    (p : Source) (b : ℕ) (bs : Bytes) (at_eof : Bool)
    → IsWellSplit (b ∷ bs) at_eof (split_string p (b ∷ bs) at_eof)
unfolding split_string
split_string-IsWellSplit p b bs at_eof =
    string_from-IsWellSplit b (b ∷ bs) at_eof false b 1 p bs (omega arith)

pub one_byte-IsWellSplit :
    (p : Source) (b : ℕ) (bs : Bytes) (at_eof : Bool)
    → IsWellSplit (b ∷ bs) at_eof (one_byte p (b ∷ bs))
one_byte-IsWellSplit p b bs at_eof =
    token_cut p (b ∷ bs) at_eof 1 1 (omega arith) (omega arith) (omega arith)

pub one_or_more :
    (p : Source) (b : ℕ) (bs : Bytes) (at_eof : Bool)
    → IsWellSplit (b ∷ bs) at_eof (if at_eof then one_byte p (b ∷ bs) else need_more p)
one_or_more p b bs true = one_byte-IsWellSplit p b bs true
one_or_more p b bs false = more_cut p (b ∷ bs)
