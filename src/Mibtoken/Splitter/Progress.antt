-- ===== src/Mibtoken/Splitter/Progress.antt =====
-- What `bufio.Scanner` relies on: a token is cut off the front of the text, and at the end of the input
-- there is a token or an error.
use net_mapper.Prelude.{
  ℕ, ◌≡◌, refl, arith, ap, Bool, true, ◌||◌, [], ◌∷◌, Option, none, some, inl, inr,
}
use net_mapper.Prelude.{Bytes, ltb, ◌==◌, if◌then◌else◌, Bool-cases, ==_iff, ok, err, panicked}
use net_mapper.Mibtoken.Token.{Source, is_digit, is_letter}
use net_mapper.Mibtoken.Splitter.{
  invalid_character, Split, is_blank, is_ident_byte, next_line, split_dash, split_colon,
  split_punct, split_eol, splitter_of, apply_splitter, restore, split, Splitter, space, eol, number,
  ident, string, punct, is_punct,
}
use net_mapper.Mibtoken.Splitter.Cuts.{
  IsWellSplit, token_cut, error_cut, panic_cut, split_space-IsWellSplit, split_ident-IsWellSplit,
  split_comment-IsWellSplit, split_number-IsWellSplit, split_string-IsWellSplit,
  one_byte-IsWellSplit, one_or_more, either,
}

split_dash-IsWellSplit :
    (p : Source) (bs : Bytes) (at_eof : Bool)
    → IsWellSplit (b'-' ∷ bs) at_eof (split_dash p (b'-' ∷ bs) at_eof)
unfolding split_dash
split_dash-IsWellSplit p [] at_eof = one_or_more p b'-' [] at_eof
split_dash-IsWellSplit p (c ∷ bs) at_eof =
    either _ at_eof _ _ _ (split_comment-IsWellSplit p b'-' (c ∷ bs) at_eof refl) (
      either _ at_eof _ _ _ (split_number-IsWellSplit p b'-' (c ∷ bs) at_eof)
        (one_byte-IsWellSplit p b'-' (c ∷ bs) at_eof))

split_colon-IsWellSplit :
    (p : Source) (b : ℕ) (bs : Bytes) (at_eof : Bool)
    → IsWellSplit (b ∷ bs) at_eof (split_colon p (b ∷ bs) at_eof)
unfolding split_colon
split_colon-IsWellSplit p b [] at_eof = one_or_more p b [] at_eof
split_colon-IsWellSplit p b (c ∷ []) at_eof = one_or_more p b (c ∷ []) at_eof
split_colon-IsWellSplit p b (c ∷ d ∷ bs) at_eof =
    either _ at_eof _ _ _
      (token_cut p (b ∷ c ∷ d ∷ bs) at_eof 3 3 (omega arith) (omega arith) (omega arith))
      (one_byte-IsWellSplit p b (c ∷ d ∷ bs) at_eof)

split_punct-IsWellSplit :
    (p : Source) (b : ℕ) (bs : Bytes) (at_eof : Bool)
    → IsWellSplit (b ∷ bs) at_eof (split_punct p (b ∷ bs) at_eof)
unfolding split_punct
split_punct-IsWellSplit p b bs at_eof = elim (Bool-cases (b == b'-')) [
  | inl e ↦ rw (e, split_punct, (==_iff b b'-').0 e) (split_dash-IsWellSplit p bs at_eof)
  | inr e ↦
      rw (e, split_punct)
        (either _ at_eof _ _ _ (split_colon-IsWellSplit p b bs at_eof)
          (one_byte-IsWellSplit p b bs at_eof))
]

split_eol-IsWellSplit :
    (p : Source) (b : ℕ) (bs : Bytes) (at_eof : Bool)
    → IsWellSplit (b ∷ bs) at_eof (split_eol p (b ∷ bs) at_eof)
unfolding split_eol
split_eol-IsWellSplit p b [] at_eof = one_byte-IsWellSplit (next_line p) b [] at_eof
split_eol-IsWellSplit p b (c ∷ bs) at_eof =
    either _ at_eof _ _ _
      (token_cut (next_line p) (b ∷ c ∷ bs) at_eof 2 2 (omega arith) (omega arith) (omega arith))
      (one_byte-IsWellSplit (next_line p) b (c ∷ bs) at_eof)

restore-IsWellSplit :
    (saved : Source) (text : Bytes) (at_eof : Bool) (s : Split)
    → IsWellSplit text at_eof s
    → IsWellSplit text at_eof (restore saved s)
unfolding IsWellSplit
restore-IsWellSplit saved text at_eof (p, ok (n, none)) h = h
restore-IsWellSplit saved text at_eof (p, ok (n, some t)) h = h
restore-IsWellSplit saved text at_eof (p, err e) h = tt
restore-IsWellSplit saved text at_eof (p, panicked) h = tt

module _ (c1 c2 c3 c4 c5 c6 : Bool) where
  abbrev table : Option Splitter
  table =
      if c1
      then some space
      else if c2
      then some eol
      else if c3
      then some number
      else if c4
      then some ident
      else if c5
      then some string
      else if c6
      then some punct
      else none

  table-space : table ≡ some space → c1 ≡ true
  table-space h = ground arith

  table-ident : table ≡ some ident → c4 ≡ true
  table-ident h = ground arith

-- The table of splitters gives `splitSpace` and `splitIdent` a first byte of their class.
splitter_of-space : (b : ℕ) → splitter_of b ≡ some space → is_blank b ≡ true
unfolding splitter_of
splitter_of-space b h =
    table-space (is_blank b) (b == 10 || b == 13) (is_digit b) (is_letter b) (b == 34 || b == 39)
      (is_punct b) h

splitter_of-ident : (b : ℕ) → splitter_of b ≡ some ident → is_ident_byte b ≡ true
unfolding splitter_of
splitter_of-ident b h =
    let letter =
      table-ident (is_blank b) (b == 10 || b == 13) (is_digit b) (is_letter b) (b == 34 || b == 39)
        (is_punct b) h in
    ap (λ c. c || is_digit b || b == b'_' || b == b'-' || b == b'.') letter

apply-IsWellSplit :
    (f : Splitter) (p : Source) (b : ℕ) (bs : Bytes) (at_eof : Bool)
    → splitter_of b ≡ some f
    → IsWellSplit (b ∷ bs) at_eof (apply_splitter f p (b ∷ bs) at_eof)
unfolding apply_splitter
apply-IsWellSplit space p b bs at_eof h =
    split_space-IsWellSplit p b bs at_eof (splitter_of-space b h)
apply-IsWellSplit eol p b bs at_eof h = split_eol-IsWellSplit p b bs at_eof
apply-IsWellSplit number p b bs at_eof h = split_number-IsWellSplit p b bs at_eof
apply-IsWellSplit ident p b bs at_eof h =
    split_ident-IsWellSplit p b bs at_eof (splitter_of-ident b h)
apply-IsWellSplit string p b bs at_eof h = split_string-IsWellSplit p b bs at_eof
apply-IsWellSplit punct p b bs at_eof h = split_punct-IsWellSplit p b bs at_eof

looked_up :
    (p : Source) (b : ℕ) (bs : Bytes) (at_eof : Bool) (o : Option Splitter)
    → splitter_of b ≡ o
    → IsWellSplit (b ∷ bs) at_eof (elim o [
      | none ↦ (p, err (invalid_character b))
      | some f ↦ restore p (apply_splitter f p (b ∷ bs) at_eof)
    ])
looked_up p b bs at_eof none e = error_cut p (b ∷ bs) at_eof (invalid_character b)
looked_up p b bs at_eof (some f) e =
    restore-IsWellSplit p (b ∷ bs) at_eof (apply_splitter f p (b ∷ bs) at_eof)
      (apply-IsWellSplit f p b bs at_eof e)

-- On any text that is not empty, a token that split returns is a non-empty prefix of the bytes
-- that it takes off, which are not more than there are; and it asks for more text, taking none
-- off, only while the end of the input is not reached.
pub split-IsWellSplit :
    (p : Source) (b : ℕ) (bs : Bytes) (at_eof : Bool)
    → IsWellSplit (b ∷ bs) at_eof (split p (b ∷ bs) at_eof)
unfolding split
split-IsWellSplit p b bs at_eof =
    let found = looked_up p b bs at_eof (splitter_of b) refl in
    either (b ∷ bs) at_eof (ltb 128 b) _ _ (error_cut p (b ∷ bs) at_eof (invalid_character b))
      (either (b ∷ bs) at_eof (b == 128) _ _ (panic_cut p (b ∷ bs) at_eof) found)
