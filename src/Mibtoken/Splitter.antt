-- ===== src/Mibtoken/Splitter.antt =====
-- pkg/snmp/mibtoken/scanner.go: the split functions that cut one token off the text.
-- `bufio.Scanner` calls `split` with the text that it holds, and with `atEOF` set when there is no more.
-- A result is the position after the call, the number of bytes to advance by and the token; no token asks
-- for more text.
pub mod Cuts
pub mod Progress
mod Tests
use net_mapper.Prelude.{
  ℕ, zero, suc, ◌+◌, Bool, true, false, not, ◌&&◌, ◌||◌, [], ◌∷◌, Option, none, some,
}
use net_mapper.Prelude.{
  Bytes, ltb, leb, ◌==◌, if◌then◌else◌, length, take, Outcome, ok, err, panicked,
}
use net_mapper.Mibtoken.Token.{Source, is_digit, is_letter}

pub data Error : Type 0 where
  invalid_character : ℕ → Error
  unterminated_string : Error

abbrev pub Split : Type 0
Split = Source × Outcome Error (ℕ × Option Bytes)

abbrev pub add_column : ℕ → Source → Source
add_column n p = record p { column = p.column + n }

abbrev pub next_line : Source → Source
next_line p = record p { line = p.line + 1; column = 1 }

abbrev pub need_more : Source → Split
need_more p = (p, ok (0, none))

-- `for i, b := range data`, up to the first byte that is not of the class.
unfoldable pub first_outside : (ℕ → Bool) → Bytes → Option ℕ
first_outside class [] = none
first_outside class (b ∷ bs) =
    let rest = first_outside class bs in
    if class b then elim rest [ none ↦ none | some i ↦ some (suc i) ] else some 0

-- What follows the loop, if it came to the end of the data.
abbrev pub all_or_more : Source → Bytes → Bool → Split
all_or_more p text at_eof =
    if at_eof then (add_column (length text) p, ok (length text, some text)) else need_more p

abbrev pub is_blank : ℕ → Bool
is_blank b = b == b' ' || b == 9

abbrev pub is_ident_byte : ℕ → Bool
is_ident_byte b = is_letter b || is_digit b || b == b'_' || b == b'-' || b == b'.'

unfoldable pub split_space : Source → Bytes → Bool → Split
split_space p text at_eof = elim (first_outside is_blank text) [
  | some i ↦ (add_column i p, ok (i, some (take 1 text)))
  | none ↦ all_or_more p text at_eof
]

unfoldable pub split_ident : Source → Bytes → Bool → Split
split_ident p text at_eof = elim (first_outside is_ident_byte text) [
  | some i ↦ (add_column i p, ok (i, some (take i text)))
  | none ↦ all_or_more p text at_eof
]

-- The first byte is not looked at.
unfoldable pub split_number : Source → Bytes → Bool → Split
split_number p [] at_eof = all_or_more p [] at_eof
split_number p (b ∷ bs) at_eof = elim (first_outside is_digit bs) [
  | some i ↦ (add_column (suc i) p, ok (suc i, some (take (suc i) (b ∷ bs))))
  | none ↦ all_or_more p (b ∷ bs) at_eof
]

-- The position behind a byte of a string, which has `prev` before it and `bs` behind it.
unfoldable pub string_position : ℕ → ℕ → Bytes → Source → Source
string_position prev b bs p =
    if b == 10
    then (if not (prev == 13) then next_line p else p)
    else if b == 13
    then elim bs [ [] ↦ p | c ∷ _ ↦ if not (c == 10) then next_line p else p ]
    else add_column 1 p

abbrev is_empty : Bytes → Bool
is_empty [] = true
is_empty (b ∷ bs) = false

-- The loop of `splitString` at index `i`, behind the byte `prev`; `skip` is set for the byte behind a
-- backslash, over which the loop steps. A carriage return as the last byte is an index out of range.
unfoldable pub string_from : ℕ → Bytes → Bool → Bool → ℕ → ℕ → Source → Bytes → Split
string_from first text at_eof skip prev i p [] =
    if at_eof then (p, err unterminated_string) else need_more p
string_from first text at_eof true prev i p (b ∷ bs) =
    string_from first text at_eof false b (suc i) p bs
string_from first text at_eof false prev i p (b ∷ bs) =
    let rest = string_from first text at_eof (b == 92) b (suc i) (string_position prev b bs p) bs in
    if b == 13 && is_empty bs
    then (p, panicked)
    else if b == first && not (b == 10 || b == 13 || b == 92)
    then (add_column 1 p, ok (suc i, some (take (suc i) text)))
    else rest

unfoldable pub split_string : Source → Bytes → Bool → Split
split_string p [] at_eof = (p, panicked)
split_string p (first ∷ rest) at_eof = string_from first (first ∷ rest) at_eof false first 1 p rest

abbrev pub is_line_byte : ℕ → Bool
is_line_byte b = not (b == 10 || b == 13)

abbrev pub one_byte : Source → Bytes → Split
one_byte p text = (p, ok (1, some (take 1 text)))

-- A comment ends before the end of the line.
unfoldable pub split_comment : Source → Bytes → Bool → Split
split_comment p text at_eof = elim (first_outside is_line_byte text) [
  | some i ↦ (add_column i p, ok (i, some (take i text)))
  | none ↦ all_or_more p text at_eof
]

-- What starts with `-`.
unfoldable pub split_dash : Source → Bytes → Bool → Split
split_dash p (a ∷ b ∷ bs) at_eof =
    if b == b'-'
    then split_comment p (a ∷ b ∷ bs) at_eof
    else if is_digit b
    then split_number p (a ∷ b ∷ bs) at_eof
    else one_byte p (a ∷ b ∷ bs)
split_dash p text at_eof = if at_eof then one_byte p text else need_more p

-- What starts with `:`.
unfoldable pub split_colon : Source → Bytes → Bool → Split
split_colon p (a ∷ b ∷ c ∷ bs) at_eof =
    if b == b':' && c == b'='
    then (p, ok (3, some (a ∷ b ∷ c ∷ [])))
    else one_byte p (a ∷ b ∷ c ∷ bs)
split_colon p text at_eof = if at_eof then one_byte p text else need_more p

unfoldable pub split_punct : Source → Bytes → Bool → Split
split_punct p [] at_eof = (p, panicked)
split_punct p (a ∷ bs) at_eof =
    if a == b'-'
    then split_dash p (a ∷ bs) at_eof
    else if a == b':'
    then split_colon p (a ∷ bs) at_eof
    else one_byte p (a ∷ bs)

unfoldable pub split_eol : Source → Bytes → Bool → Split
split_eol p (a ∷ b ∷ bs) at_eof =
    if not (a == b) && (b == 10 || b == 13)
    then (next_line p, ok (2, some (a ∷ b ∷ [])))
    else one_byte (next_line p) (a ∷ b ∷ bs)
split_eol p text at_eof = one_byte (next_line p) text

pub data Splitter : Type 0 where
  space eol number ident string punct : Splitter

abbrev pub is_punct : ℕ → Bool
is_punct b =
    b == b'-'
    || b == b'{'
    || b == b'}'
    || b == b'['
    || b == b']'
    || b == b'('
    || b == b')'
    || b == b','
    || b == b':'
    || b == b';'
    || b == b'.'
    || b == b'|'

-- `splitterFuncIndex`, as `init` fills it.
unfoldable pub splitter_of : ℕ → Option Splitter
splitter_of b =
    if is_blank b
    then some space
    else if b == 10 || b == 13
    then some eol
    else if is_digit b
    then some number
    else if is_letter b
    then some ident
    else if b == 34 || b == 39
    then some string
    else if is_punct b
    then some punct
    else none

unfoldable pub apply_splitter : Splitter → Source → Bytes → Bool → Split
apply_splitter space = split_space
apply_splitter eol = split_eol
apply_splitter number = split_number
apply_splitter ident = split_ident
apply_splitter string = split_string
apply_splitter punct = split_punct

-- `if advance == 0 { s.nextPosition = savedPos }`; an error comes with the advance 0.
abbrev pub restore : Source → Split → Split
restore saved (p, ok (n, t)) = (if n == 0 then saved else p, ok (n, t))
restore saved (p, err e) = (saved, err e)
restore saved (p, panicked) = (p, panicked)

-- The table has 128 entries, and the test before it lets the byte 128 through.
unfoldable pub split : Source → Bytes → Bool → Split
split p [] at_eof = need_more p
split p (b ∷ bs) at_eof =
    if ltb 128 b
    then (p, err (invalid_character b))
    else if b == 128
    then (p, panicked)
    else elim (splitter_of b) [
      | none ↦ (p, err (invalid_character b))
      | some f ↦ restore p (apply_splitter f p (b ∷ bs) at_eof)
    ]
