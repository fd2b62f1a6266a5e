-- ===== src/Mibtoken/Token.antt =====
-- pkg/snmp/mibtoken/token.go and source.go: one token and where it stands.
-- `Line` and `Column` start at 1 or 0 and are only added to, so they are not negative.
use net_mapper.Prelude.{ℕ, Bool, ◌&&◌, ◌||◌, [], ◌∷◌, Bytes, leb, ◌==◌, str_eq, if◌then◌else◌}

pub record Source : Type 0 where
  pub filename : Bytes
  pub line : ℕ
  pub column : ℕ

unfoldable pub is_eof_source : Source → Bool
is_eof_source p = p.line == 0 && p.column == 0

abbrev pub eof_position : Bytes → Source
eof_position name = record { filename = name; line = 0; column = 0 }

pub data TokenType : Type 0 where
  unknown whitespace comment ident number quoted symbol eof : TokenType

pub record Token : Type 0 where
  pub value : Bytes
  pub position : Source

-- `t.IsText(s)`
unfoldable pub is_text : Token → Bytes → Bool
is_text t s = str_eq t.value s

abbrev pub is_digit : ℕ → Bool
is_digit c = leb b'0' c && leb c b'9'

abbrev pub is_letter : ℕ → Bool
is_letter c = leb b'a' c && leb c b'z' || leb b'A' c && leb c b'Z'

-- What a text that starts with `-` is, by what is behind it.
type_of_dash : Bytes → TokenType
type_of_dash [] = symbol
type_of_dash (c ∷ _) = if c == b'-' then comment else number

unfoldable pub type_of_text : Bytes → TokenType
unfolding type_of_dash
type_of_text [] = unknown
type_of_text (c ∷ rest) =
    if c == b' ' || c == 9 || c == 10 || c == 13
    then whitespace
    else if c == b'-'
    then type_of_dash rest
    else if c == 34 || c == 39
    then quoted
    else if c == b'_'
    then ident
    else if is_digit c
    then number
    else if is_letter c
    then ident
    else symbol

unfoldable pub type_of : Token → TokenType
unfolding type_of_text is_eof_source
type_of t = if is_eof_source t.position then eof else type_of_text t.value

-- The errors of the package, by the text that was expected and the token that was there.
pub data Error : Type 0 where
  at_eof : Source → Error
  plain_eof : Error
  expected : Bytes → Token → Error
  start_out_of_bounds end_out_of_bounds start_above_end : Source → ℕ → Error
