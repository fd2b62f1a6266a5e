-- ===== src/Mibtoken/Splitter/Tests.antt =====
-- Runs of the split functions, and their theorems at concrete texts.
use net_mapper.Prelude.{
  ◌≡◌, refl, true, false, [], ◌∷◌, Bytes, codes, some, none, ok, err, panicked,
}
use net_mapper.Mibtoken.Token.{Source}
use net_mapper.Mibtoken.Splitter.{
  unterminated_string, first_outside, split_ident, split_number, split_string, string_from,
  string_position, split_comment, split_dash, split_colon, split_punct, split_eol, splitter_of,
  apply_splitter, split,
}
use net_mapper.Mibtoken.Splitter.Cuts.{IsWellSplit}
use net_mapper.Mibtoken.Splitter.Progress.{split-IsWellSplit}

abbrev here : Source
here = record { filename = codes "IF-MIB"; line = 3; column = 5 }

abbrev here_plus_7 : Source
here_plus_7 = record { filename = codes "IF-MIB"; line = 3; column = 12 }

abbrev assigned : Bytes
assigned = codes "::= { x }"

identifier : split here (codes "ifIndex ::=") false ≡ (here_plus_7, ok (7, some (codes "ifIndex")))
unfolding split splitter_of apply_splitter split_ident first_outside
identifier = refl

-- The column stays where it is.
assignment : split here assigned false ≡ (here, ok (3, some (codes "::=")))
unfolding split splitter_of apply_splitter split_punct split_colon
assignment = refl

negative : (split here (codes "-12)") false).1 ≡ ok (3, some (codes "-12"))
unfolding split splitter_of apply_splitter split_punct split_dash split_number first_outside
negative = refl

comment : (split here (codes "-- x") false).1 ≡ ok (0, none)
unfolding split splitter_of apply_splitter split_punct split_dash split_comment first_outside
comment = refl

quoted :
    (split here (34 ∷ b'a' ∷ 92 ∷ 34 ∷ 34 ∷ b' ' ∷ []) false).1
    ≡ ok (5, some (34 ∷ b'a' ∷ 92 ∷ 34 ∷ 34 ∷ []))
unfolding split splitter_of apply_splitter split_string string_from string_position
quoted = refl

unterminated : (split here (34 ∷ b'a' ∷ []) true).1 ≡ err unterminated_string
unfolding split splitter_of apply_splitter split_string string_from string_position
unterminated = refl

-- A carriage return as the last byte that is held ends the program.
return_last : (split here (34 ∷ b'a' ∷ 13 ∷ []) false).1 ≡ panicked
unfolding split splitter_of apply_splitter split_string string_from string_position
return_last = refl

-- So does the byte 0x80 in front.
byte_80 : (split here (0x80 ∷ []) true).1 ≡ panicked
unfolding split
byte_80 = refl

-- The end of a line is one token or two, by how much of it is held.
line_end :
    ((split here (13 ∷ []) false).1 ≡ ok (1, some (13 ∷ [])))
    × ((split here (13 ∷ 10 ∷ []) false).1 ≡ ok (2, some (13 ∷ 10 ∷ [])))
unfolding split splitter_of apply_splitter split_eol
line_end = (refl, refl)

split-IsWellSplit_example : IsWellSplit assigned false (split here assigned false)
split-IsWellSplit_example = split-IsWellSplit here b':' (codes ":= { x }") false
