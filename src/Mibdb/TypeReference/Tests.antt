-- ===== src/Mibdb/TypeReference/Tests.antt =====
-- Types, enumerations, columns and object identifiers of a MIB.
use net_mapper.Prelude.{
  ◌≡◌, refl, inl, true, false, List, [], ◌∷◌, some, Bytes, codes, str_eq, All, ok,
}
use net_mapper.Mibtoken.Token.{Token, Source, type_of, type_of_text, is_text, is_eof_source}
use net_mapper.Mibtoken.Tokens.{TokenList}
use net_mapper.Mibtoken.Tokens.Block.{nothing, plain}
use net_mapper.Go.Decimal.{parse_int, signed_digits, digits_value}
use net_mapper.Mibdb.TypeReference.{TypeReference, closer_of, read_definition, read_oid}
use net_mapper.Mibdb.TypeReference.Compile.{compile_enums, compile_columns, columns_from}
use net_mapper.Mibdb.TypeReference.Reads.{
  Block, IsBlock, worded, Named, sequence_of, IsNamed, constrained, read_definition-write,
}
use net_mapper.Mibdb.TypeReference.Enums.{Entry, IsEntry, compile_enums-write_entries}
use net_mapper.Mibdb.TypeReference.Elements.{IsItem, word, counted, read_oid-write_items}

abbrev place : Source
place = record { filename = []; line = 1; column = 1 }

abbrev tok : Bytes → Token
tok text = record { value = text; position = place }

abbrev tokens : List Token → TokenList
tokens ts = record { origin = place; elements = ts }

abbrev up : Entry
up = record {
  name = tok (codes "up");
  opening = tok (codes "(");
  numeral = tok (codes "1");
  closing = tok (codes ")");
  number = 1;
}

abbrev down : Entry
down = record {
  name = tok (codes "down");
  opening = tok (codes "(");
  numeral = tok (codes "2");
  closing = tok (codes ")");
  number = 2;
}

-- INTEGER { up(1), down(2) }
abbrev status : TypeReference
status = record {
  ident = tok (codes "INTEGER");
  sequence_of = false;
  constraint = some (
      tokens (
        tok (codes "up")
        ∷ tok (codes "(")
        ∷ tok (codes "1")
        ∷ tok (codes ")")
        ∷ tok (codes ",")
        ∷ tok (codes "down")
        ∷ tok (codes "(")
        ∷ tok (codes "2")
        ∷ tok (codes ")")
        ∷ []));
}

entries-IsEntry : All IsEntry (up ∷ down ∷ [])
unfolding type_of type_of_text is_eof_source parse_int signed_digits digits_value
entries-IsEntry = (
  record { has_ident = refl; opens = refl; has_digits = refl; has_number = refl; closes = refl },
  (
    record { has_ident = refl; opens = refl; has_digits = refl; has_number = refl; closes = refl },
    tt,
  ),
)

compile_enums-write_entries_example :
    compile_enums status ≡ some ((2, codes "down") ∷ (1, codes "up") ∷ [])
compile_enums-write_entries_example =
    compile_enums-write_entries status place (tok (codes ",")) (up ∷ down ∷ []) refl refl
      entries-IsEntry

abbrev tag : Block
tag = record { opening = tok (codes "["); inner = tok (codes "3") ∷ []; closing = tok (codes "]") }

abbrev sizes : Block
sizes = record {
  opening = tok (codes "(");
  inner = tok (codes "5") ∷ [];
  closing = tok (codes ")");
}

tag-IsBlock : IsBlock (codes "[") (codes "]") tag
unfolding is_text str_eq
tag-IsBlock = record {
  opens = refl;
  closes = refl;
  balanced = plain (tok (codes "3")) [] refl refl nothing;
}

sizes-IsBlock : IsBlock (codes "(") (codes ")") sizes
unfolding is_text str_eq
sizes-IsBlock = record {
  opens = refl;
  closes = refl;
  balanced = plain (tok (codes "5")) [] refl refl nothing;
}

abbrev entries : Named
entries = sequence_of (tok (codes "SEQUENCE OF")) (tok (codes "Entry"))

entries-IsNamed : IsNamed entries
unfolding is_text str_eq type_of type_of_text is_eof_source
entries-IsNamed = record { identifier = refl; no_bracket = refl; no_word = refl; has_of = refl }

sizes-IsConstraint :
    (closer_of sizes.opening ≡ some (codes "(", codes ")"))
    × (str_eq (codes "(") (codes ")") ≡ false)
    × (str_eq (codes ")") (codes "(") ≡ false)
    × IsBlock (codes "(") (codes ")") sizes
unfolding is_text str_eq
sizes-IsConstraint = (refl, refl, refl, sizes-IsBlock)

-- [3] IMPLICIT SEQUENCE OF Entry (5)
read_definition-write_example :
    read_definition (
      tokens (
        tok (codes "[")
        ∷ tok (codes "3")
        ∷ tok (codes "]")
        ∷ tok (codes "IMPLICIT")
        ∷ tok (codes "SEQUENCE OF")
        ∷ tok (codes "Entry")
        ∷ tok (codes "(")
        ∷ tok (codes "5")
        ∷ tok (codes ")")
        ∷ []))
    ≡ (
      tokens [],
      ok (record {
        ident = tok (codes "Entry");
        sequence_of = true;
        constraint = some (tokens (tok (codes "5") ∷ []));
      }),
    )
read_definition-write_example =
    read_definition-write place (worded tag (tok (codes "IMPLICIT"))) entries
      (constrained (codes "(") (codes ")") sizes) [] (tag-IsBlock, inl refl) entries-IsNamed
      sizes-IsConstraint

org-IsBlock : IsBlock (codes "{") (codes "}") (record {
  opening = tok (codes "{");
  inner =
      tok (codes "iso")
      ∷ tok (codes "org")
      ∷ tok (codes "(")
      ∷ tok (codes "3")
      ∷ tok (codes ")")
      ∷ [];
  closing = tok (codes "}");
})
unfolding is_text str_eq
org-IsBlock = record {
  opens = refl;
  closes = refl;
  balanced = plain (tok (codes "iso")) _ refl refl (
      plain (tok (codes "org")) _ refl refl (
        plain (tok (codes "(")) _ refl refl
          (plain (tok (codes "3")) _ refl refl (plain (tok (codes ")")) _ refl refl nothing))));
}

org-items : All IsItem (
    word (tok (codes "iso"))
    ∷ counted (tok (codes "org")) (tok (codes "(")) (tok (codes "3")) (tok (codes ")"))
    ∷ [])
unfolding is_text str_eq
org-items = (
  refl,
  (
    (
      refl,
      record {
        opens = refl;
        closes = refl;
        balanced = plain (tok (codes "3")) [] refl refl nothing;
      },
    ),
    tt,
  ),
)

-- { iso org(3) }
read_oid-write_items_example :
    read_oid (
      tokens (
        tok (codes "{")
        ∷ tok (codes "iso")
        ∷ tok (codes "org")
        ∷ tok (codes "(")
        ∷ tok (codes "3")
        ∷ tok (codes ")")
        ∷ tok (codes "}")
        ∷ []))
    ≡ (tokens [], ok (codes "iso" ∷ codes "3" ∷ []))
read_oid-write_items_example =
    read_oid-write_items place (tok (codes "{")) (tok (codes "}"))
      (word (tok (codes "iso"))
        ∷ counted (tok (codes "org")) (tok (codes "(")) (tok (codes "3")) (tok (codes ")"))
        ∷ [])
      [] org-IsBlock org-items

-- SEQUENCE { descr OCTET STRING (SIZE), status INTEGER }, with the text in parentheses as a token: its comma
-- and the name behind it are taken wrongly.
columns_misread :
    compile_columns (record {
      ident = tok (codes "SEQUENCE");
      sequence_of = false;
      constraint = some (
          tokens (
            tok (codes "descr")
            ∷ tok (codes "OCTET STRING")
            ∷ tok (codes "(")
            ∷ tok (codes "5")
            ∷ tok (codes ")")
            ∷ tok (codes ",")
            ∷ tok (codes "status")
            ∷ tok (codes "INTEGER")
            ∷ []));
    })
    ≡ some (codes "descr" ∷ codes "5" ∷ codes "status" ∷ [])
unfolding compile_columns columns_from
columns_misread = refl
