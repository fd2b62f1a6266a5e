-- ===== src/Mibtoken/Tokens/Tests.antt =====
-- Runs of tokenlist.go, and its theorems at concrete lists.
use net_mapper.Prelude.{
  ◌≡◌, refl, true, false, List, [], ◌∷◌, ◌++◌, map, Bytes, codes, str_eq, ok, err, panicked,
}
use net_mapper.Mibtoken.Token
use net_mapper.Mibtoken.Token.{Source, Token, is_text, Error, type_of, eof_position, is_eof_source}
use net_mapper.Mibtoken.Tokens.{
  TokenList, pop, read_until, read_block, read_expected, source_of, slice, remove_brackets,
}
use net_mapper.Mibtoken.Tokens.Block.{
  IsBalanced, nothing, plain, nested, read_block-IsBalanced, read_block-panicked,
}
use net_mapper.Mibtoken.Tokens.Read.{read_until_cases, read_expected_cases}

abbrev place : Source
place = record { filename = codes "IF-MIB"; line = 3; column = 1 }

abbrev tok : Bytes → Token
tok s = record { value = s; position = place }

abbrev tokens : List Bytes → TokenList
tokens texts = record { origin = place; elements = map tok texts }

types :
    (type_of (tok (codes "ifIndex")) ≡ Token.ident)
    × (type_of (tok (codes "-- x")) ≡ Token.comment)
    × (type_of (tok (codes "-1")) ≡ Token.number)
    × (type_of (tok (codes "::=")) ≡ Token.symbol)
    × (type_of (record { value = []; position = eof_position [] }) ≡ Token.eof)
unfolding type_of
types = (refl, refl, refl, refl, refl)

pop_first :
    pop (tokens (codes "a" ∷ codes "b" ∷ [])) ≡ (tokens (codes "b" ∷ []), ok (tok (codes "a")))
unfolding pop
pop_first = refl

slice_middle :
    slice 1 2 (tokens (codes "a" ∷ codes "b" ∷ codes "c" ∷ [])) ≡ ok (tokens (codes "b" ∷ []))
unfolding slice
slice_middle = refl

remove_brackets_run :
    remove_brackets (codes "(") (codes ")") (tokens (codes "(" ∷ codes "b" ∷ codes ")" ∷ []))
    ≡ (tokens (codes "b" ∷ []), ok tt)
unfolding remove_brackets is_text str_eq
remove_brackets_run = refl

abbrev bracketed : List Token
bracketed = tok (codes "a") ∷ tok (codes "{") ∷ tok (codes "b") ∷ tok (codes "}") ∷ []

bracketed-IsBalanced : IsBalanced (codes "{") (codes "}") bracketed
unfolding is_text str_eq
bracketed-IsBalanced = plain (tok (codes "a")) _ refl refl (
    nested (tok (codes "{")) (tok (codes "}")) (tok (codes "b") ∷ []) [] refl refl refl refl
      (plain (tok (codes "b")) [] refl refl nothing) nothing)

text_same : is_text (tok (codes "{")) (codes "{") ≡ true
unfolding is_text str_eq
text_same = refl

text_closing : is_text (tok (codes "}")) (codes "}") ≡ true
unfolding is_text str_eq
text_closing = refl

text_other : is_text (tok (codes "{")) (codes "}") ≡ false
unfolding is_text str_eq
text_other = refl

text_other_way : is_text (tok (codes "}")) (codes "{") ≡ false
unfolding is_text str_eq
text_other_way = refl

read_block-IsBalanced_example :
    read_block (codes "{") (codes "}") (record {
      origin = place;
      elements = tok (codes "{") ∷ (bracketed ++ tok (codes "}") ∷ tok (codes "c") ∷ []);
    })
    ≡ (tokens (codes "c" ∷ []), ok (record { origin = place; elements = bracketed }))
read_block-IsBalanced_example =
    read_block-IsBalanced (codes "{") (codes "}") place (tok (codes "{")) (tok (codes "}"))
      bracketed (tok (codes "c") ∷ []) text_same text_other text_other_way text_closing
      bracketed-IsBalanced

same_text : (read_block (codes "{") (codes "{") (tokens (codes "{" ∷ codes "a" ∷ []))).1 ≡ panicked
same_text = read_block-panicked (codes "{") place (tok (codes "{")) (tok (codes "a") ∷ []) text_same

read_until_cases_run :
    (read_until (codes "}") (tokens (codes "{" ∷ codes "}" ∷ codes "c" ∷ [])) ≡ (
      tokens (codes "c" ∷ []),
      ok (record {
        origin = source_of (tokens (codes "{" ∷ codes "}" ∷ codes "c" ∷ []));
        elements = tok (codes "{") ∷ [];
      }),
    ))
    × (read_until (codes "}") (tokens (codes "{" ∷ []))
        ≡ (tokens [], err (Token.at_eof (eof_position (codes "IF-MIB")))))
read_until_cases_run =
    read_until_cases (codes "}") place (tok (codes "{") ∷ []) (tok (codes "}"))
      (tok (codes "c") ∷ []) (text_other, tt) text_closing

read_expected_cases_run :
    (read_expected (codes "a" ∷ []) (tokens (codes "a" ∷ codes "{" ∷ codes "c" ∷ []))
      ≡ (tokens (codes "{" ∷ codes "c" ∷ []), ok tt))
    × (read_expected (codes "a" ∷ codes "}" ∷ []) (tokens (codes "a" ∷ codes "{" ∷ codes "c" ∷ []))
        ≡ (tokens (codes "c" ∷ []), err (Token.expected (codes "}") (tok (codes "{")))))
read_expected_cases_run =
    read_expected_cases place (tok (codes "a") ∷ []) (codes "}") [] (tok (codes "{"))
      (tok (codes "c") ∷ []) text_other
