-- ===== src/Mibtoken/Scanner/Tests.antt =====
-- Runs of the queue and of `Unquote`.
use net_mapper.Prelude.{
  ◌≡◌, refl, inl, Bool, true, false, [], ◌∷◌, ◌++◌, none, Bytes, codes, str_eq, ok,
}
use net_mapper.Mibtoken.Token
use net_mapper.Mibtoken.Token.{Token, TokenType, Source, type_of, type_of_text, is_eof_source}
use net_mapper.Mibtoken.Tokens.{look_ahead, pop}
use net_mapper.Mibtoken.Scanner.{
  Scanner, scan_ahead, scan, offer, merge_last, has_text, unquote, unquote_text, unquote_from,
  escaped, blank_run,
}
use net_mapper.Mibtoken.Scanner.Queue.{view, scan-pop}
use net_mapper.Mibtoken.Scanner.Unquote.{escape, unquote-escape}

abbrev place : Source
place = record { filename = []; line = 1; column = 1 }

abbrev tok : Bytes → Token
tok text = record { value = text; position = place }

abbrev skips : TokenType → Bool
skips Token.whitespace = true
skips _ = false

-- `x OBJECT IDENTIFIER`, with the white space between the words.
abbrev words : Scanner
words = record {
  queue = record { origin = place; elements = [] };
  raw =
      tok (codes "x")
      ∷ tok (codes " ")
      ∷ tok (codes "OBJECT")
      ∷ tok (codes " ")
      ∷ tok (codes "IDENTIFIER")
      ∷ [];
  skip = skips;
  stopped = none;
}

words-view : (view words).elements ≡ tok (codes "x") ∷ tok (codes "OBJECT IDENTIFIER") ∷ []
unfolding offer merge_last has_text type_of type_of_text is_eof_source str_eq
words-view = refl

scan-pop_example :
    ((scan_ahead 1 words).1 ≡ look_ahead 1 (view words))
    × (view (scan_ahead 1 words).0 ≡ view words)
    × ((scan words).1 ≡ (pop (view words)).1)
    × (view (scan words).0 ≡ (pop (view words)).0)
scan-pop_example = scan-pop 1 words refl

is_placed : is_eof_source place ≡ false
unfolding is_eof_source
is_placed = refl

unquote-escape_example :
    unquote (tok (34 ∷ (escape (b'a' ∷ 34 ∷ 10 ∷ []) ++ 34 ∷ []))) ≡ ok (b'a' ∷ 34 ∷ 10 ∷ [])
unquote-escape_example = unquote-escape 34 (b'a' ∷ 34 ∷ 10 ∷ []) place (inl refl) is_placed

-- Behind two line breaks, as many bytes are passed over: the escape stays as it is.
escape_skipped :
    unquote (tok (34 ∷ 10 ∷ 10 ∷ 10 ∷ 92 ∷ b'n' ∷ b'b' ∷ 34 ∷ [])) ≡ ok (32 ∷ 92 ∷ b'n' ∷ b'b' ∷ [])
unfolding unquote unquote_text unquote_from escaped blank_run type_of type_of_text is_eof_source
escape_skipped = refl
