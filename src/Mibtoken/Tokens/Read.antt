-- ===== src/Mibtoken/Tokens/Read.antt =====
-- What the other reading operations take off the front of a list.
use net_mapper.Prelude.{
  ◌≡◌, refl, arith, true, false, List, [], ◌∷◌, ◌++◌, map, append_assoc, append-nil, All,
}
use net_mapper.Prelude.{Bytes, str_eq_refl, ok, err}
use net_mapper.Mibtoken.Token
use net_mapper.Mibtoken.Token.{Token, is_text, Error, eof_position}
use net_mapper.Mibtoken.Tokens.{
  TokenList, append_tokens, pop, look_ahead, remove_index, popped, read_until, read_until_from,
  read_expected, read_expected_from, source_of,
}

pub pop-cons :
    (origin : Token.Source) (t : Token) (ts : List Token)
    → pop (record { origin = origin; elements = t ∷ ts })
      ≡ (record { origin = origin; elements = ts }, ok t)
unfolding pop look_ahead remove_index popped
pop-cons origin t ts = ground arith

module _ (end file : Bytes) where
  until_from :
      (pre : List Token) (block : TokenList) (ts : List Token)
      → All (λ t. is_text t end ≡ false) pre
      → read_until_from end file block (pre ++ ts)
        ≡ read_until_from end file (append_tokens block pre) ts
  unfolding read_until_from
  until_from [] block ts h = rw (append-nil block.elements)
  until_from (t ∷ pre) block ts (other, h) = rw (
    other,
    read_until_from,
    until_from pre (append_tokens block (t ∷ [])) ts h,
    append_assoc block.elements (t ∷ []) pre,
  )

  until_stops :
      (block : TokenList) (e : Token) (ts : List Token)
      → is_text e end ≡ true
      → read_until_from end file block (e ∷ ts) ≡ (ts, ok block)
  unfolding read_until_from
  until_stops block e ts same = rw (same, read_until_from)

  until_eof :
      (pre : List Token) (block : TokenList)
      → All (λ t. is_text t end ≡ false) pre
      → read_until_from end file block pre ≡ ([], err (Token.at_eof (eof_position file)))
  unfolding read_until_from
  until_eof [] block h = refl
  until_eof (t ∷ pre) block (other, h) =
      rw (other, read_until_from) (until_eof pre (append_tokens block (t ∷ [])) h)

-- ReadUntil returns the tokens before the first one with the text, and takes that one too; if
-- there is none it takes all tokens and returns the end of the file as an error.
pub read_until_cases :
    (end : Bytes) (origin : Token.Source) (pre : List Token) (e : Token) (ts : List Token)
    → All (λ t. is_text t end ≡ false) pre
    → is_text e end ≡ true
    → (let whole : TokenList = record { origin = origin; elements = pre ++ e ∷ ts } in
        read_until end whole ≡ (
          record { origin = origin; elements = ts },
          ok (record { origin = source_of whole; elements = pre }),
        ))
      × (read_until end (record { origin = origin; elements = pre }) ≡ (
        record { origin = origin; elements = [] },
        err (Token.at_eof (eof_position origin.filename)),
      ))
unfolding read_until source_of
read_until_cases end origin pre e ts h same =
    let file = origin.filename in
    let before = until_from end file pre in
    let whole_block : List Token → TokenList = λ all. record {
      origin = source_of (record { origin = origin; elements = all });
      elements = [];
    } in
    (
      rw (before (whole_block (pre ++ e ∷ ts)) (e ∷ ts) h, until_stops end file _ e ts same),
      rw (until_eof end file pre (whole_block pre) h),
    )

expected_from :
    (file : Bytes) (pre ts : List Token)
    → read_expected_from file (map (λ t. t.value) pre) (pre ++ ts) ≡ (ts, ok tt)
unfolding read_expected_from is_text
expected_from file [] ts = refl
expected_from file (t ∷ pre) ts =
    rw (str_eq_refl t.value, read_expected_from) (expected_from file pre ts)

expected_fails :
    (file : Bytes) (pre : List Token) (text : Bytes) (texts : List Bytes) (t : Token)
    (ts : List Token)
    → is_text t text ≡ false
    → read_expected_from file (map (λ u. u.value) pre ++ text ∷ texts) (pre ++ t ∷ ts)
      ≡ (ts, err (Token.expected text t))
unfolding read_expected_from is_text
expected_fails file [] text texts t ts other = rw (other, read_expected_from)
expected_fails file (u ∷ pre) text texts t ts other =
    rw (str_eq_refl u.value, read_expected_from) (expected_fails file pre text texts t ts other)

-- ReadExpected takes the tokens off that have the texts it is given; at the first token with
-- another text, which it takes too, it returns an error that names the text and the token.
pub read_expected_cases :
    (origin : Token.Source) (pre : List Token) (text : Bytes) (texts : List Bytes) (t : Token)
    (ts : List Token)
    → is_text t text ≡ false
    → (let whole : TokenList = record { origin = origin; elements = pre ++ t ∷ ts } in
        (read_expected (map (λ u. u.value) pre) whole
          ≡ (record { origin = origin; elements = t ∷ ts }, ok tt))
        × (read_expected (map (λ u. u.value) pre ++ text ∷ texts) whole
            ≡ (record { origin = origin; elements = ts }, err (Token.expected text t))))
unfolding read_expected
read_expected_cases origin pre text texts t ts other = (
  rw (expected_from origin.filename pre (t ∷ ts)),
  rw (expected_fails origin.filename pre text texts t ts other),
)
