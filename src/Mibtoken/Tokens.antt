-- ===== src/Mibtoken/Tokens.antt =====
-- pkg/snmp/mibtoken/tokenlist.go: a list of tokens that is read from its front.
-- An operation gives the list after it and its result. No two lists share an array that one of them
-- writes to, so the elements are a value.
pub mod Block
pub mod Read
mod Tests
use net_mapper.Prelude.{
  ℕ, zero, suc, ◌+◌, ◌-◌, Bool, ◌&&◌, not, List, [], ◌∷◌, ◌++◌, Option, none, some,
}
use net_mapper.Prelude.{
  Bytes, ltb, leb, ◌==◌, if◌then◌else◌, length, get_elem?, take, drop, Outcome, ok, err, panicked,
}
use net_mapper.Mibtoken.Token
use net_mapper.Mibtoken.Token.{Source, eof_position, Token, is_text, Error}

pub record TokenList : Type 0 where
  pub origin : Source
  pub elements : List Token

-- `EOFPosition(tl.source.Filename).WrapError(io.EOF)`
abbrev pub eof_error : TokenList → Error
eof_error tl = Token.at_eof (eof_position tl.origin.filename)

unfoldable pub look_ahead : ℕ → TokenList → Outcome Error Token
look_ahead n tl = elim (get_elem? tl.elements n) [ none ↦ err (eof_error tl) | some t ↦ ok t ]

-- `Source`: where the first token stands.
unfoldable pub source_of : TokenList → Source
source_of tl = elim tl.elements [ [] ↦ eof_position tl.origin.filename | t ∷ _ ↦ t.position ]

-- `copy(tl.elements[n:], tl.elements[n+1:])`, and the last element cut off.
unfoldable pub remove_index : ℕ → TokenList → TokenList × Outcome Error (Unit {0})
remove_index n tl =
    if leb (length tl.elements) n
    then (tl, err Token.plain_eof)
    else (record tl { elements = take n tl.elements ++ drop (n + 1) tl.elements }, ok tt)

popped :
    Outcome Error Token → TokenList × Outcome Error (Unit {0}) → TokenList × Outcome Error Token
popped head (rest, ok _) = (rest, head)
popped head (rest, err e) = (rest, err e)
popped head (rest, panicked) = (rest, panicked)

unfoldable pub pop : TokenList → TokenList × Outcome Error Token
unfolding popped look_ahead remove_index
pop tl = elim (look_ahead 0 tl) [
  | ok t ↦ popped (ok t) (remove_index 0 tl)
  | err e ↦ (tl, err e)
  | panicked ↦ (tl, panicked)
]

abbrev pub append_tokens : TokenList → List Token → TokenList
append_tokens tl ts = record tl { elements = tl.elements ++ ts }

-- The loops below pop the tokens one by one, so they recurse on them; `file` is the name in the error
-- of a list that has come to its end. They give the tokens that are left, and the result.
unfoldable pub read_until_from :
    Bytes → Bytes → TokenList → List Token → List Token × Outcome Error TokenList
read_until_from end file block [] = ([], err (Token.at_eof (eof_position file)))
read_until_from end file block (t ∷ ts) =
    let rest = read_until_from end file (append_tokens block (t ∷ [])) ts in
    if is_text t end then (ts, ok block) else rest

abbrev pub after {ℓ} : {A : Type ℓ} → TokenList → List Token × A → TokenList × A
after tl (left, result) = (record tl { elements = left }, result)

unfoldable pub read_until : Bytes → TokenList → TokenList × Outcome Error TokenList
unfolding source_of
read_until end tl =
    let block : TokenList = record { origin = source_of tl; elements = [] } in
    after tl (read_until_from end tl.origin.filename block tl.elements)

-- `block.elements[1 : len(block.elements)-1]`
unfoldable pub inner_tokens : TokenList → Outcome Error TokenList
inner_tokens block =
    let n = length block.elements in
    if ltb n 2
    then panicked
    else ok (record block { elements = drop 1 (take (n - 1) block.elements) })

-- The first token is the opening one, so `level` is above 0 where it is counted down.
unfoldable pub read_block_from :
    Bytes → Bytes → Bytes → ℕ → TokenList → List Token → List Token × Outcome Error TokenList
unfolding inner_tokens
read_block_from start end file level block [] = ([], err (Token.at_eof (eof_position file)))
read_block_from start end file level block (t ∷ ts) =
    let block' = append_tokens block (t ∷ []) in
    let up = if is_text t start then level + 1 else level in
    let level' = if is_text t end then up - 1 else up in
    let rest = read_block_from start end file level' block' ts in
    if is_text t end && level' == 0 then (ts, inner_tokens block') else rest

unfoldable pub read_block : Bytes → Bytes → TokenList → TokenList × Outcome Error TokenList
unfolding source_of look_ahead
read_block start end tl = elim (look_ahead 0 tl) [
  | ok head ↦
      if not (is_text head start)
      then (tl, err (Token.expected start head))
      else after tl (
          read_block_from start end tl.origin.filename 0
            (record { origin = source_of tl; elements = [] }) tl.elements)
  | err e ↦ (tl, err e)
  | panicked ↦ (tl, panicked)
]

unfoldable pub read_expected_from :
    Bytes → List Bytes → List Token → List Token × Outcome Error (Unit {0})
read_expected_from file [] ts = (ts, ok tt)
read_expected_from file (e ∷ es) [] = ([], err (Token.at_eof (eof_position file)))
read_expected_from file (e ∷ es) (t ∷ ts) =
    let rest = read_expected_from file es ts in
    if not (is_text t e) then (ts, err (Token.expected e t)) else rest

unfoldable pub read_expected : List Bytes → TokenList → TokenList × Outcome Error (Unit {0})
read_expected texts tl = after tl (read_expected_from tl.origin.filename texts tl.elements)

-- A list of less than two tokens is left as it is.
unfoldable pub remove_brackets : Bytes → Bytes → TokenList → TokenList × Outcome Error (Unit {0})
remove_brackets opening closing tl =
    let n = length tl.elements in
    if ltb n 2 then (tl, ok tt) else elim (get_elem? tl.elements 0) [
      | none ↦ (tl, panicked)
      | some first ↦ elim (get_elem? tl.elements (n - 1)) [
        | none ↦ (tl, panicked)
        | some last ↦
            if not (is_text first opening)
            then (tl, err (Token.expected opening first))
            else if not (is_text last closing)
            then (tl, err (Token.expected closing last))
            else (record tl { elements = drop 1 (take (n - 1) tl.elements) }, ok tt)
      ]
    ]

-- `start` and `end` are not negative.
unfoldable pub slice : ℕ → ℕ → TokenList → Outcome Error TokenList
unfolding source_of
slice start end tl =
    if leb (length tl.elements) start
    then err (Token.start_out_of_bounds (source_of tl) start)
    else if ltb (length tl.elements) end
    then err (Token.end_out_of_bounds (source_of tl) end)
    else if ltb end start
    then err (Token.start_above_end (source_of tl) start)
    else ok (record { origin = source_of tl; elements = drop start (take end tl.elements) })
