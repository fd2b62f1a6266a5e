-- ===== src/Mibtoken/Scanner.antt =====
-- pkg/snmp/mibtoken/scanner.go: the queue between `bufio.Scanner` and the readers of tokens, and `Unquote`.
pub mod Queue
pub mod Unquote
mod Tests
use net_mapper.Prelude.{
  ℕ, zero, suc, ◌+◌, max, Bool, true, false, not, ◌||◌, List, [], ◌∷◌, ◌++◌, Option, none, some,
  Bytes, codes, ltb, ◌==◌, str_eq, if◌then◌else◌, length, get_or, take, drop, Outcome, ok, err,
  panicked,
}
use net_mapper.Mibtoken.Token
use net_mapper.Mibtoken.Token.{Token, TokenType, type_of, Source, Error}
use net_mapper.Mibtoken.Tokens.{TokenList, look_ahead, remove_index, source_of}

-- `raw` is what `inner.Scan` has yet to give, each text with the position in front of it; `stopped` is
-- the error of the context.
pub record Scanner : Type 0 where
  pub queue : TokenList
  pub raw : List Token
  pub skip : TokenType → Bool
  pub stopped : Option Error

abbrev pub special_tokens : List Bytes
special_tokens =
    codes "OBJECT IDENTIFIER"
    ∷ codes "OCTET STRING"
    ∷ codes "SEQUENCE OF"
    ∷ codes "SET OF"
    ∷ codes "TYPE NOTATION"
    ∷ codes "VALUE NOTATION"
    ∷ []

-- `slices.Contains`
unfoldable pub has_text : List Bytes → Bytes → Bool
has_text [] text = false
has_text (s ∷ ss) text = str_eq s text || has_text ss text

-- A token is merged with the last one of the queue, if both make a special token.
unfoldable pub merge_last : List Token → Token → List Token
merge_last [] t = t ∷ []
merge_last (x ∷ []) t =
    let candidate = x.value ++ b' ' ∷ t.value in
    if has_text special_tokens candidate then record x { value = candidate } ∷ [] else x ∷ t ∷ []
merge_last (x ∷ y ∷ q) t = x ∷ merge_last (y ∷ q) t

unfoldable pub offer : (TokenType → Bool) → List Token → Token → List Token
offer skip q t = if skip (type_of t) then q else merge_last q t

-- The loop of `refillQueue`: the queue, and what is left to scan.
unfoldable pub refill_from :
    (TokenType → Bool) → ℕ → List Token → List Token → List Token × List Token
refill_from skip desired q [] = (q, [])
refill_from skip desired q (t ∷ ts) =
    let more = refill_from skip desired (offer skip q t) ts in
    if ltb (length q) desired then more else (q, t ∷ ts)

unfoldable pub refill_queue : ℕ → Scanner → Scanner
refill_queue desired s =
    let (q, ts) = refill_from s.skip (max desired 16) s.queue.elements s.raw in
    record s { queue = record s.queue { elements = q }; raw = ts }

-- `LookAhead`, with the error of the context.
unfoldable pub scan_ahead_if : Option Error → ℕ → Scanner → Scanner × Outcome Error Token
scan_ahead_if (some e) n s = (s, err e)
scan_ahead_if none n s = let s' = refill_queue (n + 2) s in (s', look_ahead n s'.queue)

unfoldable pub scan_ahead : ℕ → Scanner → Scanner × Outcome Error Token
unfolding scan_ahead_if
scan_ahead n s = scan_ahead_if s.stopped n s

-- `RemoveIndex` of the first token, which is there.
unfoldable pub drop_first : Scanner × Outcome Error Token → Scanner × Outcome Error Token
drop_first (s, ok t) = (record s { queue = (remove_index 0 s.queue).0 }, ok t)
drop_first (s, err e) = (s, err e)
drop_first (s, panicked) = (s, panicked)

unfoldable pub scan : Scanner → Scanner × Outcome Error Token
unfolding drop_first
scan s = drop_first (scan_ahead 0 s)

unfoldable pub scanner_source : Scanner → Source
scanner_source s = source_of (refill_queue 1 s).queue

unfoldable pub scanner_is_eof : Scanner → Bool
scanner_is_eof s = length (refill_queue 1 s).queue.elements == 0

pub data UnquoteError : Type 0 where
  not_a_string too_short not_terminated invalid_escape : UnquoteError

abbrev is_white : ℕ → Bool
is_white b = b == 10 || b == 13 || b == 32 || b == 9

-- How many bytes of white space stand in front.
unfoldable pub blank_run : Bytes → ℕ
blank_run [] = 0
blank_run (b ∷ bs) = if is_white b then suc (blank_run bs) else 0

-- The byte that is written for `\\c`.
unfoldable pub escaped : ℕ → Option ℕ
escaped c =
    if c == b'n'
    then some 10
    else if c == b'r'
    then some 13
    else if c == b't'
    then some 9
    else if c == 92 || c == 39 || c == 34
    then some c
    else none

-- The loop of `Unquote`, at the byte behind `behind`. A line break and the white space after it become
-- one space, but the index moves on by their number. Each round passes a byte, so as much fuel as
-- there are bytes is enough.
unfoldable pub unquote_from : ℕ → Bytes → Bytes → Outcome UnquoteError Bytes
unquote_from zero behind rest = ok (behind ++ rest)
unquote_from (suc fuel) behind [] = ok behind
unquote_from (suc fuel) behind (b ∷ []) =
    if b == 92
    then err invalid_escape
    else if b == 10 || b == 13
    then ok (behind ++ 32 ∷ [])
    else ok (behind ++ b ∷ [])
unquote_from (suc fuel) behind (b ∷ c ∷ bs) =
    let n = blank_run (b ∷ c ∷ bs) in
    let tail = drop n (b ∷ c ∷ bs) in
    let folded = unquote_from fuel (behind ++ 32 ∷ take n tail) (drop n tail) in
    let plain = unquote_from fuel (behind ++ b ∷ []) (c ∷ bs) in
    let replaced : Outcome UnquoteError Bytes = elim (escaped c) [
      | none ↦ err invalid_escape
      | some d ↦ unquote_from fuel (behind ++ d ∷ []) bs
    ] in
    if b == 92 then replaced else if b == 10 || b == 13 then folded else plain

is_quoted : TokenType → Bool
is_quoted Token.quoted = true
is_quoted _ = false

-- What follows the tests, between the quotes.
unfoldable pub unquote_text : Bytes → Outcome UnquoteError Bytes
unquote_text [] = err too_short
unquote_text (q ∷ []) = err too_short
unquote_text (q ∷ c ∷ cs) =
    let text = c ∷ cs in
    let last = length cs in
    if q == get_or text last 0
    then unquote_from (length (take last text)) [] (take last text)
    else err not_terminated

unfoldable pub unquote : Token → Outcome UnquoteError Bytes
unfolding is_quoted
unquote t = if is_quoted (type_of t) then unquote_text t.value else err not_a_string
