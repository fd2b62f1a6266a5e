-- ===== src/Mibtoken/Tokens/Block.antt =====
-- `ReadBlock` on nested blocks.
use net_mapper.Prelude.{
  ℕ, suc, ◌+◌, ◌-◌, ◌≡◌, arith, ap, true, false, List, [], ◌∷◌, ◌++◌, append_assoc, append-nil,
}
use net_mapper.Prelude.{Bytes, ltb, ◌==◌, length, length-append, take_append, Outcome, ok, panicked}
use net_mapper.Mibtoken.Token
use net_mapper.Mibtoken.Token.{Token, is_text, Error}
use net_mapper.Mibtoken.Tokens.{
  TokenList, append_tokens, read_block, read_block_from, inner_tokens, look_ahead, source_of,
}

-- The tokens of a block, in which every opening token has its closing one.
pub data IsBalanced (start end : Bytes) : List Token → Type 0 where
  nothing : IsBalanced start end []
  plain :
      (t : Token) (ts : List Token)
      → is_text t start ≡ false
      → is_text t end ≡ false
      → IsBalanced start end ts
      → IsBalanced start end (t ∷ ts)
  nested :
      (o c : Token) (inner ts : List Token)
      → is_text o start ≡ true
      → is_text o end ≡ false
      → is_text c start ≡ false
      → is_text c end ≡ true
      → IsBalanced start end inner
      → IsBalanced start end ts
      → IsBalanced start end (o ∷ (inner ++ c ∷ ts))

next_level : (l : ℕ) → l + 1 ≡ suc l
next_level l = omega arith

down : (l : ℕ) → suc (suc l) - 1 ≡ suc l
down l = omega arith

suc-ne_zero : (l : ℕ) → (suc l == 0) ≡ false
suc-ne_zero l = ground arith

append_twice :
    (block : TokenList) (xs ys : List Token)
    → append_tokens (append_tokens block xs) ys ≡ append_tokens block (xs ++ ys)
append_twice block xs ys = rw (append_assoc block.elements xs ys)

module _ (start end file : Bytes) where
  abbrev loop : ℕ → TokenList → List Token → List Token × Outcome Error TokenList
  loop = read_block_from start end file

  plain_step :
      (t : Token) (level : ℕ) (block : TokenList) (ts : List Token)
      → is_text t start ≡ false
      → is_text t end ≡ false
      → loop level block (t ∷ ts) ≡ loop level (append_tokens block (t ∷ [])) ts
  unfolding read_block_from
  plain_step t level block ts no_start no_end = rw (no_start, no_end, read_block_from)

  open_step :
      (o : Token) (level : ℕ) (block : TokenList) (ts : List Token)
      → is_text o start ≡ true
      → is_text o end ≡ false
      → loop level block (o ∷ ts) ≡ loop (suc level) (append_tokens block (o ∷ [])) ts
  unfolding read_block_from
  open_step o level block ts is_start no_end =
      rw (is_start, no_end, read_block_from)
        (ap (λ l. read_block_from start end file l (append_tokens block (o ∷ [])) ts)
          (next_level level))

  close_step :
      (c : Token) (level : ℕ) (block : TokenList) (ts : List Token)
      → is_text c start ≡ false
      → is_text c end ≡ true
      → loop (suc (suc level)) block (c ∷ ts) ≡ loop (suc level) (append_tokens block (c ∷ [])) ts
  unfolding read_block_from
  close_step c level block ts no_start is_end =
      rw (no_start, is_end, read_block_from, down level, suc-ne_zero level)

  last_step :
      (c : Token) (block : TokenList) (ts : List Token)
      → is_text c start ≡ false
      → is_text c end ≡ true
      → loop 1 block (c ∷ ts) ≡ (ts, inner_tokens (append_tokens block (c ∷ [])))
  unfolding read_block_from
  last_step c block ts no_start is_end = rw (no_start, is_end, read_block_from)

  -- A balanced run is added to the block, at any level above 0.
  passes :
      (body : List Token)
      → IsBalanced start end body
      → (level : ℕ) (block : TokenList) (ts : List Token)
      → loop (suc level) block (body ++ ts) ≡ loop (suc level) (append_tokens block body) ts
  passes _ nothing level block ts = rw (append-nil block.elements)
  passes _ (plain t body no_start no_end b) level block ts = rw (
    plain_step t (suc level) block (body ++ ts) no_start no_end,
    passes body b level (append_tokens block (t ∷ [])) ts,
    append_twice block (t ∷ []) body,
  )
  passes _ (nested o c inner body o_start o_end c_start c_end bi b) level block ts =
      let opened = append_tokens block (o ∷ []) in
      let closed = append_tokens (append_tokens opened inner) (c ∷ []) in
      rw (
        append_assoc inner (c ∷ body) ts,
        open_step o (suc level) block (inner ++ c ∷ (body ++ ts)) o_start o_end,
        passes inner bi (suc level) opened (c ∷ (body ++ ts)),
        close_step c level (append_tokens opened inner) (body ++ ts) c_start c_end,
        passes body b level closed ts,
        append_twice (append_tokens opened inner) (c ∷ []) body,
        append_twice opened inner (c ∷ body),
        append_twice block (o ∷ []) (inner ++ c ∷ body),
      )

inner_whole :
    (origin : Token.Source) (o c : Token) (body : List Token)
    → inner_tokens (record { origin = origin; elements = o ∷ (body ++ c ∷ []) })
      ≡ ok (record { origin = origin; elements = body })
unfolding inner_tokens
inner_whole origin o c body =
    let size = length-append body (c ∷ []) in
    let many : ltb (suc (length (body ++ c ∷ []))) 2 ≡ false = ground (arith, size) in
    let whole : suc (length (body ++ c ∷ [])) - 1 ≡ suc (length body) = omega (arith, size) in
    rw (many, whole, take_append body (c ∷ []))

-- ReadBlock takes a block off the front of a list (an opening token, a run of tokens in which
-- opening and closing ones are balanced, and a closing token): it returns the run, placed where
-- the block starts, and leaves what is behind the block. No token of the block is both opening and
-- closing.
pub read_block-IsBalanced :
    (start end : Bytes) (origin : Token.Source) (o c : Token) (body ts : List Token)
    → is_text o start ≡ true
    → is_text o end ≡ false
    → is_text c start ≡ false
    → is_text c end ≡ true
    → IsBalanced start end body
    → read_block start end (record { origin = origin; elements = o ∷ (body ++ c ∷ ts) }) ≡ (
      record { origin = origin; elements = ts },
      ok (record { origin = o.position; elements = body }),
    )
unfolding read_block look_ahead source_of
read_block-IsBalanced start end origin o c body ts o_start o_end c_start c_end b =
    let block : TokenList = record { origin = o.position; elements = [] } in
    let opened = append_tokens block (o ∷ []) in
    let file = origin.filename in
    rw
      (
        o_start,
        open_step start end file o 0 block (body ++ c ∷ ts) o_start o_end,
        passes start end file body b 0 opened (c ∷ ts),
        last_step start end file c (append_tokens opened body) ts c_start c_end,
      )
      (rw (inner_whole o.position o c body))

-- A token that is both the opening and the closing one ends the program, at the front of any list.
pub read_block-panicked :
    (text : Bytes) (origin : Token.Source) (t : Token) (ts : List Token)
    → is_text t text ≡ true
    → (read_block text text (record { origin = origin; elements = t ∷ ts })).1 ≡ panicked
unfolding read_block read_block_from look_ahead inner_tokens
read_block-panicked text origin t ts is_it = rw (is_it, read_block, read_block_from)
