-- ===== src/Mibtoken/Scanner/Queue.antt =====
-- The readers of a scanner see one list of tokens, whatever the queue holds of it.
use net_mapper.Prelude.{
  ℕ, zero, suc, ◌+◌, ◌≤◌, ◌≡◌, ◌⊎◌, inl, inr, refl, ap, ◌∙◌, arith, max, Bool, Bool-cases, List, [],
  ◌∷◌, ◌++◌, Option, none, ltb, length, get_elem?, err,
}
use net_mapper.Mibtoken.Token
use net_mapper.Mibtoken.Token.{Token, TokenType, Source, Error}
use net_mapper.Mibtoken.Tokens.{TokenList, look_ahead, pop, remove_index}
use net_mapper.Mibtoken.Tokens.Read.{pop-cons}
use net_mapper.Mibtoken.Scanner.{
  Scanner, special_tokens, has_text, merge_last, offer, refill_from, refill_queue, scan_ahead,
  scan_ahead_if, drop_first, scan,
}

-- All tokens that are left, skipped and merged.
abbrev pub all_offered : (TokenType → Bool) → List Token → List Token → List Token
all_offered skip q [] = q
all_offered skip q (t ∷ ts) = all_offered skip (offer skip q t) ts

abbrev pub view : Scanner → TokenList
view s = record s.queue { elements = all_offered s.skip s.queue.elements s.raw }

module _ (skip : TokenType → Bool) where
  refill_from-view :
      (desired : ℕ) (q ts : List Token)
      → (let r = refill_from skip desired q ts in all_offered skip r.0 r.1) ≡ all_offered skip q ts
  unfolding refill_from
  refill_from-view desired q [] = refl
  refill_from-view desired q (t ∷ ts) = elim (Bool-cases (ltb (length q) desired)) [
    | inl e ↦ rw e (refill_from-view desired (offer skip q t) ts)
    | inr e ↦ rw e refl
  ]

  -- The queue is as long as wanted, unless nothing is left to scan.
  refill_from_filled :
      (desired : ℕ) (q ts : List Token)
      → (let r = refill_from skip desired q ts in (desired ≤ length r.0) ⊎ (r.1 ≡ []))
  unfolding refill_from
  refill_from_filled desired q [] = inr refl
  refill_from_filled desired q (t ∷ ts) = elim (Bool-cases (ltb (length q) desired)) [
    | inl e ↦ rw e (refill_from_filled desired (offer skip q t) ts)
    | inr e ↦ rw e (inl (ground arith))
  ]

  -- All but the last token of a queue stay as they are.
  merge_last_tail :
      (x y : Token) (q : List Token) (t : Token)
      → merge_last (x ∷ y ∷ q) t ≡ x ∷ merge_last (y ∷ q) t
  unfolding merge_last
  merge_last_tail x y q t = refl

  merge_last_some :
      (y : Token) (q : List Token) (t : Token)
      → (z : Token) × (rest : List Token) × (merge_last (y ∷ q) t ≡ z ∷ rest)
  unfolding merge_last
  merge_last_some y [] t = elim (Bool-cases (has_text special_tokens (y.value ++ b' ' ∷ t.value))) [
    | inl e ↦ (record y { value = y.value ++ b' ' ∷ t.value }, [], rw e refl)
    | inr e ↦ (y, t ∷ [], rw e refl)
  ]
  merge_last_some y (x ∷ q) t = (y, merge_last (x ∷ q) t, refl)

  tail_offered :
      (ts : List Token) (x y : Token) (q : List Token)
      → all_offered skip (x ∷ y ∷ q) ts ≡ x ∷ all_offered skip (y ∷ q) ts
  unfolding offer
  tail_offered [] x y q = refl
  tail_offered (t ∷ ts) x y q = elim (Bool-cases (skip (Token.type_of t))) [
    | inl e ↦ rw e (tail_offered ts x y q)
    | inr e ↦
        let (z, rest, is) = merge_last_some y q t in
        rw (e, merge_last_tail x y q t, is) (tail_offered ts x z rest)
  ]

  -- A token that has another one behind it is the one that readers see.
  nth_offered :
      (n : ℕ) (q ts : List Token)
      → (n + 2 ≤ length q) ⊎ (ts ≡ [])
      → get_elem? (all_offered skip q ts) n ≡ get_elem? q n
  nth_offered n q ts (inr none_left) = rw none_left refl
  nth_offered n [] ts (inl long) = absurd (omega arith)
  nth_offered n (x ∷ []) ts (inl long) = absurd (omega arith)
  nth_offered zero (x ∷ y ∷ q) ts (inl long) = rw (tail_offered ts x y q) refl
  nth_offered (suc n) (x ∷ y ∷ q) ts (inl long) =
      rw (tail_offered ts x y q) (nth_offered n (y ∷ q) ts (inl (omega arith)))

refill_queue-view : (desired : ℕ) (s : Scanner) → view (refill_queue desired s) ≡ view s
unfolding refill_queue
refill_queue-view desired s =
    ap (λ ts. record s.queue { elements = ts })
      (refill_from-view s.skip (max desired 16) s.queue.elements s.raw)

refill_queue_filled :
    (desired : ℕ) (s : Scanner)
    → (desired ≤ length (refill_queue desired s).queue.elements)
      ⊎ ((refill_queue desired s).raw ≡ [])
unfolding refill_queue
refill_queue_filled desired s =
    elim (refill_from_filled s.skip (max desired 16) s.queue.elements s.raw) [
      | inl h ↦ inl (omega arith)
      | inr h ↦ inr h
    ]

look_ahead-filled :
    (n : ℕ) (s : Scanner)
    → (n + 2 ≤ length s.queue.elements) ⊎ (s.raw ≡ [])
    → look_ahead n s.queue ≡ look_ahead n (view s)
unfolding look_ahead
look_ahead-filled n s h = rw (nth_offered s.skip n s.queue.elements s.raw h, look_ahead) refl

scan_ahead_running :
    (n : ℕ) (s : Scanner)
    → s.stopped ≡ none
    → scan_ahead n s ≡ (refill_queue (n + 2) s, look_ahead n (refill_queue (n + 2) s).queue)
unfolding scan_ahead
scan_ahead_running n s running = ap (λ o. scan_ahead_if o n s) running

scan_ahead-look_ahead :
    (n : ℕ) (s : Scanner)
    → s.stopped ≡ none
    → ((scan_ahead n s).1 ≡ look_ahead n (view s)) × (view (scan_ahead n s).0 ≡ view s)
scan_ahead-look_ahead n s running =
    let s' = refill_queue (n + 2) s in
    let same = refill_queue-view (n + 2) s in
    rw (scan_ahead_running n s running)
      (look_ahead-filled n s' (refill_queue_filled (n + 2) s) ∙ ap (look_ahead n) same, same)

remove_first :
    (origin : Source) (x : Token) (q : List Token)
    → (remove_index 0 (record { origin = origin; elements = x ∷ q })).0
      ≡ record { origin = origin; elements = q }
unfolding remove_index
remove_first origin x q = ground arith

pop-empty :
    (origin : Source)
    → pop (record { origin = origin; elements = [] }) ≡ (
      record { origin = origin; elements = [] },
      err (Token.at_eof (Token.eof_position origin.filename)),
    )
unfolding pop look_ahead
pop-empty origin = refl

module _ (skip : TokenType → Bool) (stopped : Option Error) (origin : Source) where
  abbrev scanner : List Token → List Token → Scanner
  scanner q ts = record {
    queue = record { origin = origin; elements = q };
    raw = ts;
    skip = skip;
    stopped = stopped;
  }

  -- `Pop` on a queue that is filled.
  drop_first-pop :
      (q ts : List Token)
      → (2 ≤ length q) ⊎ (ts ≡ [])
      → (let after = drop_first (scanner q ts, look_ahead 0 (scanner q ts).queue) in
          (after.1 ≡ (pop (view (scanner q ts))).1)
          × (view after.0 ≡ (pop (view (scanner q ts))).0))
  unfolding drop_first look_ahead
  drop_first-pop [] [] h = rw (pop-empty origin) (refl, refl)
  drop_first-pop [] (t ∷ ts) (inl h) = absurd (omega arith)
  drop_first-pop [] (t ∷ ts) (inr h) = absurd (cc)
  drop_first-pop (x ∷ []) [] h = rw (pop-cons origin x [], remove_first origin x []) (refl, refl)
  drop_first-pop (x ∷ []) (t ∷ ts) (inl h) = absurd (omega arith)
  drop_first-pop (x ∷ []) (t ∷ ts) (inr h) = absurd (cc)
  drop_first-pop (x ∷ y ∷ q) ts h =
      rw
        (
          tail_offered skip ts x y q,
          pop-cons origin x (all_offered skip (y ∷ q) ts),
          remove_first origin x (y ∷ q),
        )
        (refl, refl)

-- A scanner whose context has no error is one list of tokens, those that are left after skipping
-- and merging: LookAhead gives what it gives on the list and leaves the list as it is, and Pop
-- gives and leaves what it does on the list, whatever part of the tokens the queue holds.
pub scan-pop :
    (n : ℕ) (s : Scanner)
    → s.stopped ≡ none
    → ((scan_ahead n s).1 ≡ look_ahead n (view s))
      × (view (scan_ahead n s).0 ≡ view s)
      × ((scan s).1 ≡ (pop (view s)).1)
      × (view (scan s).0 ≡ (pop (view s)).0)
unfolding scan
scan-pop n s running =
    let (seen, kept) = scan_ahead-look_ahead n s running in
    let s' = refill_queue 2 s in
    let (taken, left) =
      drop_first-pop s'.skip s'.stopped s'.queue.origin s'.queue.elements s'.raw
        (refill_queue_filled 2 s) in
    (
      seen,
      kept,
      rw (scan_ahead_running 0 s running) (taken ∙ ap (λ v. (pop v).1) (refill_queue-view 2 s)),
      rw (scan_ahead_running 0 s running) (left ∙ ap (λ v. (pop v).0) (refill_queue-view 2 s)),
    )
