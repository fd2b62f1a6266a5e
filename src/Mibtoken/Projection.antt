-- ===== src/Mibtoken/Projection.antt =====
-- pkg/snmp/mibtoken/projection.go: reading ahead in a list of tokens without taking anything off,
-- until `Commit`. The reader below is a `TokenList`, and is part of the projection's state.
mod Tests
use net_mapper.Prelude.{
  ℕ, zero, suc, ◌+◌, ◌-◌, ◌≡◌, ◌≢◌, refl, arith, ap, Bool, true, false, sym, ◌∙◌, List, [], ◌∷◌,
  Option, none, some, Bytes, get_elem?, Outcome, ok, err, panicked, Option-cases, inl, inr,
}
use net_mapper.Mibtoken.Token
use net_mapper.Mibtoken.Token.{Token, TokenType, type_of, Source, Error}
use net_mapper.Mibtoken.Tokens.{TokenList, look_ahead, pop, source_of}
use net_mapper.Mibtoken.Tokens.Read.{pop-cons}

pub record Projection : Type 0 where
  pub reader : TokenList
  pub origin : Source
  pub offset : ℕ

unfoldable pub new_projection : TokenList → Projection
new_projection reader = record { reader = reader; origin = source_of reader; offset = 0 }

unfoldable pub peek : ℕ → Projection → Outcome Error Token
peek n p = look_ahead (p.offset + n) p.reader

unfoldable pub next : Projection → Projection × Outcome Error Token
next p = elim (peek 0 p) [
  | ok t ↦ (record p { offset = p.offset + 1 }, ok t)
  | err e ↦ (p, err e)
  | panicked ↦ (p, panicked)
]

is_eof_type : TokenType → Bool
is_eof_type Token.eof = true
is_eof_type _ = false

-- A token whose type is EOF ends the projection too.
unfoldable pub is_eof : Projection → Bool
unfolding is_eof_type
is_eof p = elim (peek 0 p) [ ok t ↦ is_eof_type (type_of t) | err _ ↦ true | panicked ↦ true ]

unfoldable pub projection_source : Projection → Source
projection_source p = elim (peek 0 p) [ ok t ↦ t.position | err _ ↦ p.origin | panicked ↦ p.origin ]

-- `for p.offset > 0 { p.reader.Pop(); p.offset-- }`
unfoldable pub pop_times : ℕ → TokenList → TokenList
pop_times zero tl = tl
pop_times (suc n) tl = pop_times n (pop tl).0

unfoldable pub commit : Projection → Projection
commit p = record p { reader = pop_times p.offset p.reader; offset = 0 }

-- Reading `n` tokens in a row, from a projection and from a list, up to the first error.
unfoldable pub read_ahead : ℕ → Projection → Projection × List (Outcome Error Token)
read_ahead zero p = (p, [])
read_ahead (suc n) p = let (p', t) = next p in let (q, ts) = read_ahead n p' in (q, t ∷ ts)

unfoldable pub read_directly : ℕ → TokenList → TokenList × List (Outcome Error Token)
read_directly zero tl = (tl, [])
read_directly (suc n) tl =
    let (tl', t) = pop tl in let (rest, ts) = read_directly n tl' in (rest, t ∷ ts)

module _ (origin : Source) where
  abbrev listed : List Token → TokenList
  listed ts = record { origin = origin; elements = ts }

  pop_nil : pop (listed []) ≡ (listed [], look_ahead 0 (listed []))
  unfolding pop look_ahead
  pop_nil = refl

  look_ahead-pop_times :
      (k : ℕ) (ts : List Token) → look_ahead k (listed ts) ≡ (pop (pop_times k (listed ts))).1
  unfolding look_ahead pop_times
  look_ahead-pop_times zero [] = rw pop_nil
  look_ahead-pop_times zero (t ∷ ts) = rw (pop-cons origin t ts)
  look_ahead-pop_times (suc k) [] = rw (pop_nil) (look_ahead-pop_times k [])
  look_ahead-pop_times (suc k) (t ∷ ts) = rw (pop-cons origin t ts) (look_ahead-pop_times k ts)

  pop_err :
      (ts : List Token) (e : Error) → (pop (listed ts)).1 ≡ err e → (pop (listed ts)).0 ≡ listed ts
  pop_err [] e h = rw pop_nil
  pop_err (t ∷ ts) e h =
      let read : ◌≡◌ {A = Outcome Error Token} (ok t) (err e) =
        sym (ap (λ r. r.1) (pop-cons origin t ts)) ∙ h in
      absurd (cc)

  pop-ne-panicked : (ts : List Token) → (pop (listed ts)).1 ≢ panicked
  unfolding look_ahead
  pop-ne-panicked [] h =
      let read : ◌≡◌ {A = Outcome Error Token} (look_ahead 0 (listed [])) panicked =
        sym (ap (λ r. r.1) pop_nil) ∙ h in
      cc
  pop-ne-panicked (t ∷ ts) h =
      let read : ◌≡◌ {A = Outcome Error Token} (ok t) panicked =
        sym (ap (λ r. r.1) (pop-cons origin t ts)) ∙ h in
      cc

pop_times-suc : (k : ℕ) (tl : TokenList) → pop_times (suc k) tl ≡ (pop (pop_times k tl)).0
unfolding pop_times
pop_times-suc zero tl = refl
pop_times-suc (suc k) tl = pop_times-suc k (pop tl).0

next_index : (k : ℕ) → k + 1 ≡ suc k
next_index k = omega arith

same_index : (k : ℕ) → k + 0 ≡ k
same_index k = omega arith

peek-pop : (p : Projection) → peek 0 p ≡ (pop (pop_times p.offset p.reader)).1
unfolding peek
peek-pop p =
    rw (same_index p.offset) (look_ahead-pop_times p.reader.origin p.offset p.reader.elements)

next_cases :
    (p : Projection) (r : Outcome Error Token)
    → peek 0 p ≡ r
    → ((next p).1 ≡ r)
      × (pop_times (next p).0.offset (next p).0.reader ≡ (pop (pop_times p.offset p.reader)).0)
unfolding next
next_cases p (ok t) e =
    (rw (e, next), rw (e, next, next_index p.offset) (pop_times-suc p.offset p.reader))
next_cases p (err x) e =
    let popped = sym (peek-pop p) ∙ e in
    (
      rw (e, next),
      rw (e, next)
          (sym (
            pop_err (pop_times p.offset p.reader).origin (pop_times p.offset p.reader).elements x
              popped)),
    )
next_cases p panicked e = absurd (
    pop-ne-panicked (pop_times p.offset p.reader).origin (pop_times p.offset p.reader).elements
      (sym (peek-pop p) ∙ e))

-- Whatever number of tokens is read through a projection, the results are those of reading the
-- list directly, and Commit leaves the list in the state of that reading.
pub read_ahead-read_directly :
    (n : ℕ) (p : Projection)
    → (let committed = pop_times p.offset p.reader in
        ((read_ahead n p).1 ≡ (read_directly n committed).1)
        × ((commit (read_ahead n p).0).reader ≡ (read_directly n committed).0))
unfolding read_ahead read_directly commit
read_ahead-read_directly zero p = (refl, refl)
read_ahead-read_directly (suc n) p =
    let (same, state) = next_cases p (peek 0 p) refl in
    let (results, committed) = read_ahead-read_directly n (next p).0 in
    (rw (same, peek-pop p, results, state), rw (committed, state))

next-reader : (p : Projection) → (next p).0.reader ≡ p.reader
unfolding next
next-reader p = ground arith

-- Reading through a projection changes nothing in the list before Commit.
pub read_ahead-reader : (n : ℕ) (p : Projection) → (read_ahead n p).0.reader ≡ p.reader
unfolding read_ahead
read_ahead-reader zero p = refl
read_ahead-reader (suc n) p = read_ahead-reader n (next p).0 ∙ next-reader p
