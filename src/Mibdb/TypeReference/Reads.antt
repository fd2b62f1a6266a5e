-- ===== src/Mibdb/TypeReference/Reads.antt =====
-- `readDefinition` of a type, on all the forms that it takes.
use net_mapper.Prelude.{
  ◌≡◌, ◌⊎◌, inl, inr, refl, ap, ◌∙◌, Bool, true, false, ◌||◌, List, ◌∷◌, ◌++◌, Option, none, some,
  Bytes, codes, str_eq, str_eq_iff, ok,
}
use net_mapper.Mibtoken.Token
use net_mapper.Mibtoken.Token.{Token, Source, type_of, is_text}
use net_mapper.Mibtoken.Tokens.{TokenList, look_ahead}
use net_mapper.Mibtoken.Tokens.Read.{pop-cons}
use net_mapper.Mibtoken.Tokens.Block.{IsBalanced, read_block-IsBalanced}
use net_mapper.Mibdb.TypeReference.{
  peek_token, take_token, take_block, lift, go_on, ◌>>=◌, TypeReference, closer_of, skip_word,
  skip_tag, read_constraint, read_ident, read_definition, read_named, read_closed,
}

-- An opening token, what is balanced, and the closing token.
pub record Block : Type 0 where
  pub opening : Token
  pub inner : List Token
  pub closing : Token

pub record IsBlock (opener closer : Bytes) (b : Block) : Type 0 where
  pub opens : b.opening.value ≡ opener
  pub closes : b.closing.value ≡ closer
  pub balanced : IsBalanced opener closer b.inner

abbrev pub write_block : Block → List Token → List Token
write_block b rest = b.opening ∷ (b.inner ++ b.closing ∷ rest)

-- No tag, a tag, or a tag with a word behind it.
pub data Tag : Type 0 where
  untagged : Tag
  tagged : Block → Tag
  worded : Block → Token → Tag

abbrev pub write_tag : Tag → List Token → List Token
write_tag untagged rest = rest
write_tag (tagged b) rest = write_block b rest
write_tag (worded b word) rest = write_block b (word ∷ rest)

abbrev pub IsTag : Tag → Type 0
IsTag untagged = Unit
IsTag (tagged b) = IsBlock (codes "[") (codes "]") b
IsTag (worded b word) =
    IsBlock (codes "[") (codes "]") b
    × ((word.value ≡ codes "IMPLICIT") ⊎ (word.value ≡ codes "EXPLICIT"))

abbrev pub is_tagging : Token → Bool
is_tagging t = is_text t (codes "IMPLICIT") || is_text t (codes "EXPLICIT")

is_tagging_lem :
    (w : Token) → (w.value ≡ codes "IMPLICIT") ⊎ (w.value ≡ codes "EXPLICIT") → is_tagging w ≡ true
unfolding is_text str_eq
is_tagging_lem w (inl e) = rw e refl
is_tagging_lem w (inr e) = rw e refl

-- The name of a type, alone or behind SEQUENCE OF.
pub data Named : Type 0 where
  alone : Token → Named
  sequence_of : Token → Token → Named

abbrev pub write_named : Named → List Token → List Token
write_named (alone t) rest = t ∷ rest
write_named (sequence_of of t) rest = of ∷ t ∷ rest

abbrev pub ident_of : Named → Token
ident_of (alone t) = t
ident_of (sequence_of of t) = t

abbrev pub is_sequence : Named → Bool
is_sequence (alone t) = false
is_sequence (sequence_of of t) = true

abbrev pub first_of : Named → Token
first_of (alone t) = t
first_of (sequence_of of t) = of

-- The first token is an identifier that neither begins a tag nor ends one.
pub record IsNamed (n : Named) : Type 0 where
  pub identifier : type_of (first_of n) ≡ Token.ident
  pub no_bracket : is_text (first_of n) (codes "[") ≡ false
  pub no_word : is_tagging (first_of n) ≡ false
  pub has_of : is_text (first_of n) (codes "SEQUENCE OF") ≡ is_sequence n

pub data Constraint : Type 0 where
  unconstrained : Constraint
  constrained : Bytes → Bytes → Block → Constraint

abbrev pub write_constraint : Constraint → List Token → List Token
write_constraint unconstrained rest = rest
write_constraint (constrained opener closer b) rest = write_block b rest

abbrev pub block_of : Constraint → Option TokenList
block_of unconstrained = none
block_of (constrained opener closer b) =
    some (record { origin = b.opening.position; elements = b.inner })

-- Without a constraint another token follows, which opens none.
abbrev pub IsConstraint : Constraint → List Token → Type 0
IsConstraint unconstrained rest =
    (t : Token) × (ts : List Token) × (rest ≡ t ∷ ts) × (closer_of t ≡ none)
IsConstraint (constrained opener closer b) rest =
    (closer_of b.opening ≡ some (opener, closer))
    × (str_eq opener closer ≡ false)
    × (str_eq closer opener ≡ false)
    × IsBlock opener closer b

module _ (origin : Source) where
  abbrev at : List Token → TokenList
  at ts = record { origin = origin; elements = ts }

  peek_token-cons : (t : Token) (ts : List Token) → peek_token (at (t ∷ ts)) ≡ (at (t ∷ ts), ok t)
  unfolding look_ahead
  peek_token-cons t ts = refl

  pub take_token-cons : (t : Token) (ts : List Token) → take_token (at (t ∷ ts)) ≡ (at ts, ok t)
  take_token-cons t ts = ap lift (pop-cons origin t ts)

  pub take_block-IsBlock :
      (opener closer : Bytes) (b : Block) (rest : List Token)
      → str_eq opener closer ≡ false
      → str_eq closer opener ≡ false
      → IsBlock opener closer b
      → take_block opener closer (at (write_block b rest))
        ≡ (at rest, ok (record { origin = b.opening.position; elements = b.inner }))
  unfolding is_text
  take_block-IsBlock opener closer b rest differ differ' h = ap lift (
      read_block-IsBalanced opener closer origin b.opening b.closing b.inner rest
        ((str_eq_iff b.opening.value opener).1 h.opens) (rw h.opens differ) (rw h.closes differ')
        ((str_eq_iff b.closing.value closer).1 h.closes) h.balanced)

  tag_block_skipped :
      (b : Block) (ts : List Token)
      → IsBlock (codes "[") (codes "]") b
      → (peek_token >>= skip_tag) (at (write_block b ts)) ≡ (peek_token >>= skip_word) (at ts)
  unfolding skip_tag look_ahead is_text str_eq
  tag_block_skipped b ts h =
      rw
        (
          (str_eq_iff b.opening.value (codes "[")).1 h.opens,
          take_block-IsBlock (codes "[") (codes "]") b ts refl refl h,
        )
        refl

  word_kept :
      (t : Token) (ts : List Token)
      → is_tagging t ≡ false
      → (peek_token >>= skip_word) (at (t ∷ ts)) ≡ (at (t ∷ ts), ok t)
  unfolding skip_word look_ahead
  word_kept t ts word = rw word refl

  word_skipped :
      (w t : Token) (ts : List Token)
      → is_tagging w ≡ true
      → (peek_token >>= skip_word) (at (w ∷ t ∷ ts)) ≡ (at (t ∷ ts), ok t)
  unfolding skip_word look_ahead
  word_skipped w t ts word = rw (word, take_token-cons w (t ∷ ts)) refl

  -- In front of a token that is no word and no bracket, the tag is passed over.
  tag_skipped :
      (tag : Tag) (t : Token) (ts : List Token)
      → IsTag tag
      → is_text t (codes "[") ≡ false
      → is_tagging t ≡ false
      → (peek_token >>= skip_tag) (at (write_tag tag (t ∷ ts))) ≡ (at (t ∷ ts), ok t)
  unfolding skip_tag look_ahead
  tag_skipped untagged t ts h bracket word = rw bracket refl
  tag_skipped (tagged b) t ts h bracket word = tag_block_skipped b (t ∷ ts) h ∙ word_kept t ts word
  tag_skipped (worded b w) t ts (h, is) bracket word =
      tag_block_skipped b (w ∷ t ∷ ts) h ∙ word_skipped w t ts (is_tagging_lem w is)

  constraint_read :
      (ident : Token) (of : Bool) (c : Constraint) (rest : List Token)
      → IsConstraint c rest
      → read_constraint ident of (at (write_constraint c rest))
        ≡ (at rest, ok (record { ident = ident; sequence_of = of; constraint = block_of c }))
  unfolding read_constraint look_ahead
  constraint_read ident of unconstrained rest (t, ts, is, no_closer) =
      let plain : TypeReference = record { ident = ident; sequence_of = of; constraint = none } in
      rw is (ap (λ o. read_closed plain o (at (t ∷ ts))) no_closer)
  constraint_read ident of (constrained opener closer b) rest (opens, differ, differ', h) =
      let plain : TypeReference = record { ident = ident; sequence_of = of; constraint = none } in
      ap (λ o. read_closed plain o (at (write_block b rest))) opens
      ∙ rw (take_block-IsBlock opener closer b rest differ differ' h) refl

  tag_skipped-IsNamed :
      (tag : Tag) (n : Named) (ts : List Token)
      → IsTag tag
      → IsNamed n
      → (peek_token >>= skip_tag) (at (write_tag tag (write_named n ts)))
        ≡ (at (write_named n ts), ok (first_of n))
  tag_skipped-IsNamed tag (alone t) ts h named =
      tag_skipped tag t ts h named.no_bracket named.no_word
  tag_skipped-IsNamed tag (sequence_of of t) ts h named =
      tag_skipped tag of (t ∷ ts) h named.no_bracket named.no_word

  ident_read :
      (n : Named) (ts : List Token)
      → IsNamed n
      → read_ident (first_of n) (at (write_named n ts))
        ≡ read_constraint (ident_of n) (is_sequence n) (at ts)
  unfolding read_ident
  ident_read (alone t) ts h = rw (take_token-cons t ts, h.has_of) refl
  ident_read (sequence_of of t) ts h =
      rw (take_token-cons of (t ∷ ts), h.has_of, take_token-cons t ts) refl

-- readDefinition gives back the type that is written as an optional tag in brackets, an optional
-- IMPLICIT or EXPLICIT behind the tag, a name that is alone or follows SEQUENCE OF, and an
-- optional block in brackets that is balanced, and leaves the tokens that follow; without a block
-- there is a token behind the name, which opens none. The first token of the name is an
-- identifier.
pub read_definition-write :
    (origin : Source) (tag : Tag) (n : Named) (c : Constraint) (rest : List Token)
    → IsTag tag
    → IsNamed n
    → IsConstraint c rest
    → read_definition (record {
      origin = origin;
      elements = write_tag tag (write_named n (write_constraint c rest));
    })
      ≡ (
        record { origin = origin; elements = rest },
        ok (record { ident = ident_of n; sequence_of = is_sequence n; constraint = block_of c }),
      )
unfolding read_definition
read_definition-write origin tag n c rest tags named constraint =
    let ts = write_constraint c rest in
    ap (go_on read_named) (tag_skipped-IsNamed origin tag n ts tags named)
    ∙ rw named.identifier (
        ident_read origin n ts named
        ∙ constraint_read origin (ident_of n) (is_sequence n) c rest constraint)
