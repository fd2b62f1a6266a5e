-- ===== src/Mibdb/Pattern/Sequence.antt =====
-- A sequence of types and texts is read back from its tokens.
use net_mapper.Prelude.{
  ℕ, zero, suc, ◌+◌, ◌≤◌, ◌≡◌, refl, sym, ap, ◌∙◌, arith, Bool, false, List, [], ◌∷◌, ◌++◌,
  append-nil, append_assoc, map, none, some, Bytes, codes, str_eq, length, ok,
}
use net_mapper.Mibtoken.Token
use net_mapper.Mibtoken.Token.{Token, TokenType, Source, type_of, is_text}
use net_mapper.Mibtoken.Tokens.{TokenList, look_ahead}
use net_mapper.Mibtoken.Tokens.Read.{pop-cons}
use net_mapper.Mibtoken.Scanner.{unquote}
use net_mapper.Mibdb.TypeReference.{TypeReference, closer_of, read_closed}
use net_mapper.Mibdb.TypeReference.Reads.{
  IsBlock, write_block, Named, alone, sequence_of, write_named, ident_of, is_sequence, first_of,
  Constraint, unconstrained, constrained, write_constraint, block_of, take_token-cons,
  take_block-IsBlock,
}
use net_mapper.Mibdb.Pattern.{
  Pattern, reference, literal, starts_definition, next_closer, read_bracket, read_reference,
  part_if, read_part, after_reference, after_literal, read_parts,
}
use net_mapper.Mibdb.Pattern.Stuck.{IsEnd, ended_at}

-- A type with its name and constraint, or a quoted text.
pub data Part : Type 0 where
  typed : Named → Constraint → Part
  quoted : Token → Bytes → Part

abbrev pub write_part : Part → List Token → List Token
write_part (typed n c) rest = write_named n (write_constraint c rest)
write_part (quoted t text) rest = t ∷ rest

abbrev pub write_parts : List Part → List Token → List Token
write_parts [] rest = rest
write_parts (p ∷ ps) rest = write_part p (write_parts ps rest)

abbrev pub pattern_of : Part → Pattern
pattern_of (typed n c) =
    reference (record { ident = ident_of n; sequence_of = is_sequence n; constraint = block_of c })
pattern_of (quoted t text) = literal text

module _ (origin : Source) where
  abbrev at : List Token → TokenList
  at ts = record { origin = origin; elements = ts }

  -- Without a constraint, what follows opens none.
  abbrev pub IsBracket : Constraint → List Token → Type 0
  IsBracket unconstrained rest = next_closer (at rest) ≡ none
  IsBracket (constrained opener closer b) rest =
      (closer_of b.opening ≡ some (opener, closer))
      × (str_eq opener closer ≡ false)
      × (str_eq closer opener ≡ false)
      × IsBlock opener closer b

  abbrev pub IsPart : Part → List Token → Type 0
  IsPart (typed n c) rest =
      (type_of (first_of n) ≡ Token.ident)
      × (is_text (first_of n) (codes "SEQUENCE OF") ≡ is_sequence n)
      × IsBracket c rest
  IsPart (quoted t text) rest = (type_of t ≡ Token.quoted) × (unquote t ≡ ok text)

  -- Behind the parts the tokens end, or a bar or another definition follows; no part is the name of one.
  abbrev pub IsParts : List Part → List Token → Type 0
  IsParts [] [] = Unit
  IsParts [] (t ∷ ts) = IsEnd (at (t ∷ ts)) t
  IsParts (p ∷ ps) rest =
      (starts_definition (at (write_part p (write_parts ps rest))) ≡ false)
      × IsPart p (write_parts ps rest)
      × IsParts ps rest

  bracket_read :
      (ident : Token) (of : Bool) (c : Constraint) (rest : List Token)
      → IsBracket c rest
      → read_bracket ident of (at (write_constraint c rest))
        ≡ (at rest, ok (record { ident = ident; sequence_of = of; constraint = block_of c }))
  unfolding look_ahead
  bracket_read ident of unconstrained rest h =
      let plain : TypeReference = record { ident = ident; sequence_of = of; constraint = none } in
      ap (λ o. read_closed plain o (at rest)) h
  bracket_read ident of (constrained opener closer b) rest (opens, differ, differ', h) =
      let plain : TypeReference = record { ident = ident; sequence_of = of; constraint = none } in
      ap (λ o. read_closed plain o (at (write_block b rest))) opens
      ∙ rw (take_block-IsBlock origin opener closer b rest differ differ' h) refl

  reference_read :
      (n : Named) (ts : List Token)
      → is_text (first_of n) (codes "SEQUENCE OF") ≡ is_sequence n
      → read_reference (first_of n) (at (write_named n ts))
        ≡ read_bracket (ident_of n) (is_sequence n) (at ts)
  unfolding read_reference
  reference_read (alone t) ts has_of = rw (take_token-cons origin t ts, has_of) refl
  reference_read (sequence_of of t) ts has_of =
      rw (take_token-cons origin of (t ∷ ts), has_of, take_token-cons origin t ts) refl

  -- One round on a token that neither ends the sequence nor the tokens.
  token_step :
      (fuel : ℕ) (acc : List Pattern) (t : Token) (ts : List Token) (ty : TokenType)
      → starts_definition (at (t ∷ ts)) ≡ false
      → type_of t ≡ ty
      → read_parts (suc fuel) acc (at (t ∷ ts)) ≡ read_part (read_parts fuel) acc t ty (at (t ∷ ts))
  unfolding read_parts
  token_step fuel acc t ts ty inside is =
      ap (λ b. part_if b (read_parts fuel) acc t (at (t ∷ ts))) inside
      ∙ ap (λ u. read_part (read_parts fuel) acc t u (at (t ∷ ts))) is

  named_step :
      (fuel : ℕ) (acc : List Pattern) (n : Named) (ts : List Token)
      → starts_definition (at (write_named n ts)) ≡ false
      → type_of (first_of n) ≡ Token.ident
      → read_parts (suc fuel) acc (at (write_named n ts))
        ≡ after_reference
            (read_parts fuel)
            acc
            (read_reference (first_of n) (at (write_named n ts)))
  named_step fuel acc (alone t) ts inside is = token_step fuel acc t ts Token.ident inside is
  named_step fuel acc (sequence_of of t) ts inside is =
      token_step fuel acc of (t ∷ ts) Token.ident inside is

  part_step :
      (fuel : ℕ) (acc : List Pattern) (p : Part) (rest : List Token)
      → starts_definition (at (write_part p rest)) ≡ false
      → IsPart p rest
      → read_parts (suc fuel) acc (at (write_part p rest))
        ≡ read_parts fuel (acc ++ pattern_of p ∷ []) (at rest)
  part_step fuel acc (typed n c) rest inside (is, has_of, bracket) =
      named_step fuel acc n (write_constraint c rest) inside is
      ∙ ap (after_reference (read_parts fuel) acc) (
          reference_read n (write_constraint c rest) has_of
          ∙ bracket_read (ident_of n) (is_sequence n) c rest bracket)
  part_step fuel acc (quoted t text) rest inside (is, text_is) =
      token_step fuel acc t rest Token.quoted inside is
      ∙ ap (after_literal (read_parts fuel) acc (at (t ∷ rest))) text_is
      ∙ ap (λ r. read_parts fuel (acc ++ literal text ∷ []) r.0) (pop-cons origin t rest)

-- The loop of readDefinition gives back the parts, on one round for each of them and one more.
pub read_parts-write_parts :
    (origin : Source) (ps : List Part) (rest : List Token) (fuel : ℕ) (acc : List Pattern)
    → IsParts origin ps rest
    → length ps + 1 ≤ fuel
    → read_parts fuel acc (record { origin = origin; elements = write_parts ps rest })
      ≡ some (record { origin = origin; elements = rest }, ok (acc ++ map pattern_of ps))
unfolding read_parts
read_parts-write_parts origin ps rest zero acc h enough = absurd (omega arith)
read_parts-write_parts origin [] [] (suc fuel) acc h enough =
    ap (λ r. some (at origin [], ok r)) (sym (append-nil acc))
read_parts-write_parts origin [] (t ∷ ts) (suc fuel) acc h enough =
    ended_at (read_parts fuel) acc t (at origin (t ∷ ts)) h
    ∙ ap (λ r. some (at origin (t ∷ ts), ok r)) (sym (append-nil acc))
read_parts-write_parts origin (p ∷ ps) rest (suc fuel) acc (inside, part, h) enough =
    part_step origin fuel acc p (write_parts ps rest) inside part
    ∙ read_parts-write_parts origin ps rest fuel (acc ++ pattern_of p ∷ []) h (omega arith)
    ∙ ap (λ r. some (at origin rest, ok r))
        (append_assoc acc (pattern_of p ∷ []) (map pattern_of ps))
