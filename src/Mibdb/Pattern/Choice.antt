-- ===== src/Mibdb/Pattern/Choice.antt =====
-- A choice of sequences and labelled values is read back from its tokens.
use net_mapper.Prelude.{
  ℕ, zero, suc, ◌+◌, ◌≤◌, ◌≡◌, refl, sym, ap, ◌∙◌, arith, true, false, List, [], ◌∷◌, ◌++◌,
  append-nil, append_assoc, map, some, Bytes, codes, str_eq, str_eq_iff, length, Outcome, ok,
}
use net_mapper.Mibtoken.Token.{Token, Source, is_text}
use net_mapper.Mibtoken.Tokens.{TokenList, look_ahead, pop}
use net_mapper.Mibtoken.Tokens.Read.{pop-cons}
use net_mapper.Mibdb.Object.{LookupError}
use net_mapper.Mibdb.TypeReference.{peek_token}
use net_mapper.Mibdb.TypeReference.Reads.{
  Block, IsBlock, write_block, alone, sequence_of, first_of, take_block-IsBlock,
}
use net_mapper.Mibdb.Pattern.{
  Alternative, simple, parts, Rest, plain_type, label_if, label_of, as_simple, add_alternative,
  after_parts, read_alternative, choice_if, read_choice,
}
use net_mapper.Mibdb.Pattern.Sequence.{
  Part, typed, quoted, write_parts, pattern_of, IsParts, read_parts-write_parts,
}

-- A sequence of at least one part, or `value` with a label and a type in parentheses.
pub data WrittenAlternative : Type 0 where
  sequence : Part → List Part → WrittenAlternative
  labelled : Token → Token → Token → Token → Token → WrittenAlternative

abbrev pub label_block : Token → Token → Token → Token → Block
label_block opening label ident closing = record {
  opening = opening;
  inner = label ∷ ident ∷ [];
  closing = closing;
}

abbrev pub write_branch : WrittenAlternative → List Token → List Token
write_branch (sequence p ps) rest = write_parts (p ∷ ps) rest
write_branch (labelled v opening label ident closing) rest =
    v ∷ write_block (label_block opening label ident closing) rest

-- The branches behind the first one, each with its bar.
abbrev pub write_more : List (Token × WrittenAlternative) → List Token → List Token
write_more [] rest = rest
write_more ((bar, b) ∷ more) rest = bar ∷ write_branch b (write_more more rest)

abbrev part_start : Part → Token
part_start (typed n c) = first_of n
part_start (quoted t text) = t

abbrev pub start_of : WrittenAlternative → Token
start_of (sequence p ps) = part_start p
start_of (labelled v opening label ident closing) = v

abbrev pub alternative_of : {D : Type 0} → WrittenAlternative → Alternative D
alternative_of (sequence p ps) = parts (map pattern_of (p ∷ ps))
alternative_of (labelled v opening label ident closing) = simple (plain_type ident)

-- The rounds that a branch takes.
abbrev pub rounds : WrittenAlternative → ℕ
rounds (sequence p ps) = length (p ∷ ps) + 2
rounds (labelled v opening label ident closing) = 1

abbrev pub more_rounds : List (Token × WrittenAlternative) → ℕ
more_rounds [] = 1
more_rounds ((bar, b) ∷ more) = rounds b + more_rounds more

rounds_positive :
    (b : WrittenAlternative) (more : List (Token × WrittenAlternative))
    → rounds b + more_rounds more ≤ 0
    → ⊥
rounds_positive (sequence p ps) more h = omega arith
rounds_positive (labelled _ _ _ _ _) more h = omega arith

pub more_positive : (more : List (Token × WrittenAlternative)) → 1 ≤ more_rounds more
more_positive [] = omega arith
more_positive ((bar, b) ∷ more) = let h = more_positive more in omega arith

first_rounds :
    (b : WrittenAlternative) (more : List (Token × WrittenAlternative)) (fuel : ℕ)
    → rounds b + more_rounds more ≤ suc fuel
    → rounds b ≤ suc fuel
first_rounds b more fuel h = omega arith

other_rounds :
    (b : WrittenAlternative) (more : List (Token × WrittenAlternative)) (fuel : ℕ)
    → rounds b + more_rounds more ≤ suc fuel
    → more_rounds more ≤ fuel
other_rounds (sequence p ps) more fuel h = omega arith
other_rounds (labelled _ _ _ _ _) more fuel h = omega arith

label_read :
    (origin : Source) (label ident : Token)
    → label_of (pop (record { origin = origin; elements = label ∷ ident ∷ [] }))
      ≡ ok (plain_type ident)
label_read origin label ident =
    ap label_of (pop-cons origin label (ident ∷ []))
    ∙ ap (λ r. ok (label_if label r.1)) (pop-cons origin ident [])

bar_next : (bar : Token) → bar.value ≡ codes "|" → is_text bar (codes "|") ≡ true
unfolding is_text
bar_next bar is = (str_eq_iff bar.value (codes "|")).1 is

module _ (origin : Source) where
  abbrev at : List Token → TokenList
  at ts = record { origin = origin; elements = ts }

  abbrev pub IsBranch : WrittenAlternative → List Token → Type 0
  IsBranch (sequence p ps) rest =
      (is_text (part_start p) (codes "value") ≡ false)
      × (is_text (part_start p) (codes "type") ≡ false)
      × IsParts origin (p ∷ ps) rest
  IsBranch (labelled v opening label ident closing) rest =
      (v.value ≡ codes "value")
      × IsBlock (codes "(") (codes ")") (label_block opening label ident closing)

  -- No bar follows the last branch.
  abbrev pub AreBranches : List (Token × WrittenAlternative) → List Token → Type 0
  AreBranches [] [] = Unit
  AreBranches [] (t ∷ ts) = is_text t (codes "|") ≡ false
  AreBranches ((bar, b) ∷ more) rest =
      (bar.value ≡ codes "|") × IsBranch b (write_more more rest) × AreBranches more rest

  peek_branch :
      (b : WrittenAlternative) (rest : List Token)
      → peek_token (at (write_branch b rest)) ≡ (at (write_branch b rest), ok (start_of b))
  unfolding look_ahead
  peek_branch (sequence (typed (alone t) c) ps) rest = refl
  peek_branch (sequence (typed (sequence_of of t) c) ps) rest = refl
  peek_branch (sequence (quoted t text) ps) rest = refl
  peek_branch (labelled v opening label ident closing) rest = refl

  module _ {D : Type 0} (find : Bytes → Outcome LookupError D) where
    branch_read :
        (fuel : ℕ) (go : Rest D) (acc : List (Alternative D)) (b : WrittenAlternative)
        (rest : List Token)
        → IsBranch b rest
        → rounds b ≤ suc fuel
        → read_alternative find fuel go acc (peek_token (at (write_branch b rest)))
          ≡ go (acc ++ alternative_of b ∷ []) (at rest)
    unfolding is_text str_eq
    branch_read fuel go acc (sequence p ps) rest (no_value, no_type, h) enough =
        ap (read_alternative find fuel go acc) (peek_branch (sequence p ps) rest)
        ∙ rw (no_value, no_type)
            (ap (after_parts go acc)
              (read_parts-write_parts origin (p ∷ ps) rest fuel [] h (omega arith)))
    branch_read fuel go acc (labelled v opening label ident closing) rest (is, h) enough =
        ap (read_alternative find fuel go acc)
          (peek_branch (labelled v opening label ident closing) rest)
        ∙ rw
            (
              (str_eq_iff v.value (codes "value")).1 is,
              pop-cons origin v (write_block (label_block opening label ident closing) rest),
              take_block-IsBlock origin (codes "(") (codes ")")
                  (label_block opening label ident closing) rest refl refl h,
            )
            (ap (λ o. add_alternative go acc (at rest) (as_simple o))
              (label_read opening.position label ident))

    first_choice :
        (fuel : ℕ) (b : WrittenAlternative) (rest : List Token)
        → read_choice find (suc fuel) [] (at (write_branch b rest))
          ≡ read_alternative find fuel
              (read_choice find fuel)
              []
              (peek_token (at (write_branch b rest)))
    unfolding read_choice
    first_choice fuel (sequence (typed (alone t) c) ps) rest = refl
    first_choice fuel (sequence (typed (sequence_of of t) c) ps) rest = refl
    first_choice fuel (sequence (quoted t text) ps) rest = refl
    first_choice fuel (labelled v opening label ident closing) rest = refl

    more_read :
        (more : List (Token × WrittenAlternative)) (rest : List Token) (fuel : ℕ)
        (a : Alternative D) (acc : List (Alternative D))
        → AreBranches more rest
        → more_rounds more ≤ fuel
        → read_choice find fuel (a ∷ acc) (at (write_more more rest))
          ≡ some (at rest, ok (a ∷ (acc ++ map (λ m. alternative_of m.1) more)))
    unfolding read_choice look_ahead
    more_read [] rest zero a acc h enough = absurd (omega arith)
    more_read [] [] (suc fuel) a acc h enough =
        ap (λ r. some (at [], ok (a ∷ r))) (sym (append-nil acc))
    more_read [] (t ∷ ts) (suc fuel) a acc h enough =
        ap (λ b. choice_if find b fuel (read_choice find fuel) (a ∷ acc) (at (t ∷ ts))) h
        ∙ ap (λ r. some (at (t ∷ ts), ok (a ∷ r))) (sym (append-nil acc))
    more_read ((bar, b) ∷ more) rest zero a acc h enough = absurd (rounds_positive b more enough)
    more_read ((bar, b) ∷ more) rest (suc fuel) a acc (is_bar, branch, h) enough =
        let rest' = write_more more rest in
        ap
          (λ c.
            choice_if find c fuel (read_choice find fuel) (a ∷ acc)
              (at (bar ∷ write_branch b rest')))
          (bar_next bar is_bar)
        ∙ ap (λ r. read_alternative find fuel (read_choice find fuel) (a ∷ acc) (peek_token r.0))
            (pop-cons origin bar (write_branch b rest'))
        ∙ branch_read fuel (read_choice find fuel) (a ∷ acc) b rest' branch
            (first_rounds b more fuel enough)
        ∙ more_read more rest fuel a (acc ++ alternative_of b ∷ []) h
            (other_rounds b more fuel enough)
        ∙ ap (λ r. some (at rest, ok (a ∷ r)))
            (append_assoc acc (alternative_of b ∷ []) (map (λ m. alternative_of m.1) more))

-- readDefinition of a choice ends, and gives back the alternatives that are written with a bar
-- between each two, and leaves the tokens that follow, if the fuel covers the rounds: each
-- alternative is a sequence of at least one part, which is a type with its constraint or a quoted
-- text, or `value` with a label and a type in parentheses. No sequence begins with `value` or
-- `type`, no part is followed by `::=`, a type without a constraint is not followed by an opening
-- bracket, and what follows the last alternative is no bar, and if it is a sequence, it is the end
-- or the name of a definition.
pub read_choice-write_branch :
    {D : Type 0} (find : Bytes → Outcome LookupError D) (origin : Source) (b : WrittenAlternative)
    (more : List (Token × WrittenAlternative)) (rest : List Token) (fuel : ℕ)
    → IsBranch origin b (write_more more rest)
    → AreBranches origin more rest
    → rounds b + more_rounds more ≤ fuel
    → read_choice find fuel []
        (record { origin = origin; elements = write_branch b (write_more more rest) })
      ≡ some (
        record { origin = origin; elements = rest },
        ok (alternative_of b ∷ map (λ m. alternative_of m.1) more),
      )
read_choice-write_branch find origin b more rest zero branch h enough =
    absurd (rounds_positive b more enough)
read_choice-write_branch find origin b more rest (suc fuel) branch h enough =
    first_choice origin find fuel b (write_more more rest)
    ∙ branch_read origin find fuel (read_choice find fuel) [] b (write_more more rest) branch
        (first_rounds b more fuel enough)
    ∙ more_read origin find more rest fuel (alternative_of b) [] h (other_rounds b more fuel enough)
