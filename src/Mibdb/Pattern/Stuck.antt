-- ===== src/Mibdb/Pattern/Stuck.antt =====
-- Definitions of patterns on which the loops of pattern.go do not end.
use net_mapper.Prelude.{
  ℕ, zero, suc, ◌≡◌, refl, ap, ◌∙◌, ◌⊎◌, inl, inr, Bool-cases, str_eq_iff, true, false, List, [],
  ◌∷◌, none, some, Bytes, codes, Outcome, ok,
}
use net_mapper.Mibtoken.Token
use net_mapper.Mibtoken.Token.{Token, TokenType, Source, type_of, is_text}
use net_mapper.Mibtoken.Tokens.{TokenList, look_ahead}
use net_mapper.Mibdb.Object.{LookupError}
use net_mapper.Mibdb.Pattern.{
  Pattern, Loop, starts_definition, part_if, read_part, read_parts, read_choice, after_parts,
}

-- A type of token for which the switch has no case.
abbrev pub IsUnhandled : TokenType → Type 0
IsUnhandled Token.ident = ⊥
IsUnhandled Token.quoted = ⊥
IsUnhandled Token.symbol = ⊥
IsUnhandled _ = Unit

unhandled_part :
    (go : List Pattern → TokenList → Loop (List Pattern)) (acc : List Pattern) (t : Token)
    (ty : TokenType) (s : TokenList)
    → IsUnhandled ty
    → read_part go acc t ty s ≡ go acc s
unhandled_part go acc t Token.unknown s h = refl
unhandled_part go acc t Token.whitespace s h = refl
unhandled_part go acc t Token.comment s h = refl
unhandled_part go acc t Token.number s h = refl
unhandled_part go acc t Token.eof s h = refl
unhandled_part go acc t Token.ident s h = absurd h
unhandled_part go acc t Token.quoted s h = absurd h
unhandled_part go acc t Token.symbol s h = absurd h

-- readDefinition of a sequence does not end, however many rounds it is given, on a token that is
-- neither an identifier nor a quoted text nor a symbol, unless `::=` is behind it.
pub read_parts-unhandled :
    (fuel : ℕ) (acc : List Pattern) (origin : Source) (t : Token) (ts : List Token)
    → IsUnhandled (type_of t)
    → starts_definition (record { origin = origin; elements = t ∷ ts }) ≡ false
    → read_parts fuel acc (record { origin = origin; elements = t ∷ ts }) ≡ none
unfolding read_parts
read_parts-unhandled zero acc origin t ts h inside = refl
read_parts-unhandled (suc fuel) acc origin t ts h inside =
    let s : TokenList = record { origin = origin; elements = t ∷ ts } in
    ap (λ b. part_if b (read_parts fuel) acc t s) inside
    ∙ unhandled_part (read_parts fuel) acc t (type_of t) s h
    ∙ read_parts-unhandled fuel acc origin t ts h inside

-- Where a sequence ends: in front of a bar, or of the name of another definition.
abbrev pub IsEnd : TokenList → Token → Type 0
IsEnd s t = (starts_definition s ≡ true) ⊎ ((type_of t ≡ Token.symbol) × (t.value ≡ codes "|"))

bar_ends :
    (go : List Pattern → TokenList → Loop (List Pattern)) (acc : List Pattern) (t : Token)
    (s : TokenList)
    → t.value ≡ codes "|"
    → read_part go acc t Token.symbol s ≡ some (s, ok acc)
unfolding is_text
bar_ends go acc t s bar = rw ((str_eq_iff t.value (codes "|")).1 bar) refl

pub ended_at :
    (go : List Pattern → TokenList → Loop (List Pattern)) (acc : List Pattern) (t : Token)
    (s : TokenList)
    → IsEnd s t
    → part_if (starts_definition s) go acc t s ≡ some (s, ok acc)
ended_at go acc t s (inl next) = ap (λ b. part_if b go acc t s) next
ended_at go acc t s (inr (is, bar)) = elim (Bool-cases (starts_definition s)) [
  | inl next ↦ ap (λ b. part_if b go acc t s) next
  | inr inside ↦
      ap (λ b. part_if b go acc t s) inside
      ∙ ap (λ ty. read_part go acc t ty s) is
      ∙ bar_ends go acc t s bar
]

-- readDefinition of a choice does not end, however many rounds it is given, on a token in front of which
-- a sequence ends, and which is neither `value` nor `type`.
pub read_choice-IsEnd :
    {D : Type 0} (find : Bytes → Outcome LookupError D) (fuel : ℕ) (origin : Source) (t : Token)
    (ts : List Token)
    → is_text t (codes "value") ≡ false
    → is_text t (codes "type") ≡ false
    → IsEnd (record { origin = origin; elements = t ∷ ts }) t
    → read_choice find fuel [] (record { origin = origin; elements = t ∷ ts }) ≡ none
unfolding read_choice look_ahead read_parts
read_choice-IsEnd find zero origin t ts no_value no_type h = refl
read_choice-IsEnd find (suc zero) origin t ts no_value no_type h = rw (no_value, no_type) refl
read_choice-IsEnd find (suc (suc fuel)) origin t ts no_value no_type h =
    let s : TokenList = record { origin = origin; elements = t ∷ ts } in
    rw (no_value, no_type)
      (ap (after_parts (read_choice find (suc fuel)) []) (ended_at (read_parts fuel) [] t s h)
        ∙ read_choice-IsEnd find (suc fuel) origin t ts no_value no_type h)
