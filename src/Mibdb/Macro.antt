-- ===== src/Mibdb/Macro.antt =====
-- pkg/snmp/mibdb/macro.go: how the definition of a macro is read. The type that a name in it stands for
-- is looked up elsewhere; `as_sequence` gives its parts if it is a patternSequence.
pub mod Fields
mod Tests
use net_mapper.Prelude.{
  ℕ, zero, suc, Bool, true, false, List, [], ◌∷◌, Option, none, some, Bytes, codes, str_eq,
  if◌then◌else◌, Outcome, ok, err, panicked,
}
use net_mapper.Prelude.Assoc.{Assoc, lookup, put}
use net_mapper.Mibtoken.Token
use net_mapper.Mibtoken.Token.{Token, type_of}
use net_mapper.Mibtoken.Tokens.{TokenList, pop, read_block, read_expected}
use net_mapper.Mibdb.Object.{LookupError}
use net_mapper.Mibdb.TypeReference.{TypeReference, is_ident_type}
use net_mapper.Mibdb.Pattern.{
  Pattern, reference, literal, PatternError, Loop, Alternative, simple, defined, parts, read_choice,
}

pub data MacroError : Type 0 where
  in_list : Token.Error → MacroError
  in_pattern : PatternError → MacroError
  not_a_name duplicate_field empty_field : Token → MacroError

-- One alternative, several, or a list of the type of that name.
pub data Field (D : Type 0) : Type 0 where
  one : Alternative D → Field D
  several : List (Alternative D) → Field D
  list_of : Token → Field D

-- A type, a text and a type, of which one is the field itself: the other one is the item of a list.
unfoldable pub item_of : Bytes → List Pattern → Option Token
item_of name (reference r ∷ literal _ ∷ reference u ∷ []) =
    if str_eq r.ident.value name
    then some u.ident
    else if str_eq u.ident.value name
    then some r.ident
    else none
item_of name _ = none

abbrev MacroLoop : Type 0 → Type 0
MacroLoop D = Option (TokenList × Outcome MacroError (Assoc (Field D)))

module _ {D : Type 0} (as_sequence : D → Option (List Pattern))
    (find : Bytes → Outcome LookupError D) where
  abbrev item_in : Bytes → Alternative D → Option Token
  item_in name (simple _) = none
  item_in name (parts ps) = item_of name ps
  item_in name (defined d) = elim (as_sequence d) [ none ↦ none | some ps ↦ item_of name ps ]

  abbrev two_or_list : Alternative D → Alternative D → Option Token → Field D
  two_or_list a b none = several (a ∷ b ∷ [])
  two_or_list a b (some item) = list_of item

  -- The field of the alternatives, of which there is at least one.
  unfoldable pub field_of : Bytes → Alternative D → List (Alternative D) → Field D
  field_of name a [] = one a
  field_of name a (b ∷ []) = two_or_list a b (item_in name b)
  field_of name a (b ∷ c ∷ more) = several (a ∷ b ∷ c ∷ more)

  abbrev enter_field :
      (Assoc (Field D) → TokenList → MacroLoop D)
      → Assoc (Field D)
      → Token
      → TokenList
      → Option (Field D)
      → List (Alternative D)
      → MacroLoop D
  enter_field go m t s (some _) alternatives = some (s, err (duplicate_field t))
  enter_field go m t s none [] = some (s, err (empty_field t))
  enter_field go m t s none (a ∷ more) = go (put t.value (field_of t.value a more) m) s

  abbrev pub after_choice :
      (Assoc (Field D) → TokenList → MacroLoop D)
      → Assoc (Field D)
      → Token
      → Loop (List (Alternative D))
      → MacroLoop D
  after_choice go m t none = none
  after_choice go m t (some (s, ok alternatives)) =
      enter_field go m t s (lookup t.value m) alternatives
  after_choice go m t (some (s, err e)) = some (s, err (in_pattern e))
  after_choice go m t (some (s, panicked)) = some (s, panicked)

  abbrev pub after_name :
      ℕ
      → (Assoc (Field D) → TokenList → MacroLoop D)
      → Assoc (Field D)
      → Token
      → TokenList × Outcome Token.Error (Unit {0})
      → MacroLoop D
  after_name fuel go m t (s, ok _) = after_choice go m t (read_choice find fuel [] s)
  after_name fuel go m t (s, err e) = some (s, err (in_list e))
  after_name fuel go m t (s, panicked) = some (s, panicked)

  abbrev pub named_field :
      Bool
      → ℕ
      → (Assoc (Field D) → TokenList → MacroLoop D)
      → Assoc (Field D)
      → Token
      → TokenList
      → MacroLoop D
  named_field false fuel go m t s = some (s, err (not_a_name t))
  named_field true fuel go m t s = after_name fuel go m t (read_expected (codes "::=" ∷ []) s)

  -- The loop of `readDefinition` over the tokens of the block.
  unfoldable pub read_macro_fields : ℕ → Assoc (Field D) → TokenList → MacroLoop D
  read_macro_fields zero m s = none
  read_macro_fields (suc fuel) m s = elim s.elements [
    | [] ↦ some (s, ok m)
    | (t ∷ _) ↦ named_field (is_ident_type (type_of t)) fuel (read_macro_fields fuel) m t (pop s).0
  ]

  abbrev leave_block : TokenList → MacroLoop D → MacroLoop D
  leave_block s none = none
  leave_block s (some (_, fields)) = some (s, fields)

  abbrev in_block : ℕ → TokenList × Outcome Token.Error TokenList → MacroLoop D
  in_block fuel (s, ok block) = leave_block s (read_macro_fields fuel [] block)
  in_block fuel (s, err e) = some (s, err (in_list e))
  in_block fuel (s, panicked) = some (s, panicked)

  unfoldable pub read_macro : ℕ → TokenList → MacroLoop D
  read_macro fuel s = in_block fuel (read_block (codes "BEGIN") (codes "END") s)
