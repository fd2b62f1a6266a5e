-- ===== src/Mibdb/Macro/Fields.antt =====
-- The fields of a macro are read back from its block.
use net_mapper.Prelude.{
  ℕ, zero, suc, ◌+◌, ◌≤◌, ◌≡◌, refl, ap, ◌∙◌, arith, true, List, [], ◌∷◌, ◌++◌, map, Option, none,
  some, Bytes, codes, str_eq, str_eq_iff, Outcome, ok,
}
use net_mapper.Prelude.Assoc.{Assoc, lookup, put}
use net_mapper.Mibtoken.Token
use net_mapper.Mibtoken.Token.{Token, TokenType, Source, type_of, is_text}
use net_mapper.Mibtoken.Tokens.{pop, read_expected, read_expected_from}
use net_mapper.Mibtoken.Tokens.Read.{pop-cons}
use net_mapper.Mibdb.Object.{LookupError}
use net_mapper.Mibdb.TypeReference.{is_ident_type}
use net_mapper.Mibdb.TypeReference.Reads.{IsBlock}
use net_mapper.Mibtoken.Tokens.Block.{read_block-IsBalanced}
use net_mapper.Mibdb.Pattern.{Pattern}
use net_mapper.Mibdb.Pattern.Choice.{
  WrittenAlternative, write_branch, write_more, alternative_of, rounds, more_rounds, more_positive,
  IsBranch, AreBranches, read_choice-write_branch,
}
use net_mapper.Mibdb.Macro.{
  Field, field_of, enter_field, after_choice, after_name, named_field, read_macro_fields, in_block,
  leave_block, read_macro,
}

-- A name, `::=`, and the alternatives.
pub record WrittenField : Type 0 where
  pub name : Token
  pub assign : Token
  pub head : WrittenAlternative
  pub more : List (Token × WrittenAlternative)

abbrev pub write_fields : List WrittenField → List Token
write_fields [] = []
write_fields (f ∷ fs) =
    f.name ∷ f.assign ∷ write_branch f.head (write_more f.more (write_fields fs))

abbrev pub field_rounds : List WrittenField → ℕ
field_rounds [] = 1
field_rounds (f ∷ fs) = rounds f.head + more_rounds f.more + field_rounds fs

rounds_positive : (fs : List WrittenField) → 1 ≤ field_rounds fs
rounds_positive [] = omega arith
rounds_positive (f ∷ fs) = let h = rounds_positive fs in omega arith

no_rounds : (f : WrittenField) (fs : List WrittenField) → field_rounds (f ∷ fs) ≤ 0 → ⊥
no_rounds f fs h = let p = rounds_positive fs in omega arith

own_rounds :
    (f : WrittenField) (fs : List WrittenField) (fuel : ℕ)
    → field_rounds (f ∷ fs) ≤ suc fuel
    → rounds f.head + more_rounds f.more ≤ fuel
own_rounds f fs fuel h = let p = rounds_positive fs in omega arith

later_rounds :
    (f : WrittenField) (fs : List WrittenField) (fuel : ℕ)
    → field_rounds (f ∷ fs) ≤ suc fuel
    → field_rounds fs ≤ fuel
later_rounds f fs fuel h = let p = more_positive f.more in omega arith

expected_read :
    (origin : Source) (t : Token) (ts : List Token)
    → t.value ≡ codes "::="
    → read_expected (codes "::=" ∷ []) (record { origin = origin; elements = t ∷ ts })
      ≡ (record { origin = origin; elements = ts }, ok tt)
unfolding read_expected read_expected_from is_text
expected_read origin t ts is = rw ((str_eq_iff t.value (codes "::=")).1 is) refl

module _ {D : Type 0} (as_sequence : D → Option (List Pattern))
    (find : Bytes → Outcome LookupError D) where
  abbrev pub written_field : WrittenField → Field D
  written_field f =
      field_of as_sequence find f.name.value (alternative_of f.head)
        (map (λ m. alternative_of m.1) f.more)

  abbrev pub entered_fields : Assoc (Field D) → List WrittenField → Assoc (Field D)
  entered_fields m [] = m
  entered_fields m (f ∷ fs) = entered_fields (put f.name.value (written_field f) m) fs

  module _ (origin : Source) where
    -- The names are new; what follows each field is the next one.
    abbrev pub AreFields : Assoc (Field D) → List WrittenField → Type 0
    AreFields m [] = Unit
    AreFields m (f ∷ fs) =
        (type_of f.name ≡ Token.ident)
        × (f.assign.value ≡ codes "::=")
        × (lookup f.name.value m ≡ none)
        × IsBranch origin f.head (write_more f.more (write_fields fs))
        × AreBranches origin f.more (write_fields fs)
        × AreFields (put f.name.value (written_field f) m) fs

    fields_read :
        (fs : List WrittenField) (fuel : ℕ) (m : Assoc (Field D))
        → AreFields m fs
        → field_rounds fs ≤ fuel
        → read_macro_fields as_sequence find fuel m
            (record { origin = origin; elements = write_fields fs })
          ≡ some (record { origin = origin; elements = [] }, ok (entered_fields m fs))
    unfolding read_macro_fields
    fields_read [] zero m h enough = absurd (omega arith)
    fields_read [] (suc fuel) m h enough = refl
    fields_read (f ∷ fs) zero m h enough = absurd (no_rounds f fs enough)
    fields_read (f ∷ fs) (suc fuel) m (is, assign, fresh, head, more, h) enough =
        let go = read_macro_fields as_sequence find fuel in
        let ts = write_branch f.head (write_more f.more (write_fields fs)) in
        ap
          (λ b.
            named_field as_sequence find b fuel go m f.name
              (pop (record { origin = origin; elements = f.name ∷ f.assign ∷ ts })).0)
          (ap is_ident_type is)
        ∙ ap (λ r. named_field as_sequence find true fuel go m f.name r.0)
            (pop-cons origin f.name (f.assign ∷ ts))
        ∙ ap (after_name as_sequence find fuel go m f.name)
            (expected_read origin f.assign ts assign)
        ∙ ap (after_choice as_sequence find go m f.name) (
            read_choice-write_branch find origin f.head f.more (write_fields fs) fuel head more
              (own_rounds f fs fuel enough))
        ∙ ap
            (λ o.
              enter_field as_sequence find go m f.name
                (record { origin = origin; elements = write_fields fs }) o
                (alternative_of f.head ∷ map (λ m. alternative_of m.1) f.more))
            fresh
        ∙ fields_read fs fuel (put f.name.value (written_field f) m) h
            (later_rounds f fs fuel enough)

-- readDefinition of a macro ends, and gives back the fields that are written between BEGIN and END
-- and leaves the tokens that follow, if the fuel covers the rounds: each field is a new name, an
-- identifier, with `::=` and with alternatives behind it that a choice gives back, the first of
-- them alone or with bars in front of the further ones. No other BEGIN or END that is unbalanced
-- stands among their tokens.
pub read_macro-write_fields :
    {D : Type 0} (as_sequence : D → Option (List Pattern)) (find : Bytes → Outcome LookupError D)
    (origin : Source) (opening closing : Token) (fs : List WrittenField) (rest : List Token)
    (fuel : ℕ)
    → IsBlock
        (codes "BEGIN")
        (codes "END")
        (record { opening = opening; inner = write_fields fs; closing = closing })
    → AreFields as_sequence find opening.position [] fs
    → field_rounds fs ≤ fuel
    → read_macro as_sequence find fuel
        (record { origin = origin; elements = opening ∷ (write_fields fs ++ closing ∷ rest) })
      ≡ some
          (record { origin = origin; elements = rest }, ok (entered_fields as_sequence find [] fs))
unfolding read_macro is_text str_eq
read_macro-write_fields as_sequence find origin opening closing fs rest fuel block h enough =
    ap (in_block as_sequence find fuel) (
      read_block-IsBalanced (codes "BEGIN") (codes "END") origin opening closing (write_fields fs)
        rest ((str_eq_iff opening.value (codes "BEGIN")).1 block.opens) (rw block.opens refl)
        (rw block.closes refl) ((str_eq_iff closing.value (codes "END")).1 block.closes)
        block.balanced)
    ∙ ap (leave_block as_sequence find (record { origin = origin; elements = rest }))
        (fields_read as_sequence find opening.position fs fuel [] h enough)
