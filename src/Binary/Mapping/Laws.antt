-- ===== src/Binary/Mapping/Laws.antt =====
-- A table is consistent: a value's name leads back to the value.
use mathlib.Core.Path.{subst}
use net_mapper.Prelude.{ok_injective, codes}
use net_mapper.Prelude.{ℕ, ◌≡◌, List, [], ◌∷◌, none, some, arith, inl, inr, Option-cases}
use net_mapper.Prelude.{Bytes, str_eq_iff, str_eq_refl, ok, ◌>>=◌, >>=-eq-ok}
use net_mapper.Binary.Mapping.{
  Pair, Mapping, to_lower, lookup_val, lookup_name, add, add_each, add_alias,
}
use net_mapper.Binary.Mapping.{
  name_of, value_of, add_all, empty, alias_sequence, alias_set, tag_map, class_map, tag_name,
  class_name, parse_tag, parse_class, tag_names, class_names,
}

abbrev pub IsConsistent : Mapping → Type 0
IsConsistent m =
    (v : ℕ) (p : Pair)
    → lookup_val v m.val_map ≡ some p
    → (p.val ≡ v) × (lookup_name (to_lower p.name) m.name_map ≡ some p)

pub empty-IsConsistent : IsConsistent empty
unfolding lookup_val
empty-IsConsistent v p h = cc

-- A new name leaves every name that is there alone.
lookup_name-cons :
    (k j : Bytes) (q p : Pair) (m : List (Bytes × Pair))
    → lookup_name k m ≡ none
    → lookup_name j m ≡ some p
    → lookup_name j ((k, q) ∷ m) ≡ some p
unfolding lookup_name
lookup_name-cons k j q p m absent present = ground (arith, str_eq_iff k j)

-- One more name for a pair that is there.
name-IsConsistent :
    (m : Mapping) (k : Bytes) (q : Pair)
    → IsConsistent m
    → lookup_name k m.name_map ≡ none
    → IsConsistent (record m { name_map = (k, q) ∷ m.name_map })
name-IsConsistent m k q consistent absent v p h =
    let (is, found) = consistent v p h in
    (is, lookup_name-cons k (to_lower p.name) q p m.name_map absent found)

-- One more value, whose pair has its name already.
val-IsConsistent :
    (m : Mapping) (q : Pair)
    → IsConsistent m
    → lookup_name (to_lower q.name) m.name_map ≡ some q
    → IsConsistent (record m { val_map = (q.val, q) ∷ m.val_map })
unfolding lookup_val
val-IsConsistent m q consistent named v p h = ground (arith, consistent v p)

lookup_name-head :
    (k : Bytes) (q : Pair) (m : List (Bytes × Pair)) → lookup_name k ((k, q) ∷ m) ≡ some q
unfolding lookup_name
lookup_name-head k q m = rw (str_eq_refl k)

-- Add keeps a table consistent, if it does not panic.
pub add-IsConsistent :
    (m : Mapping) (name : Bytes) (val : ℕ) {m' : Mapping}
    → IsConsistent m
    → add name val m ≡ ok m'
    → IsConsistent m'
unfolding add
add-IsConsistent m name val consistent added = elim (Option-cases (lookup_val val m.val_map)) [
  | inr (_, there) ↦ absurd (ground arith)
  | inl new_val ↦ elim (Option-cases (lookup_name (to_lower name) m.name_map)) [
    | inr (_, there) ↦ absurd (ground arith)
    | inl absent ↦
        let q : Pair = record { name = name; val = val } in
        let k = to_lower name in
        let named = name-IsConsistent m k q consistent absent in
        let both =
          val-IsConsistent (record m { name_map = (k, q) ∷ m.name_map }) q named
            (lookup_name-head k q m.name_map) in
        subst IsConsistent (ok_injective (rw (new_val, absent, add) at added)) both
  ]
]

add_each-IsConsistent :
    (known : Pair) (aliases : List Bytes) (m : Mapping) {m' : Mapping}
    → IsConsistent m
    → add_each known aliases m ≡ ok m'
    → IsConsistent m'
unfolding add_each
add_each-IsConsistent known [] m consistent added =
    subst IsConsistent (ok_injective added) consistent
add_each-IsConsistent known (alias ∷ aliases) m consistent added =
    elim (Option-cases (lookup_name (to_lower alias) m.name_map)) [
      | inr (_, there) ↦ absurd (ground arith)
      | inl absent ↦
          add_each-IsConsistent known aliases _
            (name-IsConsistent m (to_lower alias) known consistent absent)
            (rw (absent, add_each) at added)
    ]

-- AddAlias keeps a table consistent, if it does not panic.
pub add_alias-IsConsistent :
    (m : Mapping) (name : Bytes) (aliases : List Bytes) {m' : Mapping}
    → IsConsistent m
    → add_alias name aliases m ≡ ok m'
    → IsConsistent m'
unfolding add_alias
add_alias-IsConsistent m name aliases consistent added =
    elim (Option-cases (lookup_name (to_lower name) m.name_map)) [
      | inl absent ↦ absurd (ground arith)
      | inr (known, there) ↦
          add_each-IsConsistent known aliases m consistent (rw (there, add_alias) at added)
    ]

add_all-IsConsistent :
    (entries : List (Bytes × ℕ)) (m : Mapping) {m' : Mapping}
    → IsConsistent m
    → add_all entries m ≡ ok m'
    → IsConsistent m'
unfolding add_all
add_all-IsConsistent [] m consistent added = subst IsConsistent (ok_injective added) consistent
add_all-IsConsistent ((name, val) ∷ entries) m consistent added =
    let (next, first, later) = >>=-eq-ok (add name val m) (add_all entries) added in
    add_all-IsConsistent entries next (add-IsConsistent m name val consistent first) later

-- In a consistent table the name of a value is parsed to that value.
pub value_of-name_of :
    (m : Mapping) (val : ℕ) (name : Bytes)
    → IsConsistent m
    → name_of m val ≡ ok name
    → value_of m name ≡ ok val
unfolding name_of value_of
value_of-name_of m val name consistent named = elim (Option-cases (lookup_val val m.val_map)) [
  | inl missing ↦ ground arith
  | inr (p, found) ↦ ground (arith, consistent val p found)
]

alias_sequence-IsConsistent :
    (m : Mapping) {m' : Mapping} → IsConsistent m → alias_sequence m ≡ ok m' → IsConsistent m'
unfolding alias_sequence
alias_sequence-IsConsistent m =
    add_alias-IsConsistent m (codes "Sequence") (codes "SequenceOf" ∷ [])

alias_set-IsConsistent :
    (m : Mapping) {m' : Mapping} → IsConsistent m → alias_set m ≡ ok m' → IsConsistent m'
unfolding alias_set
alias_set-IsConsistent m = add_alias-IsConsistent m (codes "Set") (codes "SetOf" ∷ [])

tag_map-IsConsistent : {m : Mapping} → tag_map ≡ ok m → IsConsistent m
unfolding tag_map
tag_map-IsConsistent filled =
    let (m2, first_two, last) =
      >>=-eq-ok (add_all tag_names empty >>= alias_sequence) alias_set filled in
    let (m1, first, second) = >>=-eq-ok (add_all tag_names empty) alias_sequence first_two in
    let c1 = add_all-IsConsistent tag_names empty empty-IsConsistent first in
    alias_set-IsConsistent m2 (alias_sequence-IsConsistent m1 c1 second) last

class_map-IsConsistent : {m : Mapping} → class_map ≡ ok m → IsConsistent m
unfolding class_map
class_map-IsConsistent = add_all-IsConsistent class_names empty empty-IsConsistent

-- The name that the table has for a tag is parsed back to the tag, and so for a class.
pub parse-tag_name :
    (t c : ℕ) (tag class : Bytes)
    → tag_name t ≡ ok tag
    → class_name c ≡ ok class
    → (parse_tag tag ≡ ok t) × (parse_class class ≡ ok c)
unfolding tag_name class_name parse_tag parse_class
parse-tag_name t c tag class tagged classed =
    let (m, filled, found) = >>=-eq-ok tag_map (λ m. name_of m t) tagged in
    let (m', filled', found') = >>=-eq-ok class_map (λ m. name_of m c) classed in
    (
      rw filled (value_of-name_of m t tag (tag_map-IsConsistent filled) found),
      rw filled' (value_of-name_of m' c class (class_map-IsConsistent filled') found'),
    )
