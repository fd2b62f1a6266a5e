-- ===== src/Binary/Mapping/Tests.antt =====
-- Runs of the tag and class tables.
use net_mapper.Prelude.{◌≡◌, refl, codes, str_eq, ok, err, [], ◌∷◌}
use net_mapper.Binary.Mapping.{
  tag_name, class_name, parse_tag, parse_class, tag_map, class_map, unknown_name, lookup_val,
  lookup_name, Mapping, Pair, empty, add, add_alias,
}
use net_mapper.Binary.Mapping.Laws.{
  IsConsistent, empty-IsConsistent, add-IsConsistent, add_alias-IsConsistent, parse-tag_name,
}

integer_name : tag_name 2 ≡ ok (codes "Integer")
unfolding tag_name tag_map lookup_val lookup_name str_eq
integer_name = refl

private_name : class_name 3 ≡ ok (codes "Private")
unfolding class_name class_map lookup_val lookup_name str_eq
private_name = refl

-- Names are read in any case, and aliases too.
alias_tag : parse_tag (codes "sequenceof") ≡ ok 0x10
unfolding parse_tag tag_map lookup_val lookup_name str_eq
alias_tag = refl

no_tag : parse_tag (codes "int") ≡ err (unknown_name (codes "int"))
unfolding parse_tag tag_map lookup_val lookup_name str_eq
no_tag = refl

parse-tag_name_run : (parse_tag (codes "Integer") ≡ ok 2) × (parse_class (codes "Private") ≡ ok 3)
parse-tag_name_run =
    parse-tag_name 2 3 (codes "Integer") (codes "Private") integer_name private_name

abbrev set_pair : Pair
set_pair = record { name = codes "Set"; val = 0x11 }

abbrev one_tag : Mapping
one_tag = record { val_map = (0x11, set_pair) ∷ []; name_map = (codes "set", set_pair) ∷ [] }

abbrev one_alias : Mapping
one_alias = record {
  val_map = (0x11, set_pair) ∷ [];
  name_map = (codes "setof", set_pair) ∷ (codes "set", set_pair) ∷ [];
}

add_set : add (codes "Set") 0x11 empty ≡ ok one_tag
unfolding add lookup_val lookup_name
add_set = refl

alias_set_of : add_alias (codes "Set") (codes "SetOf" ∷ []) one_tag ≡ ok one_alias
unfolding add_alias lookup_name str_eq
alias_set_of = refl

add-IsConsistent_run : IsConsistent one_tag
add-IsConsistent_run = add-IsConsistent empty (codes "Set") 0x11 empty-IsConsistent add_set

one_tag-IsConsistent : IsConsistent one_tag
one_tag-IsConsistent = add-IsConsistent empty (codes "Set") 0x11 empty-IsConsistent add_set

add_alias-IsConsistent_run : IsConsistent one_alias
add_alias-IsConsistent_run =
    add_alias-IsConsistent one_tag (codes "Set") (codes "SetOf" ∷ []) one_tag-IsConsistent
      alias_set_of
