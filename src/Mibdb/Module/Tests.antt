-- ===== src/Mibdb/Module/Tests.antt =====
-- Runs of module.go, and its theorems at concrete inputs.
use net_mapper.Prelude.{
  none, true, false, All, ℕ, ◌≡◌, refl, some, List, [], ◌∷◌, ◌++◌, Bytes, codes, ok, str_eq,
}
use net_mapper.Prelude.Assoc.{Assoc, lookup, put}
use net_mapper.Mibtoken.Token.{Source, Token, is_text}
use net_mapper.Mibdb.Module
use net_mapper.Mibdb.Module.{
  Module, Reference, read_imports, export_tokens, exports_of, export_all, lookup_name,
}
use net_mapper.Mibdb.Module.Laws.{
  clause_origin, Group, write_imports, read_imports-write_imports, IsFound, lookup_name-IsFound,
}

abbrev here : Source
here = record { filename = codes "IF-MIB"; line = 1; column = 1 }

abbrev token : Bytes → Token
token s = record { value = s; position = here }

-- IMPORTS Counter32, Gauge32 FROM SNMPv2-SMI mib-2 FROM RFC1213-MIB;
abbrev import_list : List Group
import_list =
    record {
      first = token (codes "Counter32");
      others = token (codes "Gauge32") ∷ [];
      from = token (codes "SNMPv2-SMI");
    }
    ∷ record { first = token (codes "mib-2"); others = []; from = token (codes "RFC1213-MIB") }
    ∷ []

plain :
    All
      (λ t. is_text t (codes ";") ≡ false)
      (write_imports (token (codes ",")) (token (codes "FROM")) import_list)
unfolding is_text str_eq
plain = (refl, (refl, (refl, (refl, (refl, (refl, (refl, (refl, tt))))))))

ends : is_text (token (codes ";")) (codes ";") ≡ true
unfolding is_text str_eq
ends = refl

read_imports-write_imports_example :
    (imports : Assoc Reference) × (read_imports (record {
      origin = here;
      elements =
          write_imports (token (codes ",")) (token (codes "FROM")) import_list
          ++ token (codes ";") ∷ [];
    })
      ≡ (record { origin = here; elements = [] }, ok imports))
    × ((name : Bytes) → lookup name imports ≡ clause_origin name import_list none)
read_imports-write_imports_example =
    read_imports-write_imports (token (codes ",")) (token (codes "FROM")) refl refl here import_list
      (token (codes ";")) [] plain ends

imported :
    clause_origin (codes "RFC1213-MIB.mib-2") import_list none
    ≡ some (record { item = codes "mib-2"; module_name = codes "RFC1213-MIB" })
unfolding str_eq
imported = refl

-- A definition is a number here.
abbrev built_in : Module ℕ
built_in = record {
  name = codes "<builtin>";
  imports = [];
  exports = [];
  definitions = (codes "iso", 1) ∷ [];
}

abbrev if_mib : Module ℕ
if_mib = record {
  name = codes "IF-MIB";
  imports = [];
  exports = [];
  definitions = (codes "ifIndex", 2) ∷ [];
}

abbrev modules : Assoc (Module ℕ)
modules = (codes "<builtin>", built_in) ∷ (codes "IF-MIB", if_mib) ∷ []

has_built_in : lookup Module.built_in_name modules ≡ some built_in
unfolding lookup str_eq
has_built_in = refl

lookup_name-IsFound_run : IsFound if_mib (codes "iso") (lookup_name modules if_mib (codes "iso"))
lookup_name-IsFound_run = lookup_name-IsFound modules built_in has_built_in if_mib (codes "iso")

exported : exports_of if_mib ≡ ok ((codes "ifIndex", 2) ∷ (codes "IF-MIB.ifIndex", 2) ∷ [])
unfolding exports_of export_all put str_eq
exported = refl
