-- ===== src/Mibdb/Compile/Tests.antt =====
-- Two modules: `org` is iso and 3, `dod` of the other module is org and 6, and `Text` is no object.
use net_mapper.Prelude.{
  ℕ, zero, suc, List, [], ◌∷◌, Bytes, codes, str_eq, if◌then◌else◌, Outcome, ok, err,
}
use net_mapper.Prelude.Assoc.{Assoc}
use net_mapper.Mibdb.Module.{Module}
use net_mapper.Mibdb.Object.{LookupError, unknown_definition, Definition, object, other, Store}

abbrev elements_of : ℕ → List Bytes
elements_of zero = codes "iso" ∷ codes "3" ∷ []
elements_of (suc zero) = codes "org" ∷ codes "6" ∷ []
elements_of (suc (suc _)) = []

abbrev store : Store
store i = record { name = []; elements = elements_of i; compiled = [] }

abbrev known_names : Bytes → Outcome LookupError Definition
known_names name =
    if str_eq name (codes "org") then ok (object 0) else err (unknown_definition name)

abbrev meta : ℕ → Outcome ℕ (Unit {0})
meta i = ok tt

abbrev rank : ℕ → ℕ
rank zero = 0
rank (suc _) = 1

abbrev org_module : Module Definition
org_module = record {
  name = codes "ORG";
  imports = [];
  exports = [];
  definitions = (codes "org", object 0) ∷ (codes "Text", other) ∷ [];
}

abbrev dod_module : Module Definition
dod_module = record {
  name = codes "DOD";
  imports = [];
  exports = [];
  definitions = (codes "dod", object 1) ∷ [];
}

abbrev modules : Assoc (Module Definition)
modules = (codes "DOD", dod_module) ∷ (codes "ORG", org_module) ∷ []
