-- ===== src/Mibdb/Index/Tests.antt =====
-- `CreateIndex` at a concrete input. A definition is its OID; the empty one is no object.
use net_mapper.Prelude.{
  ℕ, ◌≡◌, ◌≢◌, refl, none, some, Option, [], ◌∷◌, codes, Bytes, Outcome, ok, inl,
}
use net_mapper.Prelude.Assoc.{Assoc}
use net_mapper.Go.Oid.{Oid}
use net_mapper.Mibdb.OidBranch
use net_mapper.Mibdb.Module.{Module}
use net_mapper.Mibdb.Database.{Database}
use net_mapper.Mibdb.Index.{definition_of, find_oid_in, indexed, create_index}
use net_mapper.Mibdb.Index.Laws.{indexed-DefinesIn, create_index-enough_fuel}

abbrev oid_of : Oid → Option Oid
oid_of [] = none
oid_of (n ∷ ns) = some (n ∷ ns)

abbrev smi : Module Oid
smi = record {
  name = codes "SMI";
  imports = [];
  exports = [];
  definitions = (codes "internet", 1 ∷ 3 ∷ 6 ∷ 1 ∷ []) ∷ (codes "Counter32", []) ∷ [];
}

abbrev modules : Assoc (Module Oid)
modules = (codes "SMI", smi) ∷ []

abbrev db : Database Oid
db = record {
  modules = [];
  filenames = codes "smi.mib" ∷ [];
  root = OidBranch.new_branch;
  definitions = [];
}

indexed-DefinesIn_example :
    (definition_of (indexed oid_of db modules) (codes "internet") ≢ none)
    × ((oid : Oid)
        → oid_of (1 ∷ 3 ∷ 6 ∷ 1 ∷ []) ≡ some oid
        → (find_oid_in (indexed oid_of db modules) oid).1 ≡ [])
indexed-DefinesIn_example =
    indexed-DefinesIn oid_of db modules (codes "internet") (1 ∷ 3 ∷ 6 ∷ 1 ∷ [])
      (inl (inl (refl, refl)))

-- Nothing is to be compiled, and every file has the module.
abbrev compile : ℕ → Assoc (Module Oid) → Bytes → Oid → Option (ℕ × Outcome Bytes Oid)
compile s ms m d = none

abbrev read_file : Assoc (Module Oid) → Bytes → Outcome Bytes (Module Oid)
read_file ms f = ok smi

create_index-enough_fuel_example : create_index oid_of compile read_file 0 db ≢ none
create_index-enough_fuel_example = create_index-enough_fuel oid_of compile read_file 0 db
