-- ===== src/Mibdb/Index.antt =====
-- `CreateIndex`, `FindOID` and `LookupName` of pkg/snmp/mibdb/database.go.
pub mod Laws
mod Tests
use mathlib.Core.Option.{map as option_map}
use net_mapper.Prelude.{List, [], ◌∷◌, Option, none, some, Bytes, Outcome, ok, err, panicked}
use net_mapper.Prelude.Assoc.{Assoc, lookup, put}
use net_mapper.Go.Oid.{Oid}
use net_mapper.Mibdb.OidBranch.{Branch, add_definition, find_oid}
use net_mapper.Mibdb.Module.{Module}
use net_mapper.Mibdb.Database.{Database, compile_values, read_definitions}

-- The end of `CreateIndex`; `oid_of` is the compiled OID of a definition that is an object.
module _ {D : Type 0} (oid_of : D → Option Oid) where
  unfoldable pub index_definition : Bytes → D → Branch D × Assoc D → Branch D × Assoc D
  index_definition name d (root, ds) = elim (oid_of d) [
    | none ↦ (root, put name d ds)
    | some oid ↦ (add_definition root oid (some d), put name d ds)
  ]

  unfoldable pub index_module : Assoc D → Branch D × Assoc D → Branch D × Assoc D
  index_module [] i = i
  index_module ((name, d) ∷ ds) i = index_module ds (index_definition name d i)

  unfoldable pub index_modules : Assoc (Module D) → Branch D × Assoc D → Branch D × Assoc D
  index_modules [] i = i
  index_modules ((_, m) ∷ ms) i = index_modules ms (index_module m.definitions i)

  abbrev pub indexed : Database D → Assoc (Module D) → Database D
  indexed db modules =
      let (root, ds) = index_modules modules (db.root, []) in
      record db { modules = modules; root = root; definitions = ds }

-- `FindOID` and `LookupName`.
abbrev pub find_oid_in : {D : Type 0} → Database D → Oid → Branch D × Oid
find_oid_in db oid = find_oid db.root oid

abbrev pub definition_of : {D : Type 0} → Database D → Bytes → Option D
definition_of db name = lookup name db.definitions

-- `CreateIndex`: the database after it with the rest of the state, and the errors. `none` is out of fuel.
module _ {D S E : Type 0} (oid_of : D → Option Oid)
    (compile : S → Assoc (Module D) → Bytes → D → Option (S × Outcome E D))
    (read_file : Assoc (Module D) → Bytes → Outcome E (Module D)) where
  unfoldable pub after_compile :
      Database D
      → (S × Assoc (Module D)) × Outcome (List E) (Unit {0})
      → S × Database D × Outcome (List E) (Unit {0})
  after_compile db ((s, modules), ok _) = (s, indexed oid_of db modules, ok tt)
  after_compile db ((s, modules), err es) = (s, record db { modules = modules }, err es)
  after_compile db ((s, modules), panicked) = (s, record db { modules = modules }, panicked)

  unfoldable pub after_read :
      S
      → Database D
      → Assoc (Module D) × Outcome (List E) (Unit {0})
      → Option (S × Database D × Outcome (List E) (Unit {0}))
  unfolding after_compile
  after_read s db (modules, err es) = some (s, record db { modules = modules }, err es)
  after_read s db (modules, panicked) = some (s, record db { modules = modules }, panicked)
  after_read s db (modules, ok _) = option_map (after_compile db) (compile_values compile s modules)

  unfoldable pub create_index :
      S → Database D → Option (S × Database D × Outcome (List E) (Unit {0}))
  unfolding after_read
  create_index s db = elim (read_definitions read_file db.filenames db.modules) [
    | none ↦ none
    | some r ↦ after_read s db r
  ]
