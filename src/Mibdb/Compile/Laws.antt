-- ===== src/Mibdb/Compile/Laws.antt =====
-- compileValues of the database compiles all objects.
use net_mapper.Prelude.{ℕ, ◌≡◌, List, Option, none, some, Bytes, All, Outcome}
use net_mapper.Prelude.Assoc.{Assoc, lookup}
use net_mapper.Go.Oid.{Oid}
use net_mapper.Mibdb.Module.{Module}
use net_mapper.Mibdb.Object.{LookupError, Definition, object, other, Store}
use net_mapper.Mibdb.Object.Resolve.{HasOid}

-- Every entry is the one that is found under its name.
abbrev pub IsMap : Assoc Definition → Type 0
IsMap ds = All (λ e. lookup e.0 ds ≡ some e.1) ds

-- The OID of an object is the one that its elements mean.
module _ (names : Bytes → Outcome LookupError Definition) (elements_of : ℕ → List Bytes) where
  abbrev pub IsCompiled : Store → Definition → Type 0
  IsCompiled s (object id) = HasOid names elements_of id (s id).compiled
  IsCompiled s other = Unit

  abbrev pub AreCompiled : Store → Option (Module Definition) → Type 0
  AreCompiled s none = Unit
  AreCompiled s (some m) = All (λ e. IsCompiled s e.1) m.definitions
