-- ===== src/Mibdb/Compile.antt =====
-- compileValues of pkg/snmp/mibdb/module.go on the objects of object.go. `find` is the `Lookup` in the scopes of
-- the module that is compiled, and `meta` is `compileMeta` of an object, as in Mibdb.Object.
pub mod Laws
mod Tests
use net_mapper.Prelude.{ℕ, Option, none, some, Bytes, Outcome, ok, err, panicked}
use net_mapper.Prelude.Assoc.{Assoc}
use net_mapper.Mibdb.Module.{Module}
use net_mapper.Mibdb.Object.{
  LookupError, Definition, object, other, Store, ObjectError, Compiled, compile_value,
}

-- The object stands for itself. Calls that never return fill the stack, which ends the process.
abbrev pub compiled_object :
    {E : Type 0} → ℕ → Store → Compiled E → Store × Outcome (ObjectError E) Definition
compiled_object id s none = (s, panicked)
compiled_object id s (some (s', ok oid)) = (s', ok (object id))
compiled_object id s (some (s', err e)) = (s', err e)
compiled_object id s (some (s', panicked)) = (s', panicked)

-- A definition of another kind is left as it is: either it has no compileValue, or that is taken to succeed,
-- which gives the definition back. The fuel is the number of nested calls that the stack takes.
unfoldable pub compile_definition :
    {E : Type 0}
    → (Bytes → Bytes → Outcome LookupError Definition)
    → (ℕ → Outcome E (Unit {0}))
    → ℕ
    → Store
    → Assoc (Module Definition)
    → Bytes
    → Definition
    → Option (Store × Outcome (ObjectError E) Definition)
compile_definition find meta fuel s modules mo other = none
compile_definition find meta fuel s modules mo (object id) =
    some (compiled_object id s (compile_value (find mo) meta fuel s id))
