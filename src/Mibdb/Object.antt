-- ===== src/Mibdb/Object.antt =====
-- pkg/snmp/mibdb/object.go: the object identifiers of a MIB, and the `Lookup` of definition.go by which
-- they find each other. Objects are shared and compiled in place, so they stand in a store by their number.
-- `compileValue` calls itself for the objects that it names and keeps no trace of those that it is in,
-- so it takes fuel; `none` is a call that has not ended.
pub mod Resolve
mod Tests
use net_mapper.Prelude.{
  ℕ, zero, suc, Bool, true, false, List, [], ◌∷◌, ◌++◌, Option, none, some, Bytes, codes, ◌==◌,
  str_eq, if◌then◌else◌, Outcome, ok, err, panicked,
}
use net_mapper.Go.Oid.{Oid}
use net_mapper.Go.Decimal.{parse_int}

-- `D` stands for the definitions of a Go interface, and `as_type` for the assertion of the wanted type.
pub data LookupError : Type 0 where
  unknown_definition wrong_type : Bytes → LookupError

module _ {E D A : Type 0} where
  -- The scopes, the innermost one first. One that fails or has no definition is passed over.
  unfoldable pub lookup_scopes :
      (D → Option A) → List (Bytes → Outcome E (Option D)) → Bytes → Outcome LookupError A
  lookup_scopes as_type [] name = err (unknown_definition name)
  lookup_scopes as_type (scope ∷ scopes) name = elim (scope name) [
    | ok (some d) ↦ elim (as_type d) [ none ↦ err (wrong_type name) | some a ↦ ok a ]
    | ok none ↦ lookup_scopes as_type scopes name
    | err _ ↦ lookup_scopes as_type scopes name
    | panicked ↦ panicked
  ]

pub record Object : Type 0 where
  pub name : Bytes
  pub elements : List Bytes
  pub compiled : Oid

-- What a name of an element stands for: the object of a number, or a definition of another kind.
pub data Definition : Type 0 where
  object : ℕ → Definition
  other : Definition

abbrev pub Store : Type 0
Store = ℕ → Object

-- `object.compiled = oid` for the object of the number.
unfoldable pub set_compiled : ℕ → Oid → Store → Store
set_compiled id oid s i = if i == id then record (s i) { compiled = oid } else s i

pub data ObjectError (E : Type 0) : Type 0 where
  meta_failed : E → ObjectError E
  not_found : LookupError → ObjectError E
  not_an_object : Bytes → ObjectError E

abbrev pub Compiled : Type 0 → Type 0
Compiled E = Option (Store × Outcome (ObjectError E) Oid)

module _ {E : Type 0} where
  -- What follows a call that may not have ended, or have failed.
  abbrev pub and_then : Compiled E → (Store → Oid → Compiled E) → Compiled E
  and_then none f = none
  and_then (some (s, ok oid)) f = f s oid
  and_then (some (s, err e)) f = some (s, err e)
  and_then (some (s, panicked)) f = some (s, panicked)

  -- `find` is the `Lookup` in the scopes of the first module, `compile` the call of `compileValue` for
  -- another object.
  module _ (find : Bytes → Outcome LookupError Definition) (compile : Store → ℕ → Compiled E) where
    unfoldable pub compile_name : Store → Bytes → Compiled E
    compile_name s name = elim (find name) [
      | err e ↦ some (s, err (not_found e))
      | panicked ↦ some (s, panicked)
      | ok other ↦ some (s, err (not_an_object name))
      | ok (object id) ↦ compile s id
    ]

    -- The loop over the elements, with what `object.compiled` has got so far. A name drops that, and it is
    -- empty while the object of the name is compiled.
    unfoldable pub compile_elements : List Bytes → Store → Oid → Compiled E
    compile_elements [] s acc = some (s, ok acc)
    compile_elements (element ∷ elements) s acc = elim (parse_int 64 element) [
      | some n ↦ compile_elements elements s (acc ++ n ∷ [])
      | none ↦
          if str_eq element (codes "iso")
          then compile_elements elements s (1 ∷ [])
          else and_then (compile_name s element) (λ s' oid. compile_elements elements s' oid)
    ]

  abbrev store_compiled : ℕ → Compiled E → Compiled E
  store_compiled id called = and_then called (λ s oid. some (set_compiled id oid s, ok oid))

  -- `meta` is `compileMeta` of an object.
  module _ (find : Bytes → Outcome LookupError Definition) (meta : ℕ → Outcome E (Unit {0})) where
    unfoldable pub compile_value : ℕ → Store → ℕ → Compiled E
    compile_value zero s id = none
    compile_value (suc fuel) s id = elim (meta id) [
      | err e ↦ some (s, err (meta_failed e))
      | panicked ↦ some (s, panicked)
      | ok _ ↦ elim (s id).compiled [
        | (n ∷ ns) ↦ some (s, ok (n ∷ ns))
        | [] ↦ store_compiled id (compile_elements find (compile_value fuel) (s id).elements s [])
      ]
    ]
