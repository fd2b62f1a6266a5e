-- ===== src/Mibdb/Database.antt =====
-- pkg/snmp/mibdb/database.go, and `compileValues` of module.go: the files, the passes that read and compile
-- their modules, and the index. A map is gone through in the order of its list.
pub mod Passes
pub mod Files
mod Tests
use net_mapper.Prelude.{
  ℕ, zero, suc, ◌+◌, Bool, true, false, not, ◌||◌, List, [], ◌∷◌, ◌++◌, Option, none, some,
}
use net_mapper.Prelude.{
  Bytes, codes, ◌==◌, str_eq, if◌then◌else◌, length, drop, Outcome, ok, err, panicked, ◌>>=◌,
}
use net_mapper.Prelude.Assoc.{Assoc, lookup, put}
use net_mapper.Go.Oid.{Oid}
use net_mapper.Mibdb.OidBranch.{Branch, add_definition, find_oid}
use net_mapper.Mibdb.Module.{Module}

pub record Database (D : Type 0) : Type 0 where
  pub modules : Assoc (Module D)
  pub filenames : List Bytes
  pub root : Branch D
  pub definitions : Assoc D

-- `slices.Contains`
unfoldable pub has_file : List Bytes → Bytes → Bool
has_file [] f = false
has_file (g ∷ gs) f = str_eq g f || has_file gs f

unfoldable pub add_file : List Bytes → List Bytes → List Bytes
add_file [] files = files
add_file (f ∷ fs) files =
    let there = add_file fs files in
    let added = add_file fs (files ++ f ∷ []) in if has_file files f then there else added

-- `strings.HasSuffix`
unfoldable pub has_suffix : Bytes → Bytes → Bool
has_suffix suffix [] = str_eq suffix []
has_suffix suffix (c ∷ cs) = str_eq suffix (c ∷ cs) || has_suffix suffix cs

-- The loop of `AddDirectory` over what `os.ReadDir` returned, names and whether they are directories;
-- `to_lower` is `strings.ToLower` and `clean` is `path.Join` of one argument.
unfoldable pub add_entries :
    (Bytes → Bytes) → (Bytes → Bytes) → Bytes → List (Bytes × Bool) → List Bytes → List Bytes
add_entries to_lower clean dir [] files = files
add_entries to_lower clean dir ((name, is_dir) ∷ entries) files =
    let skipped = add_entries to_lower clean dir entries files in
    let added =
      add_entries to_lower clean dir entries (add_file (clean (dir ++ name) ∷ []) files) in
    if is_dir then skipped else if has_suffix (codes ".mib") (to_lower name) then added else skipped

-- What a pass leaves: the state, what failed with its errors, and how many succeeded.
pub record Pass (S N E : Type 0) : Type 0 where
  pub state : S
  pub failed : List N
  pub errors : List E
  pub successes : ℕ

-- The loops of `compileValues` of the database; `attempt` is `compileValues` of one module. A pass that
-- panics is `none`.
module _ {S N E : Type 0} (attempt : S → N → S × Outcome E (Unit {0})) where
  unfoldable pub after_attempt : N → Pass S N E → S × Outcome E (Unit {0}) → Option (Pass S N E)
  after_attempt n p (s, ok _) = some (record p { state = s; successes = p.successes + 1 })
  after_attempt n p (s, err e) =
      some (record p { state = s; failed = p.failed ++ n ∷ []; errors = p.errors ++ e ∷ [] })
  after_attempt n p (s, panicked) = none

  unfoldable pub one_pass : List N → Pass S N E → Option (Pass S N E)
  unfolding after_attempt
  one_pass [] p = some p
  one_pass (n ∷ ns) p = elim (after_attempt n p (attempt p.state n)) [
    | none ↦ none
    | some p' ↦ one_pass ns p'
  ]

  -- The error list, which is nil for success.
  abbrev result_of : List E → Outcome (List E) (Unit {0})
  result_of [] = ok tt
  result_of (e ∷ es) = err (e ∷ es)

  -- On fuel, which is left at the end of the loop; out of fuel it gives `none`.
  unfoldable pub passes : ℕ → S → List N → Option (S × Outcome (List E) (Unit {0}))
  passes zero s ns = none
  passes (suc fuel) s [] = some (s, ok tt)
  passes (suc fuel) s (n ∷ ns) =
      elim (one_pass (n ∷ ns) (record { state = s; failed = []; errors = []; successes = 0 })) [
        | none ↦ some (s, panicked)
        | some p ↦
            let again = passes fuel p.state p.failed in
            if p.successes == 0 then some (p.state, result_of p.errors) else again
      ]

module _ {D : Type 0} where
  -- `module.definitions[key] = value`
  unfoldable pub put_definition : Bytes → Bytes → D → Assoc (Module D) → Assoc (Module D)
  put_definition mo key v modules = elim (lookup mo modules) [
    | none ↦ modules
    | some m ↦ put mo (record m { definitions = put key v m.definitions }) modules
  ]

module _ {D S E : Type 0} where
  -- `compile` is `compileValue` of a definition that has one, in the module of that name; it sees all
  -- modules, and changes what stands outside of them.
  module _ (compile : S → Assoc (Module D) → Bytes → D → Option (S × Outcome E D)) where
    -- `compileValues` of one module, over the definitions of that module.
    unfoldable pub compile_each :
        Bytes → Assoc D → S × Assoc (Module D) → (S × Assoc (Module D)) × Outcome E (Unit {0})
    compile_each mo [] s = (s, ok tt)
    compile_each mo ((key, d) ∷ ds) (s, modules) = elim (compile s modules mo d) [
      | none ↦ compile_each mo ds (s, modules)
      | some (s', result) ↦ elim result [
        | ok v ↦ compile_each mo ds (s', put_definition mo key v modules)
        | err e ↦ ((s', modules), err e)
        | panicked ↦ ((s', modules), panicked)
      ]
    ]

    unfoldable pub compile_module :
        S × Assoc (Module D) → Bytes → (S × Assoc (Module D)) × Outcome E (Unit {0})
    compile_module (s, modules) mo = elim (lookup mo modules) [
      | none ↦ ((s, modules), ok tt)
      | some m ↦ compile_each mo m.definitions (s, modules)
    ]

    abbrev pub keys : Assoc (Module D) → List Bytes
    keys [] = []
    keys ((k, _) ∷ m) = k ∷ keys m

    -- `compileValues` of the database, with one more unit of fuel than there are modules.
    unfoldable pub compile_values :
        S → Assoc (Module D) → Option ((S × Assoc (Module D)) × Outcome (List E) (Unit {0}))
    compile_values s modules =
        passes compile_module (suc (length (keys modules))) (s, modules) (keys modules)

-- What the passes of `readDefintions` have read so far, and what this one has met.
pub record Reading (D E : Type 0) : Type 0 where
  pub modules : Assoc (Module D)
  pub done : List Bytes
  pub errors : List E
  pub progress : Bool

-- What follows a pass: `again` is the rest of the loop.
unfoldable pub settle :
    {M E : Type 0}
    → Option (M × Outcome (List E) (Unit {0}))
    → M
    → List E
    → Bool
    → Option (M × Outcome (List E) (Unit {0}))
settle again m [] progress = some (m, ok tt)
settle again m (e ∷ es) progress = if progress then again else some (m, err (e ∷ es))

module _ {D E : Type 0} (read_file : Assoc (Module D) → Bytes → Outcome E (Module D)) where
  -- One file; `read_file` is `readModuleFromFile`. A panic is `none`.
  unfoldable pub after_file : Bytes → Reading D E → Outcome E (Module D) → Option (Reading D E)
  after_file f r (ok m) =
      some (record r { modules = put m.name m r.modules; done = r.done ++ f ∷ []; progress = true })
  after_file f r (err e) = some (record r { errors = r.errors ++ e ∷ [] })
  after_file f r panicked = none

  unfoldable pub read_pass : List Bytes → Reading D E → Option (Reading D E)
  read_pass [] r = some r
  read_pass (f ∷ fs) r =
      let skipped = read_pass fs r in
      if has_file r.done f
      then skipped
      else elim (after_file f r (read_file r.modules f)) [ none ↦ none | some r' ↦ read_pass fs r' ]

  -- `for progress`, on fuel.
  unfoldable pub read_loop :
      ℕ → List Bytes → Reading D E → Option (Assoc (Module D) × Outcome (List E) (Unit {0}))
  read_loop zero files r = none
  read_loop (suc fuel) files r =
      elim (read_pass files (record r { errors = []; progress = false })) [
        | none ↦ some (r.modules, panicked)
        | some r' ↦
            let again = read_loop fuel files r' in settle again r'.modules r'.errors r'.progress
      ]

  -- `readDefintions`, with one more unit of fuel than there are files.
  unfoldable pub read_definitions :
      List Bytes → Assoc (Module D) → Option (Assoc (Module D) × Outcome (List E) (Unit {0}))
  read_definitions files modules =
      let start : Reading D E = record {
        modules = modules;
        done = [];
        errors = [];
        progress = true;
      } in
      read_loop (suc (length files)) files start
