-- ===== src/Mibdb/Index/Laws.antt =====
-- `CreateIndex` comes to its end, and its index holds every object.
use net_mapper.Prelude.{
  some-ne-none, ◌≡◌, ◌≢◌, refl, ◌∙◌, sym, arith, Bool-cases, Option-cases, ◌⊎◌, inl, inr, suc, List,
  [], ◌∷◌, append-nil, Option, none, some, Bytes, Outcome, ok, err, panicked, length, str_eq,
  str_eq_refl,
}
use net_mapper.Prelude.Assoc.{Assoc, lookup, put, lookup-put}
use net_mapper.Go.Oid.{Oid}
use net_mapper.Mibdb.OidBranch.{Branch, add_definition, find_oid, def_at}
use net_mapper.Mibdb.OidBranch.Define.{def_at-add_definition}
use net_mapper.Mibdb.OidBranch.Find.{IsLongestMatch, find_oid-IsLongestMatch}
use net_mapper.Mibdb.Module.{Module}
use net_mapper.Mibdb.Database.{Database, compile_values, compile_module, keys, read_definitions}
use net_mapper.Mibdb.Database.Passes.{passes-enough_fuel}
use net_mapper.Mibdb.Database.Files.{read_definitions-enough_fuel}
use net_mapper.Mibdb.Index.{
  index_definition, index_module, index_modules, find_oid_in, indexed, create_index, after_read,
  definition_of,
}

module _ {D : Type 0} (oid_of : D → Option Oid) where
  -- A definition of the module under the name.
  abbrev pub Defines : Assoc D → Bytes → D → Type 0
  Defines [] n d = ⊥
  Defines ((k, e) ∷ ds) n d = (k ≡ n) × (e ≡ d) ⊎ Defines ds n d

  abbrev pub DefinesIn : Assoc (Module D) → Bytes → D → Type 0
  DefinesIn [] n d = ⊥
  DefinesIn ((_, m) ∷ ms) n d = Defines m.definitions n d ⊎ DefinesIn ms n d

  -- What the index has for the name and the OID of a definition.
  record IsIndexed (n : Bytes) (d : D) (i : Branch D × Assoc D) : Type 0 where
    named : lookup n i.1 ≢ none
    placed : (oid : Oid) → oid_of d ≡ some oid → def_at i.0 oid ≢ none

  kept_at :
      (b : Branch D) (p q : Oid) (d : D)
      → def_at b q ≢ none
      → def_at (add_definition b p (some d)) q ≢ none
  kept_at b p q d h e = elim (Bool-cases (str_eq p q)) [
    | inl same ↦ some-ne-none d (rw (def_at-add_definition b p q (some d), same) at e)
    | inr other ↦ h (rw (def_at-add_definition b p q (some d), other) at e)
  ]

  kept_name : (k n : Bytes) (d : D) (m : Assoc D) → lookup n m ≢ none → lookup n (put k d m) ≢ none
  kept_name k n d m h e = elim (Bool-cases (str_eq k n)) [
    | inl same ↦ some-ne-none d (rw (lookup-put k d m n, same) at e)
    | inr other ↦ h (rw (lookup-put k d m n, other) at e)
  ]

  index_definition-kept :
      (n k : Bytes) (d e : D) (i : Branch D × Assoc D)
      → IsIndexed n d i
      → IsIndexed n d (index_definition oid_of k e i)
  unfolding index_definition
  index_definition-kept n k d e (root, ds) h = elim (Option-cases (oid_of e)) [
    | inl is ↦
        rw (is, index_definition) (record { named = kept_name k n e ds h.named; placed = h.placed })
    | inr (oid, is) ↦
        rw (is, index_definition)
          (record {
            named = kept_name k n e ds h.named;
            placed = λ q is_q. kept_at root oid q e (h.placed q is_q);
          })
  ]

  index_definition-new :
      (n : Bytes) (d : D) (i : Branch D × Assoc D) → IsIndexed n d (index_definition oid_of n d i)
  unfolding index_definition
  index_definition-new n d (root, ds) =
      let named : lookup n (put n d ds) ≢ none =
        λ e. some-ne-none d (rw (lookup-put n d ds n, str_eq_refl n) at e) in
      elim (Option-cases (oid_of d)) [
        | inl is ↦
            rw (is, index_definition)
              (record { named = named; placed = λ q is_q. absurd (some-ne-none q (sym is_q ∙ is)) })
        | inr (oid, is) ↦
            rw (is, index_definition)
              (record {
                named = named;
                placed = λ q is_q e.
                    let same : oid ≡ q = cc in
                    some-ne-none d
                      (rw (def_at-add_definition root oid q (some d), same, str_eq_refl q) at e);
              })
      ]

  index_module-kept :
      (n : Bytes) (d : D) (es : Assoc D) (i : Branch D × Assoc D)
      → IsIndexed n d i
      → IsIndexed n d (index_module oid_of es i)
  unfolding index_module
  index_module-kept n d [] i h = h
  index_module-kept n d ((k, e) ∷ es) i h =
      index_module-kept n d es _ (index_definition-kept n k d e i h)

  index_module-new :
      (n : Bytes) (d : D) (es : Assoc D) (i : Branch D × Assoc D)
      → Defines es n d
      → IsIndexed n d (index_module oid_of es i)
  unfolding index_module
  index_module-new n d [] i h = absurd h
  index_module-new n d ((k, e) ∷ es) i (inl (name, same)) =
      rw (name, same) (index_module-kept n d es _ (index_definition-new n d i))
  index_module-new n d ((k, e) ∷ es) i (inr later) = index_module-new n d es _ later

  index_modules-kept :
      (n : Bytes) (d : D) (ms : Assoc (Module D)) (i : Branch D × Assoc D)
      → IsIndexed n d i
      → IsIndexed n d (index_modules oid_of ms i)
  unfolding index_modules
  index_modules-kept n d [] i h = h
  index_modules-kept n d ((k, m) ∷ ms) i h =
      index_modules-kept n d ms _ (index_module-kept n d m.definitions i h)

  index_modules-new :
      (n : Bytes) (d : D) (ms : Assoc (Module D)) (i : Branch D × Assoc D)
      → DefinesIn ms n d
      → IsIndexed n d (index_modules oid_of ms i)
  unfolding index_modules
  index_modules-new n d [] i h = absurd h
  index_modules-new n d ((k, m) ∷ ms) i (inl here) =
      index_modules-kept n d ms _ (index_module-new n d m.definitions i here)
  index_modules-new n d ((k, m) ∷ ms) i (inr later) = index_modules-new n d ms _ later

  -- An OID at which the tree has an object is found with nothing behind it.
  found_whole : (b : Branch D) (oid : Oid) → def_at b oid ≢ none → (find_oid b oid).1 ≡ []
  found_whole b oid h = go _ _ (find_oid-IsLongestMatch b oid)
    where
      go : (c : Branch D) (tail : Oid) → IsLongestMatch b oid c tail → tail ≡ []
      go c [] m = refl
      go c (t ∷ tail) m = absurd (h (m.longest oid [] (sym (append-nil oid)) (omega arith)))

  -- After CreateIndex has indexed the modules, every name that one of them defines is found by
  -- LookupName, and FindOID of the OID of every object that one of them defines leaves nothing
  -- behind the OID.
  pub indexed-DefinesIn :
      (db : Database D) (modules : Assoc (Module D)) (n : Bytes) (d : D)
      → DefinesIn modules n d
      → (definition_of (indexed oid_of db modules) n ≢ none)
        × ((oid : Oid) → oid_of d ≡ some oid → (find_oid_in (indexed oid_of db modules) oid).1 ≡ [])
  indexed-DefinesIn db modules n d h =
      let i = index_modules-new n d modules (db.root, []) h in
      (i.named, λ oid is. found_whole _ oid (i.placed oid is))

module _ {D S E : Type 0} (oid_of : D → Option Oid)
    (compile : S → Assoc (Module D) → Bytes → D → Option (S × Outcome E D))
    (read_file : Assoc (Module D) → Bytes → Outcome E (Module D)) where
  compile_values-enough_fuel :
      (s : S) (modules : Assoc (Module D)) → compile_values compile s modules ≢ none
  unfolding compile_values
  compile_values-enough_fuel s modules =
      passes-enough_fuel (compile_module compile) (suc (length (keys compile modules))) (s, modules)
        (keys compile modules) (omega arith)

  after_read-enough_fuel :
      (s : S) (db : Database D) (r : Assoc (Module D) × Outcome (List E) (Unit {0}))
      → after_read oid_of compile read_file s db r ≢ none
  unfolding after_read
  after_read-enough_fuel s db (modules, err es) h = some-ne-none _ h
  after_read-enough_fuel s db (modules, panicked) h = some-ne-none _ h
  after_read-enough_fuel s db (modules, ok u) h =
      elim (Option-cases (compile_values compile s modules)) [
        | inl none_compiled ↦ compile_values-enough_fuel s modules none_compiled
        | inr (r, is) ↦ some-ne-none _ (rw (is, after_read) at h)
      ]

  -- The loops of readDefintions and compileValues in CreateIndex come to their end: one round more
  -- than there are files, and one more than there are modules, is enough for any results of
  -- reading a file and of compiling a definition, errors and panics included. That each single
  -- call which reads a file or compiles a definition returns is taken for granted.
  pub create_index-enough_fuel :
      (s : S) (db : Database D) → create_index oid_of compile read_file s db ≢ none
  unfolding create_index
  create_index-enough_fuel s db e =
      elim (Option-cases (read_definitions read_file db.filenames db.modules)) [
        | inl none_read ↦ read_definitions-enough_fuel read_file db.filenames db.modules none_read
        | inr (r, is) ↦ after_read-enough_fuel s db r (rw (is, create_index) at e)
      ]
