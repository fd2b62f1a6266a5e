-- ===== src/Mibdb/Database/Tests.antt =====
-- Runs of the passes of database.go.
use net_mapper.Prelude.{
  ℕ, ◌≡◌, refl, Bool, true, false, some, [], ◌∷◌, codes, str_eq, Outcome, ok, err, if◌then◌else◌,
}
use net_mapper.Mibdb.Database.{
  passes, one_pass, after_attempt, add_file, has_file, add_entries, has_suffix,
}

-- Of two modules the one called `true` needs the other; the state is whether that one is compiled.
abbrev attempt : Bool → Bool → Bool × Outcome ℕ (Unit {0})
attempt compiled true = (compiled, if compiled then ok tt else err 1)
attempt compiled false = (true, ok tt)

-- A module that needs what no one compiles is left with its error.
left : passes attempt 3 false (true ∷ []) ≡ some (false, err (1 ∷ []))
unfolding passes one_pass after_attempt
left = refl

added_once :
    add_file (codes "a.mib" ∷ codes "b.mib" ∷ codes "a.mib" ∷ []) []
    ≡ codes "a.mib" ∷ codes "b.mib" ∷ []
unfolding add_file has_file str_eq
added_once = refl

-- The name of the directory is put in front of the name of a file without a slash.
no_slash :
    add_entries (λ s. s) (λ s. s) (codes "mibs") ((codes "a.mib", false) ∷ []) []
    ≡ codes "mibsa.mib" ∷ []
unfolding add_entries add_file has_file has_suffix str_eq
no_slash = refl
