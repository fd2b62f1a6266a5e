-- ===== src/Mapper/Target/Laws.antt =====
-- What holds of a target that `NewTarget` returns.
use net_mapper.Prelude.{
  ◌≡◌, refl, ap, ◌∙◌, All, List, [], ◌∷◌, ◌++◌, some, inl, inr, Bytes, codes, str_eq, Bool-cases,
  Outcome, ok, err, panicked, err-ne-ok, some_injective, ok_injective, >>=-eq-ok,
}
use net_mapper.Prelude.Assoc.{Assoc, lookup}
use net_mapper.Framework.Config.{Config}
use net_mapper.Framework.Plugin.{Plugin, PluginError, load_all, find, for_each}
use net_mapper.Framework.Plugin.Laws.{load_all-find}
use net_mapper.Mapper.Target.{
  TargetConfig, Target, TargetError, loading, found, find_reports, check_given, check_none,
  check_publisher, check_publishers, load_target, new_target, bad_report, bad_publisher, no_sources,
  no_reports, publisher_without_report,
}

panicked_not_ok : {E A B : Type 0} {a : A} → ◌≡◌ {A = Outcome E A} panicked (ok a) → B
panicked_not_ok h = cc

loading-ok :
    {E A : Type 0} (wrap : PluginError E → TargetError E) (r : Outcome (PluginError E) A) (a : A)
    → loading wrap r ≡ ok a
    → r ≡ ok a
loading-ok wrap (ok b) a h = ap ok (ok_injective h)
loading-ok wrap (err e) a h = cc
loading-ok wrap panicked a h = cc

check_given-ok :
    {E A : Type 0} (x : TargetError E) (rs : List A) → check_given x rs ≡ ok tt → ¬ (rs ≡ [])
check_given-ok x [] h = absurd (err-ne-ok x tt h)
check_given-ok x (r ∷ rs) h = λ e. cc

check_none-ok :
    {E : Type 0} (name : Bytes) (rs : List Bytes) → check_none {E = E} name rs ≡ ok tt → rs ≡ []
check_none-ok name [] h = refl
check_none-ok name (r ∷ rs) h = cc

-- `Find` returns the report of the name, whose id has the name of the target in front.
abbrev pub IsReport : {R : Type 0} → (E : Type 0) → Bytes → Assoc (Plugin R) → Bytes → Type 0
IsReport {R} E target reports r =
    (q : Plugin R) × (find {E = E} (some reports) r ≡ ok q)
    × (q.id ≡ (codes "report." ++ target) ++ b'.' ∷ r)

module _ {R E : Type 0} where
  found-ok :
      (name r : Bytes) (o : Outcome (PluginError E) (Plugin R))
      → found name r o ≡ ok tt
      → (q : Plugin R) × (o ≡ ok q)
  found-ok name r (ok q) h = (q, refl)
  found-ok name r (err e) h = cc
  found-ok name r panicked h = cc

  find_reports-ok :
      (name target : Bytes) (reports : Assoc (Plugin R)) (rs : List Bytes)
      → ((r : Bytes) (q : Plugin R)
          → find {E = E} (some reports) r ≡ ok q
          → q.id ≡ (codes "report." ++ target) ++ b'.' ∷ r)
      → find_reports {E = E} name reports rs ≡ ok tt
      → All (IsReport E target reports) rs
  unfolding find_reports
  find_reports-ok name target reports [] named h = tt
  find_reports-ok name target reports (r ∷ rs) named h =
      let (u, first, rest) = >>=-eq-ok (found name r (find (some reports) r)) _ h in
      let (q, is) = found-ok name r (find (some reports) r) first in
      ((q, is, named r q is), find_reports-ok name target reports rs named rest)

module _ {R P E : Type 0} where
  check_publishers-ok :
      (reports : Assoc (Plugin R)) (m : Bytes) (q : Plugin P) (publishers : Assoc (Plugin P))
      (result : Outcome (TargetError E) (Unit {0}))
      → check_publisher reports m q ≡ result
      → check_publishers {E = E} reports ((m, q) ∷ publishers) ≡ ok tt
      → (check_publisher {E = E} reports m q ≡ ok tt)
        × (check_publishers {E = E} reports publishers ≡ ok tt)
  unfolding check_publishers for_each
  check_publishers-ok reports m q publishers (ok _) e h =
      (e, rw (e, check_publishers, for_each) at h)
  check_publishers-ok reports m q publishers (err x) e h =
      absurd (err-ne-ok x tt (rw (e, check_publishers, for_each) at h))
  check_publishers-ok reports m q publishers panicked e h =
      panicked_not_ok (rw (e, check_publishers, for_each) at h)

  check_publishers_lem :
      (reports : Assoc (Plugin R)) (publishers : Assoc (Plugin P))
      → check_publishers {E = E} reports publishers ≡ ok tt
      → (n : Bytes) (p : Plugin P) → lookup n publishers ≡ some p
      → (m : Bytes) × (check_publisher {E = E} reports m p ≡ ok tt)
  unfolding lookup
  check_publishers_lem reports [] h n p is = cc
  check_publishers_lem reports ((m, q) ∷ publishers) h n p is =
      let (first, rest) = check_publishers-ok reports m q publishers _ refl h in
      elim (Bool-cases (str_eq m n)) [
        | inl e ↦ let same : q ≡ p = some_injective (rw e at is) in (m, rw same at first)
        | inr e ↦ check_publishers_lem reports publishers rest n p (rw e at is)
      ]

  check_publisher-ok :
      (reports : Assoc (Plugin R)) (target m : Bytes) (p : Plugin P)
      → ((r : Bytes) (q : Plugin R)
          → find {E = E} (some reports) r ≡ ok q
          → q.id ≡ (codes "report." ++ target) ++ b'.' ∷ r)
      → check_publisher {E = E} reports m p ≡ ok tt
      → ¬ (p.reports ≡ []) × All (IsReport E target reports) p.reports × (p.sources ≡ [])
  unfolding check_publisher
  check_publisher-ok reports target m p named h =
      let (u, some_reports, rest) =
        >>=-eq-ok (check_given (publisher_without_report m) p.reports) _ h in
      let (v, known, no_source) = >>=-eq-ok (find_reports m reports p.reports) _ rest in
      (
        check_given-ok (publisher_without_report m) p.reports some_reports,
        find_reports-ok m target reports p.reports named known,
        check_none-ok m p.sources no_source,
      )

  module _ (new_report : Bytes → Config → Outcome E R)
      (new_publisher : Bytes → Config → Outcome E P) (config : TargetConfig) where
    load_target-ok :
        (t : Target R P)
        → load_target new_report new_publisher config ≡ ok t
        → (load_all new_report 25 (codes "report." ++ config.name) [] config.report ≡ ok t.report)
          × (check_publishers {E = E} t.report t.publisher ≡ ok tt)
    unfolding load_target
    load_target-ok t h =
        let (reports, first, rest) =
          >>=-eq-ok
            (loading bad_report
              (load_all new_report 25 (codes "report." ++ config.name) [] config.report))
            _ h in
        let (publishers, second, rest2) =
          >>=-eq-ok
            (loading bad_publisher
              (load_all new_publisher 38 (codes "publisher." ++ config.name) [] config.publisher))
            _ rest in
        let (u, checked, last) = >>=-eq-ok (check_publishers reports publishers) _ rest2 in
        let same_reports : reports ≡ t.report = ap (λ x. x.report) (ok_injective last) in
        let same_publishers : publishers ≡ t.publisher =
          ap (λ x. x.publisher) (ok_injective last) in
        (
          loading-ok bad_report _ t.report (first ∙ ap ok same_reports),
          rw (← same_reports, ← same_publishers) checked,
        )

    new_target-load_target :
        (t : Target R P)
        → new_target new_report new_publisher config ≡ ok t
        → load_target new_report new_publisher config ≡ ok t
    unfolding new_target
    new_target-load_target t h =
        let (_, _, rest) = >>=-eq-ok (check_given no_sources config.source) _ h in
        let (_, _, loaded) = >>=-eq-ok (check_given no_reports config.report) _ rest in loaded

  -- Of a target that NewTarget returns, a publisher that is found by name in its map names at
  -- least one report and has no sources. Each of the names that it has for reports is that of a
  -- report that Find returns, whose id is the word report, the name of the target and the name,
  -- with dots between them.
  pub new_target-IsReport :
      (new_report : Bytes → Config → Outcome E R) (new_publisher : Bytes → Config → Outcome E P)
      (config : TargetConfig) (t : Target R P)
      → new_target new_report new_publisher config ≡ ok t
      → (n : Bytes) (p : Plugin P) → lookup n t.publisher ≡ some p
      → ¬ (p.reports ≡ []) × All (IsReport E config.name t.report) p.reports × (p.sources ≡ [])
  new_target-IsReport new_report new_publisher config t h n p is =
      let (loaded, checked) =
        load_target-ok new_report new_publisher config t
          (new_target-load_target new_report new_publisher config t h) in
      let (m, good) = check_publishers_lem t.report t.publisher checked n p is in
      let (size, named) =
        load_all-find new_report 25 (codes "report." ++ config.name) config.report t.report
          loaded in
      check_publisher-ok t.report config.name m p named good
