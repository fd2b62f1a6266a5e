-- ===== src/Mapper/Target.antt =====
-- cmd/dsnet-mapper/targets.go: the checks of a target. `R` and `P` are the reports and publishers that the two
-- factories make.
pub mod Laws
mod Tests
use net_mapper.Prelude.{List, [], ◌∷◌, ◌++◌, some, Bytes, codes, Outcome, ok, err, panicked, ◌>>=◌}
use net_mapper.Prelude.Assoc.{Assoc}
use net_mapper.Framework.Config.{Config}
use net_mapper.Framework.Plugin.{Plugin, PluginError, load_all, find, for_each}

pub record TargetConfig : Type 0 where
  pub name : Bytes
  pub source : List Bytes
  pub report : List Config
  pub publisher : List Config

pub record Target (R P : Type 0) : Type 0 where
  pub name : Bytes
  pub source : List Bytes
  pub report : Assoc (Plugin R)
  pub publisher : Assoc (Plugin P)

pub data TargetError (E : Type 0) : Type 0 where
  no_sources : TargetError E
  no_reports : TargetError E
  bad_report : PluginError E → TargetError E
  bad_publisher : PluginError E → TargetError E
  publisher_without_report : Bytes → TargetError E
  unknown_report : Bytes → Bytes → TargetError E
  publisher_with_sources : Bytes → TargetError E

module _ {E : Type 0} where
  -- `LoadAll`, with its error as that of a target.
  abbrev pub loading :
      {A : Type 0}
      → (PluginError E → TargetError E)
      → Outcome (PluginError E) A
      → Outcome (TargetError E) A
  loading wrap (ok a) = ok a
  loading wrap (err e) = err (wrap e)
  loading wrap panicked = panicked

  -- The error, for an empty list.
  abbrev pub check_given :
      {A : Type 0} → TargetError E → List A → Outcome (TargetError E) (Unit {0})
  check_given e [] = err e
  check_given e (_ ∷ _) = ok tt

  abbrev pub check_none : Bytes → List Bytes → Outcome (TargetError E) (Unit {0})
  check_none name [] = ok tt
  check_none name (_ ∷ _) = err (publisher_with_sources name)

module _ {R E : Type 0} where
  abbrev pub found :
      Bytes → Bytes → Outcome (PluginError E) (Plugin R) → Outcome (TargetError E) (Unit {0})
  found name report (ok _) = ok tt
  found name report (err _) = err (unknown_report name report)
  found name report panicked = panicked

  unfoldable pub find_reports :
      Bytes → Assoc (Plugin R) → List Bytes → Outcome (TargetError E) (Unit {0})
  find_reports name reports [] = ok tt
  find_reports name reports (r ∷ rs) =
      found name r (find (some reports) r) >>= λ _. find_reports name reports rs

module _ {R P E : Type 0} where
  -- The function that `NewTarget` gives to `ForEach`.
  unfoldable pub check_publisher :
      Assoc (Plugin R) → Bytes → Plugin P → Outcome (TargetError E) (Unit {0})
  check_publisher reports name p = check_given (publisher_without_report name) p.reports >>= λ _.
      find_reports name reports p.reports >>= λ _. check_none name p.sources

  unfoldable pub check_publishers :
      Assoc (Plugin R) → Assoc (Plugin P) → Outcome (TargetError E) (Unit {0})
  check_publishers reports publishers =
      (for_each (λ s name p. (s, check_publisher reports name p)) publishers tt).1

  module _ (new_report : Bytes → Config → Outcome E R)
      (new_publisher : Bytes → Config → Outcome E P) where
    -- What follows the checks that there are sources and reports.
    unfoldable pub load_target : TargetConfig → Outcome (TargetError E) (Target R P)
    load_target config =
        loading bad_report
          (load_all new_report 25 (codes "report." ++ config.name) [] config.report)
        >>= λ reports.
            loading bad_publisher
              (load_all new_publisher 38 (codes "publisher." ++ config.name) [] config.publisher)
            >>= λ publishers. check_publishers reports publishers >>= λ _. ok (record {
              name = config.name;
              source = config.source;
              report = reports;
              publisher = publishers;
            })

    unfoldable pub new_target : TargetConfig → Outcome (TargetError E) (Target R P)
    new_target config = check_given no_sources config.source >>= λ _.
        check_given no_reports config.report >>= λ _. load_target config
