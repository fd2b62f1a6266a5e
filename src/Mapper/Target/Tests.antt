-- ===== src/Mapper/Target/Tests.antt =====
-- A target of one report and one publisher. An implementation is its kind.
use net_mapper.Prelude.{ℕ, ◌≡◌, refl, All, [], ◌∷◌, some, Bytes, codes, str_eq, Outcome, ok}
use net_mapper.Prelude.Assoc.{lookup, put}
use net_mapper.Go.Decimal.{itoa, digits}
use net_mapper.Framework.{variations_of, has_last}
use net_mapper.Framework.Config
use net_mapper.Framework.Config.{
  Config, as_string, as_strings, as_elements, as_element, consume_first, consume_arg,
  consume_optional_arg, delete,
}
use net_mapper.Framework.Plugin.{
  Plugin, load_all, load, load_named, make_plugin, making, read_name, read_kind, read_list, find,
  for_each,
}
use net_mapper.Mapper.Target.{
  TargetConfig, Target, find_reports, check_publisher, check_publishers, load_target, new_target,
}
use net_mapper.Mapper.Target.Laws.{IsReport, new_target-IsReport}

abbrev factory : Bytes → Config → Outcome ℕ Bytes
factory kind rest = ok kind

abbrev config : TargetConfig
config = record {
  name = codes "t";
  source = codes "lan" ∷ [];
  report = ((codes "name", Config.one (Config.text (codes "r"))) ∷ []) ∷ [];
  publisher =
      ((codes "kind", Config.one (Config.text (codes "log")))
        ∷ (codes "report", Config.one (Config.text (codes "r")))
        ∷ [])
      ∷ [];
}

abbrev log_plugin : Plugin Bytes
log_plugin = record {
  id = codes "publisher.t.#1";
  kind = codes "log";
  sources = [];
  reports = codes "r" ∷ [];
  impl = codes "log";
}

abbrev target : Target Bytes Bytes
target = record {
  name = codes "t";
  source = codes "lan" ∷ [];
  report =
      (
        codes "r",
        record {
          id = codes "report.t.r";
          kind = codes "default";
          sources = [];
          reports = [];
          impl = codes "default";
        },
      )
      ∷ [];
  publisher = (codes "#1", log_plugin) ∷ [];
}

target_run : new_target factory factory config ≡ ok target
unfolding new_target load_target check_publishers check_publisher find_reports for_each find
    load_all load load_named make_plugin making read_name read_kind read_list consume_arg
    consume_optional_arg consume_first as_string as_strings as_elements as_element delete
    variations_of has_last lookup put str_eq itoa digits
target_run = refl

log_found : lookup (codes "#1") target.publisher ≡ some log_plugin
unfolding lookup str_eq
log_found = refl

new_target-IsReport_example :
    ¬ (log_plugin.reports ≡ [])
    × All (IsReport ℕ (codes "t") target.report) log_plugin.reports
    × (log_plugin.sources ≡ [])
new_target-IsReport_example =
    new_target-IsReport factory factory config target target_run (codes "#1") log_plugin log_found
