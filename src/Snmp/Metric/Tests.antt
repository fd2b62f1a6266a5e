-- ===== src/Snmp/Metric/Tests.antt =====
-- Runs of metric.go, and its theorems at concrete inputs.
use net_mapper.Prelude.{
  ℕ, ◌≡◌, refl, true, false, ◌&&◌, some, [], ◌∷◌, ◌++◌, Bytes, codes, str_eq, if◌then◌else◌, ok,
}
use net_mapper.Prelude.Assoc.{lookup, put}
use net_mapper.Snmp.Metric.{
  MetricMeta, Table, MetricValue, MetricBlock, add_metric, add_value, values_or_new, init_block,
  is_new_row, contains, is_label, label_map, label_rows, label_columns, label_text, cut_name,
  find_common_prefix,
}
use net_mapper.Snmp.Metric.Block.{value_at, value_at-add_metric}
use net_mapper.Snmp.Metric.Prefix.{IsLongestCommonPrefix, find_common_prefix-IsLongestCommonPrefix}

abbrev column : ℕ → Bytes → Bytes → ℕ → MetricMeta
column pointer name snake_name flags = record {
  pointer = pointer;
  name = name;
  snake_name = snake_name;
  help = [];
  kind = [];
  flags = flags;
}

abbrev descr : MetricMeta
descr = column 2 (codes "ifDescr") (codes "if_descr") 1

abbrev octets : MetricMeta
octets = column 3 (codes "ifInOctets") (codes "if_in_octets") 0

abbrev table : Table
table = record {
  pointer = 1;
  prefix = codes "if_";
  metric_meta = column 1 (codes "ifEntry") (codes "if_entry") 0;
  index = [];
  columns = octets ∷ descr ∷ [];
}

abbrev lo : MetricValue
lo = record { text = codes "lo"; numeric = false }

abbrev seven : MetricValue
seven = record { text = codes "7"; numeric = true }

abbrev block : MetricBlock
block = add_metric descr (codes "1") lo (init_block (some table))

value_at-add_metric_example :
    value_at (add_metric octets (codes "1") seven block) (codes "ifInOctets") (codes "1") ≡ (
      if str_eq octets.name (codes "ifInOctets") && str_eq (codes "1") (codes "1")
      then some seven
      else value_at block (codes "ifInOctets") (codes "1"))
value_at-add_metric_example =
    value_at-add_metric block octets (codes "1") seven (codes "ifInOctets") (codes "1")

common : find_common_prefix (codes "if_descr") (codes "if_in_octets") ≡ codes "if_"
unfolding find_common_prefix
common = refl

find_common_prefix-IsLongestCommonPrefix_run :
    IsLongestCommonPrefix
      (codes "if_descr")
      (codes "if_in_octets")
      (find_common_prefix (codes "if_descr") (codes "if_in_octets"))
find_common_prefix-IsLongestCommonPrefix_run =
    find_common_prefix-IsLongestCommonPrefix (codes "if_descr") (codes "if_in_octets")

abbrev in_quotes : Bytes → Bytes
in_quotes s = b'"' ∷ s ++ codes "\""

-- The comma is written for every label but one in the first column, also if no label is before it.
comma_first :
    label_map in_quotes (is_new_row (codes "1") block).0
    ≡ ok ((codes "1", codes ",descr=\"lo\"") ∷ [])
unfolding label_map label_rows label_columns label_text cut_name is_label is_new_row contains
    add_metric add_value values_or_new init_block lookup put str_eq
comma_first = refl
