-- ===== src/Snmp/Queue/Tests.antt =====
-- A run of `queueLine` and `Flush`, and their theorem at a concrete input. The writer keeps the lines.
use net_mapper.Prelude.{
  ◌≡◌, ◌≢◌, refl, Bool, true, false, none, some, Option, List, [], ◌∷◌, ◌++◌, Bytes, codes, str_eq,
  ok, panicked,
}
use net_mapper.Prelude.Assoc.{lookup, put}
use net_mapper.Go.Decimal.{itoa, digits, oid_text}
use net_mapper.Snmp.Metric.{
  MetricMeta, Table, MetricValue, add_metric, init_block, add_value, values_or_new, is_new_row,
  contains, label_map, is_label,
}
use net_mapper.Snmp.Printer.{
  MetricPrinter, new_metric_printer, flush, print_metrics, print_table, carry_on, print_values,
  print_metric_row, write_header, write_all, written,
}
use net_mapper.Snmp.Queue.{
  queue_line, queue_next, next_block, flushed, other_meta, other_table, queue_value, queue_last,
  indexed_row, add_index,
}
use net_mapper.Snmp.Queue.Invariant
use net_mapper.Snmp.Queue.Invariant.{IsPrinter, flush-IsPrinter}

abbrev write : List Bytes → Bytes → List Bytes × Bool
write lines line = (lines ++ line ∷ [], false)

abbrev quote : Bytes → Bytes
quote s = b'"' ∷ s ++ codes "\""

abbrev uptime : MetricMeta
uptime = record {
  pointer = 1;
  name = codes "sysUpTime";
  snake_name = codes "sys_up_time";
  help = [];
  kind = codes "GAUGE";
  flags = 0;
}

abbrev object_meta : Bytes → Option MetricMeta
object_meta name = none

abbrev seven : MetricValue
seven = record { text = codes "7"; numeric = true }

abbrev printer : MetricPrinter
printer = (queue_line write quote object_meta uptime none (0 ∷ []) seven new_metric_printer []).0.0

printed :
    flush write quote printer.metric_block ([], false)
    ≡ ((codes "# TYPE sys_up_time GAUGE\n" ∷ codes "sys_up_time 7\n" ∷ [], true), ok 1)
unfolding queue_line queue_next next_block flushed flush label_map print_metrics print_table
    carry_on other_meta other_table queue_value queue_last indexed_row add_index is_new_row contains
    add_metric add_value values_or_new init_block lookup put str_eq oid_text itoa digits
    print_values print_metric_row write_header write_all written is_label
printed = refl

no_table : (table : Table) → printer.metric_block.table ≡ some table → ⊥
unfolding queue_line queue_next next_block flushed flush label_map print_metrics print_table
    carry_on other_meta other_table queue_value queue_last indexed_row add_index is_new_row contains
    add_metric add_value values_or_new init_block lookup put str_eq oid_text itoa digits
no_table table h = cc

flush-IsPrinter_example :
    (flush write quote printer.metric_block ([], printer.header_printed)).1 ≢ panicked
flush-IsPrinter_example =
    flush-IsPrinter write quote object_meta printer []
      (Invariant.queued new_metric_printer uptime none (0 ∷ []) seven [] Invariant.fresh)
      (λ table h. absurd (no_table table h))
