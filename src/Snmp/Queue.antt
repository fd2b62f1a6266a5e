-- ===== src/Snmp/Queue.antt =====
-- pkg/snmp/decoder.go: how a `MetricPrinter` puts a value into its block. `object_meta` gives the meta data
-- of the object that the database has under a name, if it has one.
pub mod Invariant
mod Tests
use net_mapper.Prelude.{
  Bool, true, false, not, ◌&&◌, ◌==◌, ℕ, List, [], ◌∷◌, Option, none, some, Bytes, if◌then◌else◌,
  Outcome, ok, err, panicked,
}
use net_mapper.Go.Oid.{Oid}
use net_mapper.Go.Decimal.{itoa, oid_text}
use net_mapper.Snmp.Metric.{
  MetricMeta, Table, MetricValue, MetricBlock, is_new_row, add_metric, init_block,
}
use net_mapper.Snmp.Printer.{MetricPrinter, PrintError, truncated, flush}

-- `Unmarshal`, whose default takes one element of the index.
unfoldable pub unmarshal_index : Oid → Outcome PrintError (MetricValue × Oid)
unmarshal_index [] = err truncated
unmarshal_index (n ∷ rest) = ok (record { text = itoa n; numeric = true }, rest)

-- `printer.metricBlock.table != table || table == nil`
unfoldable pub other_table : Option Table → Option Table → Bool
other_table old none = true
other_table none (some t) = true
other_table (some o) (some t) = not (o.pointer == t.pointer)

unfoldable pub other_meta : Option ℕ → MetricMeta → Bool
other_meta none meta = true
other_meta (some p) meta = not (p == meta.pointer)

-- What follows a `Flush`: the new block, or the error.
unfoldable pub flushed :
    {W : Type 0}
    → MetricMeta
    → Option Table
    → MetricPrinter
    → (W × Bool) × Outcome PrintError ℕ
    → (MetricPrinter × W) × Outcome PrintError (Unit {0})
flushed meta table p ((w, printed), err e) = ((record p { header_printed = printed }, w), err e)
flushed meta table p ((w, printed), panicked) =
    ((record p { header_printed = printed }, w), panicked)
flushed meta table p ((w, printed), ok _) = (
  (
    record {
      last_printed_meta = some meta.pointer;
      metric_block = init_block table;
      header_printed = printed;
    },
    w,
  ),
  ok tt,
)

module _ {W : Type 0} (write : W → Bytes → W × Bool) where
  -- The start of `queueLine`: another metric that is not of the same table starts a new block.
  unfoldable pub next_block :
      (Bytes → Bytes)
      → MetricMeta
      → Option Table
      → MetricPrinter
      → W
      → (MetricPrinter × W) × Outcome PrintError (Unit {0})
  next_block quote meta table p w =
      if other_meta p.last_printed_meta meta && other_table p.metric_block.table table
      then flushed meta table p (flush write quote p.metric_block (w, p.header_printed))
      else ((p, w), ok tt)

-- The loop of `queueLine` over the names of the index of the table; `object_meta` is the meta data of the
-- object of that name, if it is one.
unfoldable pub add_index :
    (Bytes → Option MetricMeta)
    → Bytes
    → List Bytes
    → Oid
    → MetricBlock
    → MetricBlock × Outcome PrintError (Unit {0})
add_index object_meta row [] tail mb = (mb, ok tt)
add_index object_meta row (column ∷ columns) tail mb = elim (object_meta column) [
  | none ↦ add_index object_meta row columns tail mb
  | some meta ↦ elim (unmarshal_index tail) [
    | err e ↦ (mb, err e)
    | panicked ↦ (mb, panicked)
    | ok (v, tail') ↦ add_index object_meta row columns tail' (add_metric meta row v mb)
  ]
]

-- Where the row is new and the block has a table.
unfoldable pub indexed_row :
    (Bytes → Option MetricMeta)
    → Bool
    → Option Table
    → Bytes
    → Oid
    → MetricBlock
    → MetricBlock × Outcome PrintError (Unit {0})
indexed_row object_meta false table row index mb = (mb, ok tt)
indexed_row object_meta true none row index mb = (mb, ok tt)
indexed_row object_meta true (some table) row index mb =
    add_index object_meta row table.index index mb

-- The last `AddMetric`, which an error of the loop skips.
unfoldable pub queue_last :
    MetricMeta
    → Bytes
    → MetricValue
    → MetricBlock × Outcome PrintError (Unit {0})
    → MetricBlock × Outcome PrintError (Unit {0})
queue_last meta row v (mb, ok _) = (add_metric meta row v mb, ok tt)
queue_last meta row v (mb, err e) = (mb, err e)
queue_last meta row v (mb, panicked) = (mb, panicked)

-- The rest of `queueLine`.
unfoldable pub queue_value :
    (Bytes → Option MetricMeta)
    → MetricMeta
    → Oid
    → MetricValue
    → MetricBlock
    → MetricBlock × Outcome PrintError (Unit {0})
queue_value object_meta meta index v mb =
    let row = oid_text index in
    let (mb', fresh) = is_new_row row mb in
    queue_last meta row v (indexed_row object_meta fresh mb'.table row index mb')

unfoldable pub queue_next :
    {W : Type 0}
    → (Bytes → Option MetricMeta)
    → MetricMeta
    → Oid
    → MetricValue
    → (MetricPrinter × W) × Outcome PrintError (Unit {0})
    → (MetricPrinter × W) × Outcome PrintError (Unit {0})
queue_next object_meta meta index v ((p, w), err e) = ((p, w), err e)
queue_next object_meta meta index v ((p, w), panicked) = ((p, w), panicked)
queue_next object_meta meta index v ((p, w), ok _) =
    let (mb, result) = queue_value object_meta meta index v p.metric_block in
    ((record p { metric_block = mb }, w), result)

-- `queueLine`: the printer, the writer, and the error.
module _ {W : Type 0} (write : W → Bytes → W × Bool) where
  unfoldable pub queue_line :
      (Bytes → Bytes)
      → (Bytes → Option MetricMeta)
      → MetricMeta
      → Option Table
      → Oid
      → MetricValue
      → MetricPrinter
      → W
      → (MetricPrinter × W) × Outcome PrintError (Unit {0})
  queue_line quote object_meta meta table index v p w =
      queue_next object_meta meta index v (next_block write quote meta table p w)
