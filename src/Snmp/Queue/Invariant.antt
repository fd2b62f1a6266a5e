-- ===== src/Snmp/Queue/Invariant.antt =====
-- The printer's block is always one that the operations of a block make.
use net_mapper.Prelude.{
  ◌≡◌, ◌≢◌, if◌then◌else◌, ◌&&◌, ℕ, Bool, true, false, Option-cases, inl, inr, List, [], ◌∷◌,
  Option, none, some, Bytes, Outcome, ok, err, panicked,
}
use net_mapper.Go.Oid.{Oid}
use net_mapper.Go.Decimal.{oid_text}
use net_mapper.Snmp.Metric.{MetricMeta, Table, MetricValue, MetricBlock, is_new_row}
use net_mapper.Snmp.Metric.Block
use net_mapper.Snmp.Metric.Block.{Reachable}
use net_mapper.Snmp.Printer.{table_prefix, MetricPrinter, PrintError, flush, new_metric_printer}
use net_mapper.Snmp.Printer.Prefix.{table_prefix-HasPrefix}
use net_mapper.Snmp.Printer.Flush.{flush-ne-panicked}
use net_mapper.Snmp.Queue.{
  unmarshal_index, other_meta, other_table, next_block, add_index, indexed_row, queue_last,
  queue_value, flushed, queue_next, queue_line,
}

module _ (object_meta : Bytes → Option MetricMeta) where
  add_index-Reachable :
      (row : Bytes) (columns : List Bytes) (tail : Oid) (mb : MetricBlock)
      → Reachable mb
      → Reachable (add_index object_meta row columns tail mb).0
  unfolding add_index unmarshal_index
  add_index-Reachable row [] tail mb r = r
  add_index-Reachable row (column ∷ columns) [] mb r = elim (Option-cases (object_meta column)) [
    | inl e ↦ rw (e, add_index) (add_index-Reachable row columns [] mb r)
    | inr (meta, e) ↦ rw (e, add_index) r
  ]
  add_index-Reachable row (column ∷ columns) (n ∷ tail) mb r =
      elim (Option-cases (object_meta column)) [
        | inl e ↦ rw (e, add_index) (add_index-Reachable row columns (n ∷ tail) mb r)
        | inr (meta, e) ↦
            rw (e, add_index)
              (add_index-Reachable row columns tail _ (Block.metric mb meta row _ r))
      ]

  indexed_row-Reachable :
      (fresh : Bool) (table : Option Table) (row : Bytes) (index : Oid) (mb : MetricBlock)
      → Reachable mb
      → Reachable (indexed_row object_meta fresh table row index mb).0
  unfolding indexed_row
  indexed_row-Reachable false table row index mb r = r
  indexed_row-Reachable true none row index mb r = r
  indexed_row-Reachable true (some table) row index mb r =
      add_index-Reachable row table.index index mb r

  queue_last-Reachable :
      (meta : MetricMeta) (row : Bytes) (v : MetricValue)
      (s : MetricBlock × Outcome PrintError (Unit {0}))
      → Reachable s.0
      → Reachable (queue_last meta row v s).0
  unfolding queue_last
  queue_last-Reachable meta row v (mb, ok _) r = Block.metric mb meta row v r
  queue_last-Reachable meta row v (mb, err e) r = r
  queue_last-Reachable meta row v (mb, panicked) r = r

  queue_value-Reachable :
      (meta : MetricMeta) (index : Oid) (v : MetricValue) (mb : MetricBlock)
      → Reachable mb
      → Reachable (queue_value object_meta meta index v mb).0
  unfolding queue_value
  queue_value-Reachable meta index v mb r =
      let row = oid_text index in
      queue_last-Reachable meta row v _
        (indexed_row-Reachable (is_new_row row mb).1 _ row index _ (Block.new_row mb row r))

  module _ {W : Type 0} (write : W → Bytes → W × Bool) (quote : Bytes → Bytes) where
    flushed-Reachable :
        (meta : MetricMeta) (table : Option Table) (p : MetricPrinter)
        (s : (W × Bool) × Outcome PrintError ℕ)
        → Reachable p.metric_block
        → Reachable (flushed meta table p s).0.0.metric_block
    unfolding flushed
    flushed-Reachable meta table p ((w, printed), err e) r = r
    flushed-Reachable meta table p ((w, printed), panicked) r = r
    flushed-Reachable meta table p ((w, printed), ok _) r = Block.initial table

    next_block-Reachable :
        (meta : MetricMeta) (table : Option Table) (p : MetricPrinter) (w : W)
        → Reachable p.metric_block
        → Reachable (next_block write quote meta table p w).0.0.metric_block
    unfolding next_block
    next_block-Reachable meta table p w r =
        go (other_meta p.last_printed_meta meta && other_table p.metric_block.table table)
      where
        go :
            (c : Bool)
            → Reachable
                (if c
                  then flushed meta table p (flush write quote p.metric_block (w, p.header_printed))
                  else ((p, w), ok tt)).0.0.metric_block
        go true = flushed-Reachable meta table p _ r
        go false = r

    queue_next-Reachable :
        (meta : MetricMeta) (index : Oid) (v : MetricValue)
        (s : (MetricPrinter × W) × Outcome PrintError (Unit {0}))
        → Reachable s.0.0.metric_block
        → Reachable (queue_next object_meta meta index v s).0.0.metric_block
    unfolding queue_next
    queue_next-Reachable meta index v ((p, w), ok _) r =
        queue_value-Reachable meta index v p.metric_block r
    queue_next-Reachable meta index v ((p, w), err e) r = r
    queue_next-Reachable meta index v ((p, w), panicked) r = r

    pub queue_line-Reachable :
        (meta : MetricMeta) (table : Option Table) (index : Oid) (v : MetricValue)
        (p : MetricPrinter) (w : W)
        → Reachable p.metric_block
        → Reachable (queue_line write quote object_meta meta table index v p w).0.0.metric_block
    unfolding queue_line
    queue_line-Reachable meta table index v p w r =
        queue_next-Reachable meta index v _ (next_block-Reachable meta table p w r)

-- The printers that lines which have been queued leave behind, the writer aside.
module _ {W : Type 0} (write : W → Bytes → W × Bool) (quote : Bytes → Bytes)
    (object_meta : Bytes → Option MetricMeta) where
  pub data IsPrinter : MetricPrinter → Type 0 where
    fresh : IsPrinter new_metric_printer
    queued :
        (p : MetricPrinter) (meta : MetricMeta) (table : Option Table) (index : Oid)
        (v : MetricValue) (w : W)
        → IsPrinter p
        → IsPrinter (queue_line write quote object_meta meta table index v p w).0.0

  IsPrinter-Reachable : (p : MetricPrinter) → IsPrinter p → Reachable p.metric_block
  IsPrinter-Reachable p fresh = Block.initial none
  IsPrinter-Reachable p (queued q meta table index v w h) =
      queue_line-Reachable object_meta write quote meta table index v q w (IsPrinter-Reachable q h)

  -- Flush does not panic on the block of any printer that queueLine has filled, from the new one
  -- on and by any sequence of calls, if its table has the prefix that the names of its columns
  -- give it.
  pub flush-IsPrinter :
      (p : MetricPrinter) (w : W)
      → IsPrinter p
      → ((table : Table)
          → p.metric_block.table ≡ some table
          → table.prefix ≡ table_prefix table.columns)
      → (flush write quote p.metric_block (w, p.header_printed)).1 ≢ panicked
  flush-IsPrinter p w h prefixed =
      flush-ne-panicked write quote p.metric_block (w, p.header_printed) (IsPrinter-Reachable p h)
        (λ table is. table_prefix-HasPrefix table (prefixed table is))
