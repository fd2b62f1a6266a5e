-- ===== src/Snmp/Printer/Flush.antt =====
-- `Flush` on the blocks that a printer makes.
use net_mapper.Prelude.{
  true-ne-false, ℕ, ◌==◌, ◌≤◌, ◌+◌, ◌≡◌, ◌≢◌, refl, ◌∙◌, sym, arith, Bool, true, false, ltb, codes,
  Bool-cases, Option-cases, inl, inr, List, [], ◌∷◌, Option, none, some, Bytes, All, length,
  str_eq_refl, Outcome, ok, err, panicked,
}
use net_mapper.Prelude.Assoc.{Assoc, lookup, put}
use net_mapper.Snmp.Metric.{
  MetricMeta, Table, MetricValue, MetricValues, MetricBlock, is_label, contains, cut_name,
  label_text, label_columns, label_rows, label_map,
}
use net_mapper.Snmp.Metric.Block.{
  Reachable, Reachable-IsConsistent, has_key, has_key-none, IsConsistent,
}
use net_mapper.Snmp.Printer.Prefix.{HasPrefix}
use net_mapper.Snmp.Printer.{
  PrintError, Printing, print_metric_row, written, carry_on, print_values, print_metrics,
  print_table_rows, print_table, flush, text_or_empty,
}

module _ (quote : Bytes → Bytes) where
  label_text-ok :
      (n : ℕ) (index : Bytes) (column : MetricMeta) (mv : MetricValues)
      → n ≤ length column.snake_name
      → (text : Bytes) × (label_text quote n index column mv ≡ ok text)
  unfolding label_text cut_name
  label_text-ok n index column mv h =
      let fits : ltb (length column.snake_name) n ≡ false = ground arith in rw fits (_, refl)

  label_columns-ok :
      (n : ℕ) (metrics : Assoc MetricValues) (index : Bytes) (j : ℕ) (columns : List MetricMeta)
      (text : Bytes)
      → All (λ c. n ≤ length c.snake_name) columns
      → (labels : Bytes) × (label_columns quote n metrics index j columns text ≡ ok labels)
  unfolding label_columns
  label_columns-ok n metrics index j [] text h = (text, refl)
  label_columns-ok n metrics index j (column ∷ columns) text (hc, h) =
      elim (Bool-cases (is_label column)) [
        | inr plain ↦
            rw (plain, label_columns) (label_columns-ok n metrics index (j + 1) columns text h)
        | inl label ↦ elim (Option-cases (lookup column.name metrics)) [
          | inl e ↦
              rw (label, e, label_columns) (label_columns-ok n metrics index (j + 1) columns _ h)
          | inr (mv, e) ↦
              let (one, is) = label_text-ok n index column mv hc in
              rw (label, e, label_columns, is)
                (label_columns-ok n metrics index (j + 1) columns _ h)
        ]
      ]

  label_rows-ok :
      (table : Table) (metrics : Assoc MetricValues) (rows : List Bytes) (labels : Assoc Bytes)
      → HasPrefix table
      → (all : Assoc Bytes) × (label_rows quote table metrics rows labels ≡ ok all)
  unfolding label_rows
  label_rows-ok table metrics [] labels h = (labels, refl)
  label_rows-ok table metrics (index ∷ rows) labels h =
      let (text, is) = label_columns-ok (length table.prefix) metrics index 0 table.columns [] h in
      rw (is, label_rows) (label_rows-ok table metrics rows (put index text labels) h)

All-listed :
    (m : Assoc MetricValues) (names : List Bytes)
    → ((n : Bytes) → contains names n ≡ true → has_key m n ≡ true)
    → All (λ n. has_key m n ≡ true) names
unfolding contains
All-listed m [] k = tt
All-listed m (n ∷ names) k =
    (k n (ground (arith, str_eq_refl n)), All-listed m names (λ x h. k x (ground arith)))

module _ {W : Type 0} (write : W → Bytes → W × Bool) where
  abbrev Safe : Printing write → Type 0
  Safe p = p.1 ≢ panicked

  written-ne-panicked : (failed : Bool) → written failed ≢ panicked
  unfolding written
  written-ne-panicked true h = cc
  written-ne-panicked false h = cc

  print_metric_row-Safe :
      (labels : Bytes) (meta : MetricMeta) (value : Bytes) (s : W × Bool)
      → (print_metric_row write labels meta value s).1 ≢ panicked
  unfolding print_metric_row
  print_metric_row-Safe labels meta value s = written-ne-panicked _

  carry_on-Safe :
      {A : Type 0} (r : (W × Bool) × Outcome PrintError A) (next : W × Bool → A → Printing write)
      → r.1 ≢ panicked
      → ((s : W × Bool) (a : A) → Safe (next s a))
      → Safe (carry_on write r next)
  unfolding carry_on
  carry_on-Safe (s, ok a) next h k = k s a
  carry_on-Safe (s, err e) next h k = λ x. cc
  carry_on-Safe (s, panicked) next h k = absurd (h refl)

  print_values-Safe :
      (labels : Assoc Bytes) (meta : MetricMeta) (values : Assoc MetricValue) (rows : List Bytes)
      (s : W × Bool) (count : ℕ)
      → Safe (print_values write labels meta values rows s count)
  unfolding print_values
  print_values-Safe labels meta values [] s count = λ h. cc
  print_values-Safe labels meta values (row ∷ rows) s count =
      elim (Option-cases (lookup row values)) [
        | inl e ↦ rw (e, print_values) (print_values-Safe labels meta values rows s count)
        | inr (v, e) ↦ elim (Bool-cases v.numeric) [
          | inr text ↦
              rw (e, print_values, text) (print_values-Safe labels meta values rows s count)
          | inl number ↦
              rw (e, print_values, number)
                (carry_on-Safe
                  (print_metric_row write (text_or_empty (lookup row labels)) meta v.text s)
                  (λ s' _. print_values write labels meta values rows s' (count + 1))
                  (print_metric_row-Safe _ meta v.text s)
                  (λ s' _. print_values-Safe labels meta values rows s' (count + 1)))
        ]
      ]

  print_table_rows-Safe :
      (labels : Assoc Bytes) (meta : MetricMeta) (rows : List Bytes) (s : W × Bool) (count : ℕ)
      → Safe (print_table_rows write labels meta rows s count)
  unfolding print_table_rows
  print_table_rows-Safe labels meta [] s count = λ h. cc
  print_table_rows-Safe labels meta (row ∷ rows) s count =
      carry_on-Safe (print_metric_row write (text_or_empty (lookup row labels)) meta (codes "1") s)
        (λ s' _. print_table_rows write labels meta rows s' count)
        (print_metric_row-Safe _ meta (codes "1") s)
        (λ s' _. print_table_rows-Safe labels meta rows s' count)

  print_table-Safe :
      (labels : Assoc Bytes) (table : Option Table) (rows : List Bytes) (s : W × Bool) (count : ℕ)
      → Safe (print_table write labels table rows s count)
  unfolding print_table
  print_table-Safe labels none rows s count = λ h. cc
  print_table-Safe labels (some table) rows s count = elim (Bool-cases (count == 0)) [
    | inl e ↦
        rw (e, print_table) (print_table_rows-Safe labels table.metric_meta rows (s.0, false) count)
    | inr e ↦ rw (e, print_table) (λ h. absurd (ok_lem h))
  ]
    where
      ok_lem : ◌≡◌ {A = Outcome PrintError ℕ} (ok count) panicked → ⊥
      ok_lem h = cc

  print_metrics-Safe :
      (labels : Assoc Bytes) (mb : MetricBlock) (names : List Bytes) (s : W × Bool) (count : ℕ)
      → All (λ n. has_key mb.metrics n ≡ true) names
      → Safe (print_metrics write labels mb names s count)
  unfolding print_metrics
  print_metrics-Safe labels mb [] s count h = λ x. cc
  print_metrics-Safe labels mb (name ∷ names) s count (known, h) =
      elim (Option-cases (lookup name mb.metrics)) [
        | inl e ↦ absurd (true-ne-false (sym known ∙ has_key-none mb.metrics name e))
        | inr (mv, e) ↦ elim (Bool-cases (is_label mv.meta)) [
          | inl label ↦ rw (e, print_metrics, label) (print_metrics-Safe labels mb names s count h)
          | inr number ↦
              rw (e, print_metrics, number)
                (carry_on-Safe
                  (print_values write labels mv.meta mv.values mb.row_indexes (s.0, false) count)
                  (λ s' count'. print_metrics write labels mb names s' count')
                  (print_values-Safe labels mv.meta mv.values mb.row_indexes (s.0, false) count)
                  (λ s' count'. print_metrics-Safe labels mb names s' count' h))
        ]
      ]

  -- `LabelMap` of a block.
  label_map-ok :
      (quote : Bytes → Bytes) (mb : MetricBlock)
      → ((table : Table) → mb.table ≡ some table → HasPrefix table)
      → (labels : Assoc Bytes) × (label_map quote mb ≡ ok labels)
  unfolding label_map
  label_map-ok quote mb h = elim (Option-cases mb.table) [
    | inl e ↦ ([], rw (label_map, e) refl)
    | inr (table, e) ↦
        let (labels, is) = label_rows-ok quote table mb.metrics mb.row_indexes [] (h table e) in
        (labels, rw (label_map, e) is)
  ]

  All-keys :
      (mb : MetricBlock) → IsConsistent mb → All (λ n. has_key mb.metrics n ≡ true) mb.metric_names
  All-keys mb h = All-listed mb.metrics mb.metric_names (λ n c. sym (h.names_are_keys n) ∙ c)

  pub flush-ne-panicked :
      (quote : Bytes → Bytes) (mb : MetricBlock) (s : W × Bool)
      → Reachable mb
      → ((table : Table) → mb.table ≡ some table → HasPrefix table)
      → (flush write quote mb s).1 ≢ panicked
  unfolding flush
  flush-ne-panicked quote mb s r h =
      let (labels, is) = label_map-ok quote mb h in
      rw (is, flush)
        (carry_on-Safe (print_metrics write labels mb mb.metric_names s 0)
          (λ s' count. print_table write labels mb.table mb.row_indexes s' count)
          (print_metrics-Safe labels mb mb.metric_names s 0
            (All-keys mb (Reachable-IsConsistent mb r)))
          (λ s' count. print_table-Safe labels mb.table mb.row_indexes s' count))
