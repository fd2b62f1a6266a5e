-- ===== src/Snmp/Printer.antt =====
-- pkg/snmp/decoder.go: how a `MetricPrinter` collects the values of rows and prints them.
-- The meta data of an object, which the printer keeps with it, is a parameter, as is `quote`, which is `%q`.
pub mod Prefix
pub mod Flush
use net_mapper.Prelude.{
  ℕ, zero, suc, ◌+◌, ◌-◌, ◌*◌, ◌/◌, ◌%◌, ◌^◌, Bool, true, false, not, ◌&&◌, ◌||◌, List, [], ◌∷◌,
  ◌++◌, Option, none, some,
}
use net_mapper.Prelude.{
  Bytes, codes, ltb, leb, ◌==◌, str_eq, if◌then◌else◌, length, Outcome, ok, err, panicked, ◌>>=◌,
}
use net_mapper.Prelude.Assoc.{Assoc, lookup}
use net_mapper.Go.Oid.{Oid}
use net_mapper.Go.Decimal.{itoa, oid_text}
use net_mapper.Snmp.Metric.{
  find_common_prefix, MetricMeta, Table, MetricValue, MetricBlock, is_label, is_new_row, add_metric,
  init_block, label_map,
}

-- `w` is not here but an argument: what has been written to it.
pub record MetricPrinter : Type 0 where
  -- The pointer, which is nil at first.
  pub last_printed_meta : Option ℕ
  pub metric_block : MetricBlock
  pub header_printed : Bool

abbrev pub new_metric_printer : MetricPrinter
new_metric_printer = record {
  last_printed_meta = none;
  metric_block = init_block none;
  header_printed = false;
}

pub data PrintError : Type 0 where
  writer_failed truncated : PrintError

abbrev pub is_upper : ℕ → Bool
is_upper c = leb b'A' c && leb c b'Z'

-- `ConvertCamelCaseToSnakeCase` before `ToLower`, for an ASCII name; `prev` is the byte before.
unfoldable pub snake_from : ℕ → Bytes → Bytes
snake_from prev [] = []
snake_from prev (c ∷ cs) =
    let rest = snake_from c cs in
    if not (is_upper prev) && is_upper c then b'_' ∷ c ∷ rest else c ∷ rest

abbrev pub to_lower : Bytes → Bytes
to_lower [] = []
to_lower (c ∷ cs) = (if is_upper c then c + 32 else c) ∷ to_lower cs

unfoldable pub convert_camel_case_to_snake_case : Bytes → Bytes
convert_camel_case_to_snake_case name = to_lower (snake_from 0 name)

-- The end of `MetaDataForObject`: the prefix of a table, from the names of its columns.
unfoldable pub fold_prefix : Bytes → List MetricMeta → Bytes
fold_prefix prefix [] = prefix
fold_prefix prefix (c ∷ cs) = fold_prefix (find_common_prefix prefix c.snake_name) cs

unfoldable pub table_prefix : List MetricMeta → Bytes
table_prefix [] = []
table_prefix (c ∷ []) = []
table_prefix (c ∷ d ∷ cs) = fold_prefix c.snake_name (d ∷ cs)

-- One line or two of a header, and the line of a value, as `Fprintf` writes them.
abbrev pub header_lines : MetricMeta → List Bytes
header_lines meta =
    (if str_eq meta.help []
      then []
      else (codes "# HELP " ++ meta.snake_name ++ codes " " ++ meta.help ++ codes "\n") ∷ [])
    ++ (if str_eq meta.kind []
        then []
        else (codes "# TYPE " ++ meta.snake_name ++ codes " " ++ meta.kind ++ codes "\n") ∷ [])

abbrev pub value_line : Bytes → MetricMeta → Bytes → Bytes
value_line labels meta value =
    if length labels == 0
    then meta.snake_name ++ codes " " ++ value ++ codes "\n"
    else meta.snake_name ++ codes "{" ++ labels ++ codes "} " ++ value ++ codes "\n"

unfoldable pub written : Bool → Outcome PrintError (Unit {0})
written true = err writer_failed
written false = ok tt

-- What the map gives, which is the empty string for a missing key.
abbrev pub text_or_empty : Option Bytes → Bytes
text_or_empty none = []
text_or_empty (some text) = text

module _ {W : Type 0} (write : W → Bytes → W × Bool) where
  -- The errors of the header are not looked at.
  unfoldable pub write_all : W → List Bytes → W
  write_all w [] = w
  write_all w (line ∷ lines) = let (w', failed) = write w line in write_all w' lines

  unfoldable pub write_header : MetricMeta → W × Bool → W × Bool
  write_header meta (w, printed) =
      if printed then (w, true) else (write_all w (header_lines meta), true)

  -- `printMetricRow`; the flag is `headerPrinted`.
  unfoldable pub print_metric_row :
      Bytes → MetricMeta → Bytes → W × Bool → (W × Bool) × Outcome PrintError (Unit {0})
  print_metric_row labels meta value s =
      let (w, printed) = write_header meta s in
      let (w', failed) = write w (value_line labels meta value) in ((w', printed), written failed)

  -- A loop over the rows or the metrics: the writer and `headerPrinted`, and `output_count` or the error.
  abbrev pub Printing : Type 0
  Printing = (W × Bool) × Outcome PrintError ℕ

  -- What follows a step that has had no error.
  unfoldable pub carry_on :
      {A : Type 0} → (W × Bool) × Outcome PrintError A → (W × Bool → A → Printing) → Printing
  carry_on (s, ok a) next = next s a
  carry_on (s, err e) next = (s, err e)
  carry_on (s, panicked) next = (s, panicked)

  -- The values of one metric; a row without a label text has the empty one.
  unfoldable pub print_values :
      Assoc Bytes → MetricMeta → Assoc MetricValue → List Bytes → W × Bool → ℕ → Printing
  unfolding carry_on
  print_values labels meta values [] s count = (s, ok count)
  print_values labels meta values (row ∷ rows) s count = elim (lookup row values) [
    | none ↦ print_values labels meta values rows s count
    | some v ↦
        let skipped = print_values labels meta values rows s count in
        let printed =
          carry_on (print_metric_row (text_or_empty (lookup row labels)) meta v.text s)
            (λ s' _. print_values labels meta values rows s' (count + 1)) in
        if not v.numeric then skipped else printed
  ]

  unfoldable pub print_metrics : Assoc Bytes → MetricBlock → List Bytes → W × Bool → ℕ → Printing
  unfolding carry_on
  print_metrics labels mb [] s count = (s, ok count)
  print_metrics labels mb (name ∷ names) s count = elim (lookup name mb.metrics) [
    | none ↦ (s, panicked)
    | some mv ↦
        let skipped = print_metrics labels mb names s count in
        let printed =
          carry_on (print_values labels mv.meta mv.values mb.row_indexes (s.0, false) count)
            (λ s' count'. print_metrics labels mb names s' count') in
        if is_label mv.meta then skipped else printed
  ]

  -- A table without a number is printed as the metric of the table, with the value 1.
  unfoldable pub print_table_rows : Assoc Bytes → MetricMeta → List Bytes → W × Bool → ℕ → Printing
  unfolding carry_on
  print_table_rows labels meta [] s count = (s, ok count)
  print_table_rows labels meta (row ∷ rows) s count =
      carry_on (print_metric_row (text_or_empty (lookup row labels)) meta (codes "1") s)
        (λ s' _. print_table_rows labels meta rows s' count)

  unfoldable pub print_table : Assoc Bytes → Option Table → List Bytes → W × Bool → ℕ → Printing
  print_table labels none rows s count = (s, ok count)
  print_table labels (some table) rows s count =
      let printed = print_table_rows labels table.metric_meta rows (s.0, false) count in
      if count == 0 then printed else (s, ok count)

  -- `Flush`
  unfoldable pub flush : (Bytes → Bytes) → MetricBlock → W × Bool → Printing
  unfolding carry_on
  flush quote mb s = elim (label_map quote mb) [
    | err _ ↦ (s, panicked)
    | panicked ↦ (s, panicked)
    | ok labels ↦
        carry_on (print_metrics labels mb mb.metric_names s 0)
          (λ s' count. print_table labels mb.table mb.row_indexes s' count)
  ]
