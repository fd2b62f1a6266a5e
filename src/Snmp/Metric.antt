-- ===== src/Snmp/Metric.antt =====
-- pkg/snmp/metric.go: a block of metrics, the rows of one table.
-- A pointer to a `MetricMeta` or a `Table` has a number that tells it from others. `quote` is `%q`. The
-- field `table` of `MetricMeta` is an argument of the printer instead.
pub mod Block
pub mod Prefix
mod Tests
use net_mapper.Prelude.{
  ℕ, zero, suc, ◌+◌, bit_and, Bool, true, false, not, ◌&&◌, ◌||◌, List, [], ◌∷◌, ◌++◌, Option, none,
  some,
}
use net_mapper.Prelude.{
  Bytes, codes, ltb, leb, ◌==◌, str_eq, if◌then◌else◌, length, drop, Outcome, ok, err, panicked,
  ◌>>=◌,
}
use net_mapper.Prelude.Assoc.{Assoc, lookup, put}

-- `flags` has the bits `MetricIsString` 1 and `MetricIsPartOfIndex` 2.
pub record MetricMeta : Type 0 where
  pub pointer : ℕ
  pub name : Bytes
  pub snake_name : Bytes
  pub help : Bytes
  pub kind : Bytes
  pub flags : ℕ

unfoldable pub is_label : MetricMeta → Bool
is_label meta = not (bit_and meta.flags 3 == 0)

pub record Table : Type 0 where
  pub pointer : ℕ
  pub prefix : Bytes
  pub metric_meta : MetricMeta
  pub index : List Bytes
  pub columns : List MetricMeta

pub record MetricValue : Type 0 where
  pub text : Bytes
  pub numeric : Bool

pub record MetricValues : Type 0 where
  pub meta : MetricMeta
  pub values : Assoc MetricValue

pub record MetricBlock : Type 0 where
  pub table : Option Table
  pub row_indexes : List Bytes
  pub metric_names : List Bytes
  pub metrics : Assoc MetricValues

-- `slices.Contains`
unfoldable pub contains : List Bytes → Bytes → Bool
contains [] x = false
contains (y ∷ ys) x = str_eq y x || contains ys x

unfoldable pub is_new_row : Bytes → MetricBlock → MetricBlock × Bool
is_new_row index mb =
    if contains mb.row_indexes index
    then (mb, false)
    else (record mb { row_indexes = mb.row_indexes ++ index ∷ [] }, true)

-- `MetricValues.AddMetric`
unfoldable pub add_value : Bytes → MetricValue → MetricValues → MetricValues
add_value row v mv = record mv { values = put row v mv.values }

-- `values`, those of the map or new ones.
unfoldable pub values_or_new : MetricMeta → Option MetricValues → MetricValues
values_or_new meta (some mv) = mv
values_or_new meta none = record { meta = meta; values = [] }

-- `MetricBlock.AddMetric`, which never gives an error.
unfoldable pub add_metric : MetricMeta → Bytes → MetricValue → MetricBlock → MetricBlock
unfolding values_or_new add_value
add_metric meta row v mb =
    let found = lookup meta.name mb.metrics in
    record mb {
      metric_names = (elim found [
        | some _ ↦ mb.metric_names
        | none ↦ mb.metric_names ++ meta.name ∷ []
      ]);
      metrics = put meta.name (add_value row v (values_or_new meta found)) mb.metrics;
    }

-- `Init`, whatever was there before.
unfoldable pub init_block : Option Table → MetricBlock
init_block table = record { table = table; row_indexes = []; metric_names = []; metrics = [] }

-- The loop of `findCommonPrefix` over the indexes of both names.
unfoldable pub find_common_prefix : Bytes → Bytes → Bytes
find_common_prefix [] b = []
find_common_prefix (x ∷ a) [] = []
find_common_prefix (x ∷ a) (y ∷ b) =
    let rest = find_common_prefix a b in if not (x == y) then [] else x ∷ rest

-- `snakeName[prefixLen:]`
unfoldable pub cut_name : ℕ → Bytes → Outcome (Unit {0}) Bytes
cut_name n name = if ltb (length name) n then panicked else ok (drop n name)

-- The text of one label; a row without a value has an empty one.
unfoldable pub label_text :
    (Bytes → Bytes) → ℕ → Bytes → MetricMeta → MetricValues → Outcome (Unit {0}) Bytes
unfolding cut_name
label_text quote prefix_len index column mv = cut_name prefix_len column.snake_name >>= λ name.
    ok (name ++ b'=' ∷ (elim (lookup index mv.values) [ some v ↦ quote v.text | none ↦ quote [] ]))

-- The loop over the columns from number `j` on; `text` is what the builder holds.
unfoldable pub label_columns :
    (Bytes → Bytes)
    → ℕ
    → Assoc MetricValues
    → Bytes
    → ℕ
    → List MetricMeta
    → Bytes
    → Outcome (Unit {0}) Bytes
label_columns quote prefix_len metrics index j [] text = ok text
label_columns quote prefix_len metrics index j (column ∷ columns) text =
    let comma = if ltb 0 j then text ++ codes "," else text in
    if not (is_label column)
    then label_columns quote prefix_len metrics index (j + 1) columns text
    else elim (lookup column.name metrics) [
      | none ↦ label_columns quote prefix_len metrics index (j + 1) columns comma
      | some mv ↦ label_text quote prefix_len index column mv >>= λ label.
          label_columns quote prefix_len metrics index (j + 1) columns (comma ++ label)
    ]

unfoldable pub label_rows :
    (Bytes → Bytes)
    → Table
    → Assoc MetricValues
    → List Bytes
    → Assoc Bytes
    → Outcome (Unit {0}) (Assoc Bytes)
label_rows quote table metrics [] labels = ok labels
label_rows quote table metrics (index ∷ rows) labels =
    label_columns quote (length table.prefix) metrics index 0 table.columns [] >>= λ text.
    label_rows quote table metrics rows (put index text labels)

-- `LabelMap`; a nil map is the empty one.
unfoldable pub label_map : (Bytes → Bytes) → MetricBlock → Outcome (Unit {0}) (Assoc Bytes)
label_map quote mb = elim mb.table [
  | none ↦ ok []
  | some table ↦ label_rows quote table mb.metrics mb.row_indexes []
]
