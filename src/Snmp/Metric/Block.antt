-- ===== src/Snmp/Metric/Block.antt =====
-- A block as a table of values by metric and row.
use net_mapper.Prelude.{
  ◌≡◌, refl, ap, ◌∙◌, arith, Bool, true, false, ◌&&◌, ◌||◌, List, [], ◌∷◌, ◌++◌, Option, none, some,
  Bytes, str_eq, str_eq_iff, if◌then◌else◌, Bool-cases, Option-cases, inl, inr,
}
use net_mapper.Prelude.Assoc.{Assoc, lookup, put, lookup-put}
use net_mapper.Snmp.Metric.{
  values_or_new, Table, MetricMeta, MetricValue, MetricValues, MetricBlock, contains, is_new_row,
  add_value, add_metric, init_block,
}

unfoldable pub value_in : Bytes → Option MetricValues → Option MetricValue
value_in row none = none
value_in row (some mv) = lookup row mv.values

-- The value of a metric in a row.
unfoldable pub value_at : MetricBlock → Bytes → Bytes → Option MetricValue
value_at mb name row = value_in row (lookup name mb.metrics)

pub value_at-init_block :
    (t : Option Table) (name row : Bytes) → value_at (init_block t) name row ≡ none
unfolding value_at value_in init_block lookup
value_at-init_block t name row = refl

pub value_at-is_new_row :
    (mb : MetricBlock) (index name row : Bytes)
    → value_at (is_new_row index mb).0 name row ≡ value_at mb name row
unfolding value_at is_new_row
value_at-is_new_row mb index name row = elim (Bool-cases (contains mb.row_indexes index)) [
  | inl e ↦ rw (e, is_new_row) refl
  | inr e ↦ rw (e, is_new_row) refl
]

lookup-values_or_new :
    (meta : MetricMeta) (found : Option MetricValues) (index : Bytes)
    → lookup index (values_or_new meta found).values ≡ value_in index found
unfolding values_or_new value_in lookup
lookup-values_or_new meta none index = refl
lookup-values_or_new meta (some mv) index = refl

-- A block is a table by metric and row: AddMetric puts the value at its metric and row, over what
-- stood there, and leaves all other places as they were.
pub value_at-add_metric :
    (mb : MetricBlock) (meta : MetricMeta) (row : Bytes) (v : MetricValue) (name index : Bytes)
    → value_at (add_metric meta row v mb) name index
      ≡ (if str_eq meta.name name && str_eq row index then some v else value_at mb name index)
unfolding value_at add_metric add_value value_in
value_at-add_metric mb meta row v name index =
    let old = values_or_new meta (lookup meta.name mb.metrics) in
    ap (value_in index) (lookup-put meta.name (add_value row v old) mb.metrics name)
    ∙ (elim (Bool-cases (str_eq meta.name name)) [
      | inl same ↦
          let is : meta.name ≡ name = (str_eq_iff meta.name name).0 same in
          let before = lookup-values_or_new meta (lookup meta.name mb.metrics) index in
          rw same (
            lookup-put row v old.values index
            ∙ rw (before ∙ ap (λ n. value_in index (lookup n mb.metrics)) is) refl)
      | inr other ↦ rw other refl
    ])

unfoldable pub is_some : Option MetricValues → Bool
is_some none = false
is_some (some _) = true

unfoldable pub has_key : Assoc MetricValues → Bytes → Bool
unfolding is_some
has_key m name = is_some (lookup name m)

abbrev pub IsUnique : List Bytes → Type 0
IsUnique [] = Unit
IsUnique (x ∷ xs) = (contains xs x ≡ false) × IsUnique xs

contains-append :
    (xs : List Bytes) (x y : Bytes) → contains (xs ++ x ∷ []) y ≡ (contains xs y || str_eq x y)
unfolding contains
contains-append [] x y = ground arith
contains-append (z ∷ xs) x y = ground (arith, contains-append xs x y)

IsUnique-append :
    (xs : List Bytes) (x : Bytes) → IsUnique xs → contains xs x ≡ false → IsUnique (xs ++ x ∷ [])
unfolding contains
IsUnique-append [] x u h = (refl, tt)
IsUnique-append (z ∷ xs) x (new, u) h = (
  ground (arith, contains-append xs x z, str_eq_iff x z, str_eq_iff z x),
  IsUnique-append xs x u (ground arith),
)

-- No metric and no row is listed twice, and the metrics that are listed are those of the map.
pub record IsConsistent (mb : MetricBlock) : Type 0 where
  pub unique_rows : IsUnique mb.row_indexes
  pub unique_names : IsUnique mb.metric_names
  pub names_are_keys : (name : Bytes) → contains mb.metric_names name ≡ has_key mb.metrics name

-- The blocks that the operations make.
pub data Reachable : MetricBlock → Type 0 where
  initial : (t : Option Table) → Reachable (init_block t)
  new_row : (mb : MetricBlock) (index : Bytes) → Reachable mb → Reachable (is_new_row index mb).0
  metric :
      (mb : MetricBlock) (meta : MetricMeta) (row : Bytes) (v : MetricValue)
      → Reachable mb
      → Reachable (add_metric meta row v mb)

is_new_row-IsConsistent :
    (mb : MetricBlock) (index : Bytes) → IsConsistent mb → IsConsistent (is_new_row index mb).0
unfolding is_new_row
is_new_row-IsConsistent mb index h = elim (Bool-cases (contains mb.row_indexes index)) [
  | inl e ↦ rw (e, is_new_row) h
  | inr e ↦
      rw (e, is_new_row)
        (record {
          unique_rows = IsUnique-append mb.row_indexes index h.unique_rows e;
          unique_names = h.unique_names;
          names_are_keys = h.names_are_keys;
        })
]

has_key-put :
    (m : Assoc MetricValues) (k n : Bytes) (mv : MetricValues)
    → has_key (put k mv m) n ≡ (str_eq k n || has_key m n)
unfolding has_key is_some
has_key-put m k n mv =
    ap is_some (lookup-put k mv m n)
    ∙ (elim (Bool-cases (str_eq k n)) [ inl e ↦ rw e refl | inr e ↦ rw e refl ])

pub has_key-none : (m : Assoc MetricValues) (n : Bytes) → lookup n m ≡ none → has_key m n ≡ false
unfolding has_key is_some
has_key-none m n e = ap is_some e

has_key-some :
    (m : Assoc MetricValues) (k n : Bytes) (mv : MetricValues)
    → lookup k m ≡ some mv
    → has_key m n ≡ (str_eq k n || has_key m n)
unfolding has_key is_some
has_key-some m k n mv e = elim (Bool-cases (str_eq k n)) [
  | inl same ↦ rw (same, ← (str_eq_iff k n).0 same, e) refl
  | inr other ↦ rw other refl
]

add_metric-IsConsistent :
    (mb : MetricBlock) (meta : MetricMeta) (row : Bytes) (v : MetricValue)
    → IsConsistent mb
    → IsConsistent (add_metric meta row v mb)
unfolding add_metric
add_metric-IsConsistent mb meta row v h = elim (Option-cases (lookup meta.name mb.metrics)) [
  | inl e ↦
      rw (e, add_metric)
        (record {
          unique_rows = h.unique_rows;
          unique_names =
              IsUnique-append mb.metric_names meta.name h.unique_names
                (h.names_are_keys meta.name ∙ has_key-none mb.metrics meta.name e);
          names_are_keys = λ n.
              rw
                (
                  contains-append mb.metric_names meta.name n,
                  h.names_are_keys n,
                  has_key-put mb.metrics meta.name n _,
                )
                (ground arith);
        })
  | inr (mv, e) ↦
      rw (e, add_metric)
        (record {
          unique_rows = h.unique_rows;
          unique_names = h.unique_names;
          names_are_keys = λ n.
              rw (has_key-put mb.metrics meta.name n _)
                (h.names_are_keys n ∙ has_key-some mb.metrics meta.name n mv e);
        })
]

initial-IsConsistent : (t : Option Table) → IsConsistent (init_block t)
unfolding init_block has_key is_some contains lookup
initial-IsConsistent t = record { unique_rows = tt; unique_names = tt; names_are_keys = λ n. refl }

pub Reachable-IsConsistent : (mb : MetricBlock) → Reachable mb → IsConsistent mb
Reachable-IsConsistent mb (initial t) = initial-IsConsistent t
Reachable-IsConsistent mb (new_row mb' index r) =
    is_new_row-IsConsistent mb' index (Reachable-IsConsistent mb' r)
Reachable-IsConsistent mb (metric mb' meta row v r) =
    add_metric-IsConsistent mb' meta row v (Reachable-IsConsistent mb' r)
