-- ===== src/Snmp/Printer/Prefix.antt =====
-- The prefix of a table against the names of its columns.
use net_mapper.Prelude.{
  ℕ, ◌==◌, ◌≤◌, ◌≡◌, arith, Bool-cases, inl, inr, List, [], ◌∷◌, Bytes, All, length,
}
use net_mapper.Snmp.Metric.{find_common_prefix, MetricMeta, Table}
use net_mapper.Snmp.Printer.{fold_prefix, table_prefix}

-- The names of the columns are at least as long as the prefix of the table.
abbrev pub HasPrefix : Table → Type 0
HasPrefix table = All (λ c. length table.prefix ≤ length c.snake_name) table.columns

length-find_common_prefix :
    (a b : Bytes)
    → (length (find_common_prefix a b) ≤ length a) × (length (find_common_prefix a b) ≤ length b)
unfolding find_common_prefix
length-find_common_prefix [] b = (omega arith, omega arith)
length-find_common_prefix (x ∷ a) [] = (omega arith, omega arith)
length-find_common_prefix (x ∷ a) (y ∷ b) = elim (Bool-cases (x == y)) [
  | inl e ↦
      let r = length-find_common_prefix a b in
      rw (e, find_common_prefix) (omega (arith, r.0), omega (arith, r.1))
  | inr e ↦ rw (e, find_common_prefix) (omega arith, omega arith)
]

All-shorter :
    (n m : ℕ) (cs : List MetricMeta)
    → n ≤ m
    → All (λ c. m ≤ length c.snake_name) cs
    → All (λ c. n ≤ length c.snake_name) cs
All-shorter n m [] le h = tt
All-shorter n m (c ∷ cs) le (hc, h) = (omega (arith, le, hc), All-shorter n m cs le h)

fold_prefix_lem :
    (prefix : Bytes) (cs : List MetricMeta)
    → (length (fold_prefix prefix cs) ≤ length prefix)
      × All (λ c. length (fold_prefix prefix cs) ≤ length c.snake_name) cs
unfolding fold_prefix
fold_prefix_lem prefix [] = (omega arith, tt)
fold_prefix_lem prefix (c ∷ cs) =
    let (short, fits) = length-find_common_prefix prefix c.snake_name in
    let (shorter, rest) = fold_prefix_lem (find_common_prefix prefix c.snake_name) cs in
    (omega (arith, short, shorter), (omega (arith, fits, shorter), rest))

-- The prefix that the columns give a table is no longer than any of their names.
pub table_prefix-HasPrefix :
    (table : Table) → table.prefix ≡ table_prefix table.columns → HasPrefix table
unfolding table_prefix
table_prefix-HasPrefix table is = rw is (go table.columns)
  where
    go : (cs : List MetricMeta) → All (λ c. length (table_prefix cs) ≤ length c.snake_name) cs
    go [] = tt
    go (c ∷ []) = (omega arith, tt)
    go (c ∷ d ∷ cs) = fold_prefix_lem c.snake_name (d ∷ cs)
