-- ===== src/Mapper/Manager/Laws.antt =====
-- What a step adds to the hosts of the sources.
use net_mapper.Prelude.{
  ℕ, ◌≡◌, refl, ap, ◌∙◌, arith, Bool, true, false, ◌&&◌, ◌||◌, List, [], ◌∷◌, ◌++◌, map, Option,
  none, some, inl, inr, Bytes, str_eq, str_eq_iff, if◌then◌else◌, Bool-cases, Outcome, ok, err,
  panicked,
}
use net_mapper.Prelude.Assoc.{Assoc, lookup, lookup-put}
use net_mapper.Mapper.Hosts.{Hosts, Remembered, last_seen, remember}
use net_mapper.Mapper.Hosts.Memory.{is_among, last_seen-remember}
use net_mapper.Mapper.Manager.{
  names_of, hosts_or_new, update_hosts_from_source, host_names, get_hosts_from_source, gather, Node,
  source_node, report_node, publisher_node, other_node, remember_found, ends_step, background_step,
  id_of,
}

is_some : Option ℕ → Bool
is_some none = false
is_some (some t) = true

is_among-host_names :
    (host : Bytes) (m : Remembered) → is_among host (host_names m) ≡ is_some (last_seen host m)
unfolding is_among last_seen is_some
is_among-host_names host [] = refl
is_among-host_names host ((h, t) ∷ m) = elim (Bool-cases (str_eq h host)) [
  | inl e ↦ rw e refl
  | inr e ↦ rw e (is_among-host_names host m)
]

is_among-names_of :
    (host : Bytes) (o : Option Hosts)
    → is_among host (names_of o) ≡ is_some (last_seen host (hosts_or_new o).remembered)
unfolding last_seen is_among is_some
is_among-names_of host none = refl
is_among-names_of host (some h) = is_among-host_names host h.remembered

some_or :
    (b : Bool) (now : ℕ) (o : Option ℕ) → is_some (if b then some now else o) ≡ (is_some o || b)
unfolding is_some
some_or true now o = ground arith
some_or false now o = ground arith

-- After `Remember` on what a source has, its hosts are those from before and the new ones.
is_among-remember :
    (now seconds : ℕ) (hosts : List Bytes) (o : Option Hosts) (host : Bytes)
    → is_among host (names_of (some (remember now seconds hosts (hosts_or_new o))))
      ≡ (is_among host (names_of o) || is_among host hosts)
unfolding is_some
is_among-remember now seconds hosts o host =
    let h = hosts_or_new o in
    is_among-names_of host (some (remember now seconds hosts h))
    ∙ rw (is_among-names_of host o) (
        ap is_some (last_seen-remember now seconds hosts h host)
        ∙ some_or (is_among host hosts) now (last_seen host h.remembered))

pub get_hosts-update_hosts :
    (now seconds : ℕ) (id : Bytes) (hosts : List Bytes) (m : Assoc Hosts) (n host : Bytes)
    → is_among host (get_hosts_from_source n (update_hosts_from_source now seconds id hosts m))
      ≡ (is_among host (get_hosts_from_source n m) || str_eq id n && is_among host hosts)
unfolding update_hosts_from_source get_hosts_from_source
get_hosts-update_hosts now seconds id hosts m n host =
    let new = remember now seconds hosts (hosts_or_new (lookup id m)) in
    rw (lookup-put id new m n) (elim (Bool-cases (str_eq id n)) [
      | inl e ↦
          rw (e, ← (str_eq_iff id n).0 e) (is_among-remember now seconds hosts (lookup id m) host)
      | inr e ↦ rw e (ground arith)
    ])

abbrev has_host : Bytes → Bytes → Assoc Hosts → Bool
has_host n host m = is_among host (get_hosts_from_source n m)

nothing_new :
    (id n host : Bytes) (m : Assoc Hosts)
    → has_host n host m ≡ (has_host n host m || str_eq id n && is_among host [])
unfolding is_among
nothing_new id n host m = ground arith

abbrev pub concat_map : {A B : Type 0} → (A → List B) → List A → List B
concat_map f [] = []
concat_map f (x ∷ xs) = f x ++ concat_map f xs

abbrev pub keys_at : Option Hosts → List Bytes
keys_at none = []
keys_at (some h) = map (λ entry. entry.0) h.remembered

host_names-map : (m : Remembered) → host_names m ≡ map (λ entry. entry.0) m
host_names-map [] = refl
host_names-map ((host, t) ∷ m) = ap (λ hs. host ∷ hs) (host_names-map m)

names_of-keys_at : (o : Option Hosts) → names_of o ≡ keys_at o
names_of-keys_at none = refl
names_of-keys_at (some h) = host_names-map h.remembered

-- The hosts of the precursors, one after the other: the keys of the map of each.
abbrev pub inputs_of : List Bytes → Assoc Hosts → List Bytes
inputs_of precursors m = concat_map (λ id. keys_at (lookup id m)) precursors

gather-inputs_of : (ids : List Bytes) (m : Assoc Hosts) → gather ids m ≡ inputs_of ids m
unfolding gather get_hosts_from_source
gather-inputs_of [] m = refl
gather-inputs_of (id ∷ ids) m = rw (names_of-keys_at (lookup id m), gather-inputs_of ids m) refl

module _ {S E : Type 0} where
  -- What a root or a filter has returned, if there was no error.
  abbrev pub result_hosts : S × Outcome E (List Bytes) → List Bytes
  result_hosts (s, ok hosts) = hosts
  result_hosts (s, err e) = []
  result_hosts (s, panicked) = []

  -- The hosts that the source of a node finds; a root discovers them, and a filter picks them from the
  -- hosts of the precursors. Other nodes find none.
  abbrev pub found_by : Node S E → List Bytes → S → Assoc Hosts → List Bytes
  found_by (source_node id (some discover) filter) precursors s m = result_hosts (discover s)
  found_by (source_node id none (some filter)) precursors s m =
      result_hosts (filter s (inputs_of precursors m))
  found_by (source_node id none none) precursors s m = []
  found_by (report_node id generate) precursors s m = []
  found_by (publisher_node id publish) precursors s m = []
  found_by (other_node id) precursors s m = []

  remember_found_lem :
      (now seconds : ℕ) (id n host : Bytes) (r : S × Outcome E (List Bytes)) (m : Assoc Hosts)
      → has_host n host (remember_found now seconds id r m).0.1
        ≡ (has_host n host m || str_eq id n && is_among host (result_hosts r))
  unfolding remember_found
  remember_found_lem now seconds id n host (s, ok hosts) m =
      get_hosts-update_hosts now seconds id hosts m n host
  remember_found_lem now seconds id n host (s, err e) m = nothing_new id n host m
  remember_found_lem now seconds id n host (s, panicked) m = nothing_new id n host m

  ends_step_lem : {A : Type 0} (r : S × Outcome E A) (m : Assoc Hosts) → (ends_step r m).0.1 ≡ m
  unfolding ends_step
  ends_step_lem (s, ok a) m = refl
  ends_step_lem (s, err e) m = refl
  ends_step_lem (s, panicked) m = refl

  -- After backgroundStep on a node, the hosts of every source are the ones from before, and for
  -- the id of the node also those that its plugin found, if the call succeeded: what a root has
  -- discovered, or else what a filter has picked from the list of the hosts of all its precursors,
  -- one precursor after the other. A report, a publisher, another node, and a source that is
  -- neither a root nor a filter add no host.
  pub background_step-found_by :
      (now seconds : ℕ) (node : Node S E) (precursors : List Bytes) (s : S) (m : Assoc Hosts)
      (n host : Bytes)
      → is_among host
          (get_hosts_from_source n (background_step now seconds node precursors s m).0.1)
        ≡ (is_among host (get_hosts_from_source n m)
            || str_eq (id_of node) n && is_among host (found_by node precursors s m))
  unfolding background_step
  background_step-found_by now seconds (source_node id (some discover) filter) precursors s m n
        host =
      remember_found_lem now seconds id n host (discover s) m
  background_step-found_by now seconds (source_node id none (some filter)) precursors s m n host =
      rw (gather-inputs_of precursors m)
        (remember_found_lem now seconds id n host (filter s (inputs_of precursors m)) m)
  background_step-found_by now seconds (source_node id none none) precursors s m n host =
      nothing_new id n host m
  background_step-found_by now seconds (report_node id generate) precursors s m n host =
      rw (ends_step_lem (generate s (gather precursors m)) m) (nothing_new id n host m)
  background_step-found_by now seconds (publisher_node id publish) precursors s m n host =
      rw (ends_step_lem (publish s []) m) (nothing_new id n host m)
  background_step-found_by now seconds (other_node id) precursors s m n host =
      nothing_new id n host m
