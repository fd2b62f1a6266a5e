-- ===== src/Mapper/Manager.antt =====
-- cmd/dsnet-mapper/manager.go: the steps of a scan. The hosts of a source are kept under its id; each step is
-- one node of the plan, and steps of one plan may run in any order that the plan allows.
-- `S` is everything outside, which a source, a report or a publisher may look at and change.
pub mod Laws
mod Tests
use net_mapper.Prelude.{
  ℕ, Bool, List, [], ◌∷◌, ◌++◌, Option, none, some, Bytes, Outcome, ok, err, panicked,
}
use net_mapper.Prelude.Assoc.{Assoc, lookup, put}
use net_mapper.Mapper.Hosts.{Hosts, Remembered, new_hosts, remember}

-- `m.hosts[sourceName]`, or a new one.
abbrev pub hosts_or_new : Option Hosts → Hosts
hosts_or_new none = new_hosts
hosts_or_new (some h) = h

unfoldable pub update_hosts_from_source : ℕ → ℕ → Bytes → List Bytes → Assoc Hosts → Assoc Hosts
update_hosts_from_source now seconds source hosts m =
    put source (remember now seconds hosts (hosts_or_new (lookup source m))) m

-- The keys of the map, in the order of its list.
abbrev pub host_names : Remembered → List Bytes
host_names [] = []
host_names ((host, _) ∷ m) = host ∷ host_names m

abbrev pub names_of : Option Hosts → List Bytes
names_of none = []
names_of (some h) = host_names h.remembered

unfoldable pub get_hosts_from_source : Bytes → Assoc Hosts → List Bytes
get_hosts_from_source source m = names_of (lookup source m)

-- The inputs of a step: the hosts of its precursors, one after the other.
unfoldable pub gather : List Bytes → Assoc Hosts → List Bytes
gather [] m = []
gather (id ∷ ids) m = get_hosts_from_source id m ++ gather ids m

module _ (S E : Type 0) where
  abbrev pub Discover : Type 0
  Discover = S → S × Outcome E (List Bytes)

  abbrev pub Filter : Type 0
  Filter = S → List Bytes → S × Outcome E (List Bytes)

  -- A plugin of each class. A source is a root, a filter, both or none of them.
  pub data Node : Type 0 where
    source_node : Bytes → Option Discover → Option Filter → Node
    report_node : Bytes → (S → List Bytes → S × Outcome E Bytes) → Node
    publisher_node : Bytes → (S → Bytes → S × Outcome E (Unit {0})) → Node
    other_node : Bytes → Node

pub data StepError (E : Type 0) : Type 0 where
  failed : E → StepError E
  unknown_node : StepError E

module _ {S E : Type 0} where
  -- What a source found is remembered, unless there was an error.
  unfoldable pub remember_found :
      ℕ
      → ℕ
      → Bytes
      → S × Outcome E (List Bytes)
      → Assoc Hosts
      → (S × Assoc Hosts) × Outcome (StepError E) (Unit {0})
  remember_found now seconds id (s, ok hosts) m =
      ((s, update_hosts_from_source now seconds id hosts m), ok tt)
  remember_found now seconds id (s, err e) m = ((s, m), err (failed e))
  remember_found now seconds id (s, panicked) m = ((s, m), panicked)

  -- The content of a report is not used.
  unfoldable pub ends_step :
      {A : Type 0}
      → S × Outcome E A
      → Assoc Hosts
      → (S × Assoc Hosts) × Outcome (StepError E) (Unit {0})
  ends_step (s, ok _) m = ((s, m), ok tt)
  ends_step (s, err e) m = ((s, m), err (failed e))
  ends_step (s, panicked) m = ((s, m), panicked)

  -- `backgroundStep`, with the ids of the precursors of the node. A publisher gets the empty content.
  unfoldable pub background_step :
      ℕ
      → ℕ
      → Node S E
      → List Bytes
      → S
      → Assoc Hosts
      → (S × Assoc Hosts) × Outcome (StepError E) (Unit {0})
  background_step now seconds (source_node id (some discover) filter) precursors s m =
      remember_found now seconds id (discover s) m
  background_step now seconds (source_node id none (some filter)) precursors s m =
      remember_found now seconds id (filter s (gather precursors m)) m
  background_step now seconds (source_node id none none) precursors s m = ((s, m), err unknown_node)
  background_step now seconds (report_node id generate) precursors s m =
      ends_step (generate s (gather precursors m)) m
  background_step now seconds (publisher_node id publish) precursors s m =
      ends_step (publish s []) m
  background_step now seconds (other_node id) precursors s m = ((s, m), err unknown_node)

  abbrev pub id_of : Node S E → Bytes
  id_of (source_node id discover filter) = id
  id_of (report_node id generate) = id
  id_of (publisher_node id publish) = id
  id_of (other_node id) = id
