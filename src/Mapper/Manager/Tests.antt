-- ===== src/Mapper/Manager/Tests.antt =====
-- Runs of the steps of a scan.
use net_mapper.Prelude.{
  ℕ, suc, ◌≡◌, refl, true, List, [], ◌∷◌, none, some, Bytes, codes, str_eq, ok,
}
use net_mapper.Prelude.Assoc.{Assoc, lookup, put}
use net_mapper.Mapper.Hosts.{Hosts, see, remember_one, remember_each, publish, last_seen, remember}
use net_mapper.Mapper.Hosts.Memory.{is_among}
use net_mapper.Mapper.Manager.{
  update_hosts_from_source, get_hosts_from_source, gather, Node, source_node, remember_found,
  background_step,
}
use net_mapper.Mapper.Manager.Laws.{background_step-found_by}

abbrev keep_first : List Bytes → List Bytes
keep_first [] = []
keep_first (host ∷ _) = host ∷ []

-- A filter that keeps the first host and counts its calls.
abbrev first_only : Node ℕ ℕ
first_only = source_node (codes "first") none (some (λ s hosts. (suc s, ok (keep_first hosts))))

abbrev lan_hosts : Assoc Hosts
lan_hosts = update_hosts_from_source 1000 1 (codes "lan") (codes "a" ∷ codes "b" ∷ []) []

first_only_run :
    get_hosts_from_source
      (codes "first")
      (background_step 2000 2 first_only (codes "lan" ∷ []) 0 lan_hosts).0.1
    ≡ codes "a" ∷ []
unfolding update_hosts_from_source get_hosts_from_source gather remember_found background_step
    lookup put remember remember_each remember_one publish see last_seen str_eq
first_only_run = refl

background_step-found_by_example :
    is_among (codes "a") (
      get_hosts_from_source
        (codes "first")
        (background_step 2000 2 first_only (codes "lan" ∷ []) 0 lan_hosts).0.1)
    ≡ true
unfolding update_hosts_from_source get_hosts_from_source gather lookup put is_among remember
    remember_each remember_one publish see last_seen str_eq
background_step-found_by_example =
    background_step-found_by 2000 2 first_only (codes "lan" ∷ []) 0 lan_hosts (codes "first")
      (codes "a")
