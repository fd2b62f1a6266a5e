-- ===== src/Mapper/Hosts/Tests.antt =====
-- Runs of hosts.go, and its theorems at a small state.
use net_mapper.Prelude.{◌≡◌, refl, [], ◌∷◌, some, codes, str_eq, if◌then◌else◌}
use net_mapper.Mapper.Hosts.{
  Hosts, new_hosts, last_seen, see, remember, remember_each, remember_one, publish,
  forget_hosts_older_than, forget_each,
}
use net_mapper.Mapper.Hosts.Invariant.{AgreesWithMetrics}
use net_mapper.Mapper.Hosts.Memory.{
  IsUnique, is_among, last_seen-remember, keep_recent, last_seen-forget,
}
use net_mapper.Mapper.Hosts.Reachable.{Reachable, started, remembered, Reachable-consistent}

abbrev two_hosts : Hosts
two_hosts =
    remember 2000 2 (codes "a" ∷ codes "b" ∷ []) (remember 1000 1 (codes "a" ∷ []) new_hosts)

-- "a" is seen again, "b" is new.
two_hosts_run : two_hosts ≡ record {
  remembered = (codes "a", 2000) ∷ (codes "b", 2000) ∷ [];
  discovered = 2;
  forgotten = 0;
  active = 2;
  last_changed = 2;
}
unfolding remember remember_each remember_one publish see last_seen str_eq
two_hosts_run = refl

forget_all :
    forget_hosts_older_than 5000 5 2999 two_hosts
    ≡ record { remembered = []; discovered = 2; forgotten = 2; active = 0; last_changed = 5 }
unfolding forget_hosts_older_than forget_each remember remember_each remember_one publish see
    last_seen str_eq
forget_all = refl

two_hosts-Reachable : Reachable two_hosts
two_hosts-Reachable =
    remembered 2000 2 (codes "a" ∷ codes "b" ∷ []) _
      (remembered 1000 1 (codes "a" ∷ []) new_hosts started)

two_hosts-IsUnique : IsUnique two_hosts.remembered
two_hosts-IsUnique = (Reachable-consistent two_hosts two_hosts-Reachable).1

Reachable-consistent_example : AgreesWithMetrics two_hosts × IsUnique two_hosts.remembered
Reachable-consistent_example = Reachable-consistent two_hosts two_hosts-Reachable

last_seen-remember_run :
    last_seen (codes "b") (remember 3000 3 (codes "a" ∷ []) two_hosts).remembered ≡ (
      if is_among (codes "b") (codes "a" ∷ [])
      then some 3000
      else last_seen (codes "b") two_hosts.remembered)
last_seen-remember_run = last_seen-remember 3000 3 (codes "a" ∷ []) two_hosts (codes "b")

last_seen-forget_example :
    last_seen (codes "b") (forget_hosts_older_than 5000 5 2999 two_hosts).remembered
    ≡ keep_recent 5000 2999 (last_seen (codes "b") two_hosts.remembered)
last_seen-forget_example = last_seen-forget 5000 5 2999 two_hosts (codes "b") two_hosts-IsUnique
