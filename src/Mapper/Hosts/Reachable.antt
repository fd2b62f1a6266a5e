-- ===== src/Mapper/Hosts/Reachable.antt =====
-- The states that a sequence of `Remember` and `ForgetHostsOlderThan` leads to.
use net_mapper.Prelude.{ℕ, List, Bytes, refl}
use net_mapper.Mapper.Hosts.{Hosts, new_hosts, remember, forget_hosts_older_than}
use net_mapper.Mapper.Hosts.Invariant.{
  AgreesWithMetrics, remember-AgreesWithMetrics, forget-AgreesWithMetrics,
}
use net_mapper.Mapper.Hosts.Memory.{IsUnique, remember-IsUnique, forget-IsUnique}

-- From the state in which `updateHostsFromSource` makes a `Hosts`, in any order and at any times.
pub data Reachable : Hosts → Type 0 where
  started : Reachable new_hosts
  remembered :
      (now seconds : ℕ) (hosts : List Bytes) (h : Hosts)
      → Reachable h
      → Reachable (remember now seconds hosts h)
  forgot :
      (now seconds d : ℕ) (h : Hosts)
      → Reachable h
      → Reachable (forget_hosts_older_than now seconds d h)

new_hosts-IsUnique : IsUnique new_hosts.remembered
unfolding IsUnique
new_hosts-IsUnique = tt

-- In every state that Remember and ForgetHostsOlderThan reach, the map has one entry for a host,
-- the hosts discovered are those forgotten and those in the map, and the gauge shows the size of
-- the map.
pub Reachable-consistent : (h : Hosts) → Reachable h → AgreesWithMetrics h × IsUnique h.remembered
Reachable-consistent _ started = (record { balance = refl; gauge = refl }, new_hosts-IsUnique)
Reachable-consistent _ (remembered now seconds hosts h r) =
    let (agrees, unique) = Reachable-consistent h r in
    (
      remember-AgreesWithMetrics now seconds hosts h agrees,
      remember-IsUnique now seconds hosts h unique,
    )
Reachable-consistent _ (forgot now seconds d h r) =
    let (agrees, unique) = Reachable-consistent h r in
    (forget-AgreesWithMetrics now seconds d h agrees, forget-IsUnique now seconds d h unique)
