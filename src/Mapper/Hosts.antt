-- ===== src/Mapper/Hosts.antt =====
-- cmd/dsnet-mapper/hosts.go: the hosts of one source, and the metrics under its label.
-- Only the `Hosts` of a source writes the metrics with that label, so they stand beside the map in one
-- state. The map is an association list with one entry for a host; a nil map is the empty one. Times
-- are nanoseconds; `now` is what `time.Now` returned, and a duration is not negative.
pub mod Invariant
pub mod Memory
pub mod Reachable
mod Tests
use net_mapper.Prelude.{ℕ, ◌+◌, Bool, true, false, List, [], ◌∷◌, Option, none, some}
use net_mapper.Prelude.{Bytes, ltb, str_eq, if◌then◌else◌, length}

abbrev pub Remembered : Type 0
Remembered = List (Bytes × ℕ)

-- `hosts_discovered`, `hosts_forgetten`, `hosts_active` and `hosts_last_changed`.
pub record Hosts : Type 0 where
  pub remembered : Remembered
  pub discovered : ℕ
  pub forgotten : ℕ
  pub active : ℕ
  pub last_changed : ℕ

abbrev pub new_hosts : Hosts
new_hosts = record { remembered = []; discovered = 0; forgotten = 0; active = 0; last_changed = 0 }

unfoldable pub last_seen : Bytes → Remembered → Option ℕ
last_seen host [] = none
last_seen host ((h, t) ∷ m) = if str_eq h host then some t else last_seen host m

-- `h.remembered[host] = now`
unfoldable pub see : Bytes → ℕ → Remembered → Remembered
see host now [] = (host, now) ∷ []
see host now ((h, t) ∷ m) = if str_eq h host then (h, now) ∷ m else (h, t) ∷ see host now m

-- One round of the loop of `Remember`; the flag is `changed`.
unfoldable pub remember_one : ℕ → Bytes → Hosts × Bool → Hosts × Bool
remember_one now host (h, changed) =
    let seen = see host now h.remembered in
    elim (last_seen host h.remembered) [
      | none ↦ (record h { remembered = seen; discovered = h.discovered + 1 }, true)
      | some _ ↦ (record h { remembered = seen }, changed)
    ]

unfoldable pub remember_each : ℕ → List Bytes → Hosts × Bool → Hosts × Bool
remember_each now [] s = s
remember_each now (host ∷ hosts) s = remember_each now hosts (remember_one now host s)

-- The end of both operations. `seconds` is `now.Unix()`.
unfoldable pub publish : ℕ → Hosts × Bool → Hosts
publish seconds (h, changed) =
    if changed then record h { active = length h.remembered; last_changed = seconds } else h

unfoldable pub remember : ℕ → ℕ → List Bytes → Hosts → Hosts
remember now seconds hosts h = publish seconds (remember_each now hosts (h, false))

-- `now.Sub(lastSeen) > d`
abbrev pub is_older : ℕ → ℕ → ℕ → Bool
is_older now d t = ltb (t + d) now

-- The loop of `ForgetHostsOlderThan`: what stays, how many entries were deleted, and `changed`.
unfoldable pub forget_each : ℕ → ℕ → Remembered → Remembered × ℕ × Bool
forget_each now d [] = ([], 0, false)
forget_each now d ((h, t) ∷ m) =
    let (kept, gone, changed) = forget_each now d m in
    if is_older now d t then (kept, gone + 1, true) else ((h, t) ∷ kept, gone, changed)

unfoldable pub forget_hosts_older_than : ℕ → ℕ → ℕ → Hosts → Hosts
forget_hosts_older_than now seconds d h =
    let (kept, gone, changed) = forget_each now d h.remembered in
    publish seconds (record h { remembered = kept; forgotten = h.forgotten + gone }, changed)
