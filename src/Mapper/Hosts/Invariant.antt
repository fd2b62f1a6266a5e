-- ===== src/Mapper/Hosts/Invariant.antt =====
-- The metrics agree with the map.
use net_mapper.Prelude.{
  ℕ, suc, ◌+◌, ◌≡◌, refl, arith, Bool, true, false, List, [], ◌∷◌, none, some, inl, inr,
}
use net_mapper.Prelude.{Bytes, length, Option-cases}
use net_mapper.Mapper.Hosts.{
  Remembered, Hosts, last_seen, see, remember_one, remember_each, publish, remember, forget_each,
  forget_hosts_older_than,
}

-- The hosts discovered are those forgotten and those in the map, and the gauge shows the latter.
pub record AgreesWithMetrics (h : Hosts) : Type 0 where
  pub balance : h.discovered ≡ h.forgotten + length h.remembered
  pub gauge : h.active ≡ length h.remembered

length-see_new :
    (host : Bytes) (now : ℕ) (m : Remembered)
    → last_seen host m ≡ none
    → length (see host now m) ≡ suc (length m)
unfolding see last_seen
length-see_new host now [] absent = refl
length-see_new host now ((h, t) ∷ m) absent = ground (arith, length-see_new host now m)

length-see_old :
    (host : Bytes) (now : ℕ) (m : Remembered) (t : ℕ)
    → last_seen host m ≡ some t
    → length (see host now m) ≡ length m
unfolding see last_seen
length-see_old host now [] t there = absurd (cc)
length-see_old host now ((h, u) ∷ m) t there = ground (arith, length-see_old host now m t)

-- Inside a loop the gauge may be behind, if `changed` is set.
record IsCounted (s : Hosts × Bool) : Type 0 where
  balance : s.0.discovered ≡ s.0.forgotten + length s.0.remembered
  gauge : s.1 ≡ false → s.0.active ≡ length s.0.remembered

publish-AgreesWithMetrics :
    (seconds : ℕ) (s : Hosts × Bool) → IsCounted s → AgreesWithMetrics (publish seconds s)
unfolding publish
publish-AgreesWithMetrics seconds (h, true) c = record { balance = c.balance; gauge = refl }
publish-AgreesWithMetrics seconds (h, false) c = record {
  balance = c.balance;
  gauge = c.gauge refl;
}

remember_one-IsCounted :
    (now : ℕ) (host : Bytes) (s : Hosts × Bool) → IsCounted s → IsCounted (remember_one now host s)
unfolding remember_one
remember_one-IsCounted now host (h, changed) c = elim (Option-cases (last_seen host h.remembered)) [
  | inl absent ↦
      rw (absent, remember_one)
        (record {
          balance = rw (length-see_new host now h.remembered absent) (omega (arith, c.balance));
          gauge = λ e. absurd (cc);
        })
  | inr (t, there) ↦
      rw (there, remember_one)
        (record {
          balance = rw (length-see_old host now h.remembered t there) c.balance;
          gauge = λ e. rw (length-see_old host now h.remembered t there) (c.gauge e);
        })
]

remember_each-IsCounted :
    (now : ℕ) (hosts : List Bytes) (s : Hosts × Bool)
    → IsCounted s
    → IsCounted (remember_each now hosts s)
unfolding remember_each
remember_each-IsCounted now [] s c = c
remember_each-IsCounted now (host ∷ hosts) s c =
    remember_each-IsCounted now hosts (remember_one now host s)
      (remember_one-IsCounted now host s c)

-- `Remember` keeps the metrics in step with the map, whatever hosts it is given.
pub remember-AgreesWithMetrics :
    (now seconds : ℕ) (hosts : List Bytes) (h : Hosts)
    → AgreesWithMetrics h
    → AgreesWithMetrics (remember now seconds hosts h)
unfolding remember
remember-AgreesWithMetrics now seconds hosts h a =
    publish-AgreesWithMetrics seconds (remember_each now hosts (h, false)) (
      remember_each-IsCounted now hosts (h, false)
        (record { balance = a.balance; gauge = λ _. a.gauge }))

forget_each-length :
    (now d : ℕ) (m : Remembered)
    → (let (kept, gone, changed) = forget_each now d m in
        (length m ≡ gone + length kept) × (changed ≡ false → gone ≡ 0))
unfolding forget_each
forget_each-length now d [] = (refl, λ _. refl)
forget_each-length now d ((h, t) ∷ m) = ground (arith, forget_each-length now d m)

-- `ForgetHostsOlderThan` keeps the metrics in step with the map.
pub forget-AgreesWithMetrics :
    (now seconds d : ℕ) (h : Hosts)
    → AgreesWithMetrics h
    → AgreesWithMetrics (forget_hosts_older_than now seconds d h)
unfolding forget_hosts_older_than
forget-AgreesWithMetrics now seconds d h a =
    let (sizes, same) = forget_each-length now d h.remembered in
    publish-AgreesWithMetrics seconds _ (record {
      balance = omega (arith, sizes, a.balance);
      gauge = λ e. omega (arith, sizes, same e, a.gauge);
    })
