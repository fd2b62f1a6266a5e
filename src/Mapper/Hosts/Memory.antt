-- ===== src/Mapper/Hosts/Memory.antt =====
-- What is remembered, and for how long.
use net_mapper.Prelude.{
  ℕ, ◌+◌, ◌≡◌, refl, arith, Bool, false, ◌||◌, List, [], ◌∷◌, none, some, inl, inr,
}
use net_mapper.Prelude.{
  Bytes, ltb, str_eq, str_eq_iff, if◌then◌else◌, Bool-cases, ap, sym, ◌∙◌, Option,
}
use net_mapper.Mapper.Hosts.{
  Remembered, Hosts, last_seen, see, remember_one, remember_each, publish, remember, forget_each,
  forget_hosts_older_than,
}

-- A map has one entry for a host.
unfoldable pub IsUnique : Remembered → Type 0
IsUnique [] = Unit
IsUnique ((h, t) ∷ m) = (last_seen h m ≡ none) × IsUnique m

unfoldable pub is_among : Bytes → List Bytes → Bool
is_among host [] = false
is_among host (h ∷ hosts) = str_eq h host || is_among host hosts

last_seen-see :
    (host other : Bytes) (now : ℕ) (m : Remembered)
    → last_seen other (see host now m) ≡ (if str_eq host other then some now else last_seen other m)
unfolding see last_seen
last_seen-see host other now [] = refl
last_seen-see host other now ((h, t) ∷ m) =
    let ih = last_seen-see host other now m in
    let a = str_eq_iff h host in
    let b = str_eq_iff h other in let c = str_eq_iff host other in ground (arith, ih, a, b, c)

see-IsUnique : (host : Bytes) (now : ℕ) (m : Remembered) → IsUnique m → IsUnique (see host now m)
unfolding see last_seen IsUnique
see-IsUnique host now [] u = (refl, tt)
see-IsUnique host now ((h, t) ∷ m) (alone, u) = elim (Bool-cases (str_eq h host)) [
  | inl same ↦ rw (same, see) (alone, u)
  | inr other ↦
      let a = str_eq_iff h host in
      let b = str_eq_iff host h in
      let seen = last_seen-see host h now m in
      let apart : last_seen h (see host now m) ≡ none = ground (arith, a, b, seen) in
      rw (other, see) (apart, see-IsUnique host now m u)
]

remember_one-remembered :
    (now : ℕ) (host : Bytes) (s : Hosts × Bool)
    → (remember_one now host s).0.remembered ≡ see host now s.0.remembered
unfolding remember_one
remember_one-remembered now host (h, changed) = ground arith

publish-remembered :
    (seconds : ℕ) (s : Hosts × Bool) → (publish seconds s).remembered ≡ s.0.remembered
unfolding publish
publish-remembered seconds (h, changed) = ground arith

remember_each-IsUnique :
    (now : ℕ) (hosts : List Bytes) (s : Hosts × Bool)
    → IsUnique s.0.remembered
    → IsUnique (remember_each now hosts s).0.remembered
unfolding remember_each
remember_each-IsUnique now [] s u = u
remember_each-IsUnique now (host ∷ hosts) s u =
    remember_each-IsUnique now hosts (remember_one now host s)
      (rw (remember_one-remembered now host s) (see-IsUnique host now s.0.remembered u))

pub remember-IsUnique :
    (now seconds : ℕ) (hosts : List Bytes) (h : Hosts)
    → IsUnique h.remembered
    → IsUnique (remember now seconds hosts h).remembered
unfolding remember
remember-IsUnique now seconds hosts h u =
    rw (publish-remembered seconds (remember_each now hosts (h, false)))
      (remember_each-IsUnique now hosts (h, false) u)

last_seen-remember_each :
    (now : ℕ) (hosts : List Bytes) (s : Hosts × Bool) (host : Bytes)
    → last_seen host (remember_each now hosts s).0.remembered
      ≡ (if is_among host hosts then some now else last_seen host s.0.remembered)
unfolding remember_each is_among
last_seen-remember_each now [] s host = refl
last_seen-remember_each now (h ∷ hosts) s host =
    let ih = last_seen-remember_each now hosts (remember_one now h s) host in
    let one = remember_one-remembered now h s in
    let seen = last_seen-see h host now s.0.remembered in
    ground (arith, ih, ap (last_seen host) one, seen)

-- Remember gives each host of its arguments the present time and leaves every other host as it
-- was.
pub last_seen-remember :
    (now seconds : ℕ) (hosts : List Bytes) (h : Hosts) (host : Bytes)
    → last_seen host (remember now seconds hosts h).remembered
      ≡ (if is_among host hosts then some now else last_seen host h.remembered)
unfolding remember
last_seen-remember now seconds hosts h host =
    rw (publish-remembered seconds (remember_each now hosts (h, false)))
      (last_seen-remember_each now hosts (h, false) host)

-- What `ForgetHostsOlderThan` makes of one entry.
abbrev pub keep_recent : ℕ → ℕ → Option ℕ → Option ℕ
keep_recent now d none = none
keep_recent now d (some t) = if ltb (t + d) now then none else some t

last_seen-forget_each :
    (now d : ℕ) (m : Remembered) (host : Bytes)
    → IsUnique m
    → last_seen host (forget_each now d m).0 ≡ keep_recent now d (last_seen host m)
unfolding forget_each last_seen IsUnique
last_seen-forget_each now d [] host u = refl
last_seen-forget_each now d ((h, t) ∷ m) host (alone, u) =
    let ih = last_seen-forget_each now d m host u in
    elim (Bool-cases (str_eq h host)) [
      | inl same ↦
          let absent : last_seen host m ≡ none =
            sym (ap (λ k. last_seen k m) ((str_eq_iff h host).0 same)) ∙ alone in
          ground (arith, ih, absent, same)
      | inr other ↦ ground (arith, ih, other)
    ]

forget_each-IsUnique : (now d : ℕ) (m : Remembered) → IsUnique m → IsUnique (forget_each now d m).0
unfolding forget_each IsUnique
forget_each-IsUnique now d [] u = tt
forget_each-IsUnique now d ((h, t) ∷ m) (alone, u) =
    let ih = forget_each-IsUnique now d m u in
    let absent = last_seen-forget_each now d m h u in ground (arith, ih, absent)

forget_hosts-remembered :
    (now seconds d : ℕ) (h : Hosts)
    → (forget_hosts_older_than now seconds d h).remembered ≡ (forget_each now d h.remembered).0
unfolding forget_hosts_older_than
forget_hosts-remembered now seconds d h = publish-remembered seconds _

pub forget-IsUnique :
    (now seconds d : ℕ) (h : Hosts)
    → IsUnique h.remembered
    → IsUnique (forget_hosts_older_than now seconds d h).remembered
forget-IsUnique now seconds d h u =
    rw (forget_hosts-remembered now seconds d h) (forget_each-IsUnique now d h.remembered u)

-- Of a map with one entry for a host, ForgetHostsOlderThan drops exactly the hosts last seen more
-- than the duration ago and keeps the others with their times.
pub last_seen-forget :
    (now seconds d : ℕ) (h : Hosts) (host : Bytes)
    → IsUnique h.remembered
    → last_seen host (forget_hosts_older_than now seconds d h).remembered
      ≡ keep_recent now d (last_seen host h.remembered)
last_seen-forget now seconds d h host u =
    rw (forget_hosts-remembered now seconds d h) (last_seen-forget_each now d h.remembered host u)
