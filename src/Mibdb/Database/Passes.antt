-- ===== src/Mibdb/Database/Passes.antt =====
-- The passes come to an end.
use net_mapper.Prelude.{
  some-ne-none, ℕ, zero, suc, ◌+◌, ◌<◌, ◌≡◌, ◌≢◌, arith, List, [], ◌∷◌, ◌++◌, Option, none, some,
  length, length-append, Outcome, ok, err, panicked, Bool-cases, Option-cases, inl, inr, ◌==◌,
}
use net_mapper.Mibdb.Database.{Pass, after_attempt, one_pass, passes}

module _ {S N E : Type 0} (attempt : S → N → S × Outcome E (Unit {0})) where
  -- What has been attempted has failed or succeeded.
  attempt-count :
      (n : N) (p q : Pass S N E) (r : S × Outcome E (Unit {0}))
      → after_attempt attempt n p r ≡ some q
      → length q.failed + q.successes ≡ suc (length p.failed + p.successes)
  unfolding after_attempt
  attempt-count n p q (s, ok u) h =
      let same : record p { state = s; successes = p.successes + 1 } ≡ q = cc in
      rw (← same) (omega arith)
  attempt-count n p q (s, err e) h =
      let same : record p { state = s; failed = p.failed ++ n ∷ []; errors = p.errors ++ e ∷ [] }
          ≡ q =
        cc in
      rw (← same) (omega (arith, length-append p.failed (n ∷ [])))
  attempt-count n p q (s, panicked) h = absurd (cc)

  pub one_pass-count :
      (ns : List N) (p q : Pass S N E)
      → one_pass attempt ns p ≡ some q
      → length q.failed + q.successes ≡ length ns + (length p.failed + p.successes)
  unfolding one_pass
  one_pass-count [] p q h = let same : p ≡ q = cc in rw same (omega arith)
  one_pass-count (n ∷ ns) p q h =
      elim (Option-cases (after_attempt attempt n p (attempt p.state n))) [
        | inl e ↦ let no : ◌≡◌ {A = Option (Pass S N E)} none (some q) = rw (e, one_pass) at h in cc
        | inr (p', e) ↦
            let rest = one_pass-count ns p' q (rw (e, one_pass) at h) in
            omega (arith, rest, attempt-count n p p' (attempt p.state n) e)
      ]

  pub passes-enough_fuel :
      (fuel : ℕ) (s : S) (ns : List N) → length ns < fuel → passes attempt fuel s ns ≢ none
  unfolding passes
  passes-enough_fuel zero s ns h e = absurd (omega arith)
  passes-enough_fuel (suc fuel) s [] h e = cc
  passes-enough_fuel (suc fuel) s (n ∷ ns) h e =
      let start : Pass S N E = record { state = s; failed = []; errors = []; successes = 0 } in
      elim (Option-cases (one_pass attempt (n ∷ ns) start)) [
        | inl panics ↦ absurd (some-ne-none _ (rw (panics, passes) at e))
        | inr (p, done) ↦ elim (Bool-cases (p.successes == 0)) [
          | inl stuck ↦ absurd (some-ne-none _ (rw (done, stuck, passes) at e))
          | inr more ↦
              let count = one_pass-count (n ∷ ns) start p done in
              let fewer : length p.failed < fuel = ground (arith, count, more) in
              passes-enough_fuel fuel p.state p.failed fewer (rw (done, more, passes) at e)
        ]
      ]
