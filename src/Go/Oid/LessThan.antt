-- ===== src/Go/Oid/LessThan.antt =====
-- `LessThan` is a strict total order on OIDs.
use net_mapper.Prelude.{◌^◌, ◌<◌, ◌≡◌, ◌≢◌, refl, arith, true, false, not, All, [], ◌∷◌}
use net_mapper.Prelude.{◌⊎◌, inl, inr}
use net_mapper.Go.Oid.{Oid, less_than}

abbrev pub AreInts : Oid → Type 0
AreInts = All (λ n. n < 2 ^ 64)

-- An OID that is less than a second, which is less than a third, is less than the third.
pub less_than_trans :
    (o p q : Oid) → less_than o p ≡ true → less_than p q ≡ true → less_than o q ≡ true
unfolding less_than
less_than_trans [] [] [] h k = h
less_than_trans [] (b ∷ p) [] h k = cc
less_than_trans [] p (c ∷ q) h k = refl
less_than_trans (a ∷ o) [] q h k = cc
less_than_trans (a ∷ o) (b ∷ p) [] h k = cc
less_than_trans (a ∷ o) (b ∷ p) (c ∷ q) h k = ground (arith, less_than_trans o p q)

-- Of two different OIDs, whose elements are 64-bit ints, exactly one is less than the other, and
-- none is less than itself.
pub less_than_total :
    (o p : Oid)
    → AreInts o
    → AreInts p
    → ((o ≡ p) × (less_than o p ≡ false) × (less_than p o ≡ false))
      ⊎ ((o ≢ p) × (less_than o p ≡ not (less_than p o)))
unfolding less_than
less_than_total [] [] ho hp = inl (refl, refl, refl)
less_than_total [] (b ∷ p) ho hp = inr (λ e. cc, refl)
less_than_total (a ∷ o) [] ho hp = inr (λ e. cc, refl)
less_than_total (a ∷ o) (b ∷ p) (ha, ho) (hb, hp) = ground (arith, less_than_total o p ho hp)
