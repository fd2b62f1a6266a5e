-- ===== src/Prelude/Assoc.antt =====
-- A Go map as an association list: what is put last at a key stands there.
use mathlib.Core.Path.{◌≡◌, refl}
use mathlib.Core.Option.{Option, none, some}
use mathlib.Core.List.{List, [], ◌∷◌}
use native.Mathlib.Omega.{arith}
use net_mapper.Prelude.Tests.{Bytes, str_eq, str_eq_iff, if◌then◌else◌}

abbrev pub Assoc {ℓ} : Type ℓ → Type ℓ
Assoc A = List (Bytes × A)

module _ {ℓ} {A : Type ℓ} where
  -- `v, ok := m[key]`
  unfoldable pub lookup : Bytes → Assoc A → Option A
  lookup key [] = none
  lookup key ((k, v) ∷ m) = if str_eq k key then some v else lookup key m

  -- `m[key] = v`
  unfoldable pub put : Bytes → A → Assoc A → Assoc A
  put key v [] = (key, v) ∷ []
  put key v ((k, w) ∷ m) = if str_eq k key then (k, v) ∷ m else (k, w) ∷ put key v m

  pub lookup-put :
      (key : Bytes) (v : A) (m : Assoc A) (j : Bytes)
      → lookup j (put key v m) ≡ (if str_eq key j then some v else lookup j m)
  unfolding lookup put
  lookup-put key v [] j = refl
  lookup-put key v ((k, w) ∷ m) j =
      ground (arith, lookup-put key v m j, str_eq_iff k key, str_eq_iff k j, str_eq_iff key j)
