-- ===== src/Prelude/Results.antt =====
-- What a Go call gives: a result, an error value, or a run-time panic.
use mathlib.Core.Path.{◌≡◌, refl}
use mathlib.Core.Logic.{◌≢◌}
use mathlib.Core.Bool.{true, false}
use mathlib.Core.Option.{none, some}

-- `panicked` stands for an index, slice or shift out of range, which ends the goroutine.
pub data Outcome {ℓ κ} (E : Type ℓ) (A : Type κ) : Type (ℓ ⊔ κ) where
  ok : A → Outcome E A
  err : E → Outcome E A
  panicked : Outcome E A

infixl 5 ◌>>=◌
abbrev pub ◌>>=◌ {ℓ κ μ} :
    {E : Type ℓ} {A : Type κ} {B : Type μ} → Outcome E A → (A → Outcome E B) → Outcome E B
ok a >>= f = f a
err e >>= f = err e
panicked >>= f = panicked

-- A chain that gives a result has a first step that gives one, from which the rest goes on.
pub >>=-eq-ok {ℓ κ μ} :
    {E : Type ℓ} {A : Type κ} {B : Type μ} (first : Outcome E A) (rest : A → Outcome E B)
    {result : B}
    → (first >>= rest) ≡ ok result
    → (x : A) × (first ≡ ok x) × (rest x ≡ ok result)
>>=-eq-ok panicked rest chained = cc
>>=-eq-ok (err e) rest chained = cc
>>=-eq-ok (ok x) rest chained = (x, refl, chained)

pub ok_injective {ℓ κ} :
    {E : Type ℓ} {A : Type κ} {a b : A} → ◌≡◌ {A = Outcome E A} (ok a) (ok b) → a ≡ b
ok_injective h = cc

pub some-ne-none {ℓ} : {A : Type ℓ} (a : A) → some a ≢ none
some-ne-none a h = cc

pub some_injective {ℓ} : {A : Type ℓ} {a b : A} → some a ≡ some b → a ≡ b
some_injective h = cc

pub err-ne-ok {ℓ κ} :
    {E : Type ℓ} {A : Type κ} (e : E) (a : A) → ◌≢◌ {A = Outcome E A} (err e) (ok a)
err-ne-ok e a h = cc

pub true-ne-false : true ≢ false
true-ne-false h = cc
