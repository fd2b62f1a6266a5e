-- ===== src/Binary/Registry.antt =====
-- pkg/asn1/asn1binary/provider.go: the providers that make packers and unpackers.
-- `Any` stands for the Go values, a parameter. A priority is an int that is not negative.
pub mod Order
pub mod Laws
mod Tests
use net_mapper.Prelude.{ℕ, Bool, true, false, ◌&&◌, ◌||◌, List, [], ◌∷◌, ◌++◌, Option, none, some}
use net_mapper.Prelude.{Bytes, ltb, ◌==◌, str_eq, if◌then◌else◌, Outcome, ok, err, ◌>>=◌}
use net_mapper.Binary.Error.{Error}
use net_mapper.Binary.Interface.{Packer, Unpacker}

pub data RegistryError : Type 0 where
  already_registered : Bytes → RegistryError
  none_registered none_found : RegistryError

-- A provider function returns an error or a pointer, which may be nil.
pub data Offer (A : Type 0) : Type 0 where
  refused : Error → Offer A
  nil_pointer : Offer A
  offers : A → Offer A

pub record Provider (Any : Type 0) : Type 0 where
  pub priority : ℕ
  pub name : Bytes
  pub packer : Any → Offer Packer
  pub unpacker : Any → Offer (Unpacker Any)

-- `strings.Compare(a, b) < 0`
unfoldable pub str_less : Bytes → Bytes → Bool
str_less [] [] = false
str_less [] (y ∷ ys) = true
str_less (x ∷ xs) [] = false
str_less (x ∷ xs) (y ∷ ys) = ltb x y || x == y && str_less xs ys

-- `err == nil && packer != nil`
abbrev pub offered : {A : Type 0} → Offer A → Option A
offered (refused e) = none
offered nil_pointer = none
offered (offers a) = some a

module _ {Any : Type 0} where
  -- The comparison of `slices.SortFunc` gives a negative number.
  abbrev pub precedes : Provider Any → Provider Any → Bool
  precedes i j = ltb j.priority i.priority || i.priority == j.priority && str_less i.name j.name

  -- `slices.SortFunc`; no two providers have one name, so there is only one order.
  unfoldable pub insert : Provider Any → List (Provider Any) → List (Provider Any)
  insert p [] = p ∷ []
  insert p (q ∷ qs) = let rest = insert p qs in if precedes p q then p ∷ q ∷ qs else q ∷ rest

  unfoldable pub sort : List (Provider Any) → List (Provider Any)
  sort [] = []
  sort (p ∷ ps) = insert p (sort ps)

  unfoldable pub has_name : Bytes → List (Provider Any) → Bool
  has_name name [] = false
  has_name name (p ∷ ps) = str_eq p.name name || has_name name ps

  -- `RegisterProviderFuncs`
  unfoldable pub register :
      Provider Any → List (Provider Any) → Outcome RegistryError (List (Provider Any))
  register p ps =
      if has_name p.name ps then err (already_registered p.name) else ok (sort (ps ++ (p ∷ [])))

  unfoldable pub register_all :
      List (Provider Any) → List (Provider Any) → Outcome RegistryError (List (Provider Any))
  register_all [] ps = ok ps
  register_all (q ∷ qs) ps = register q ps >>= register_all qs

  unfoldable pub not_found : {A : Type 0} → List (Provider Any) → Outcome RegistryError A
  not_found [] = err none_registered
  not_found (p ∷ ps) = err none_found

  -- The first of the providers that gives something.
  unfoldable pub first_offer :
      {A : Type 0} → (Provider Any → Offer A) → List (Provider Any) → Option A
  first_offer ask [] = none
  first_offer ask (p ∷ ps) =
      let rest = first_offer ask ps in elim (offered (ask p)) [ some a ↦ some a | none ↦ rest ]

  unfoldable pub get_packer_for : List (Provider Any) → Any → Outcome RegistryError Packer
  unfolding not_found
  get_packer_for ps i = elim (first_offer (λ p. p.packer i) ps) [
    | some packer ↦ ok packer
    | none ↦ not_found ps
  ]

  unfoldable pub get_unpacker_for : List (Provider Any) → Any → Outcome RegistryError (Unpacker Any)
  unfolding not_found
  get_unpacker_for ps i = elim (first_offer (λ p. p.unpacker i) ps) [
    | some unpacker ↦ ok unpacker
    | none ↦ not_found ps
  ]
