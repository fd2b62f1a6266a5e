-- ===== src/Mibdb/Object/Tests.antt =====
-- The objects `org` of iso and 3, `dod` of org and 6, and `loop` of itself and 1.
use net_mapper.Prelude.{
  ℕ, zero, suc, ◌≡◌, refl, arith, inl, inr, List, [], ◌∷◌, none, some, Bytes, codes, str_eq,
  if◌then◌else◌, All, Outcome, ok, err,
}
use net_mapper.Go.Oid.{Oid}
use net_mapper.Go.Decimal.{parse_int, signed_digits, digits_value}
use net_mapper.Mibdb.Object.{
  LookupError, unknown_definition, Definition, object, Store, compile_value,
}
use net_mapper.Mibdb.Object.Resolve.{
  HasOid, IsSound, IsResolved, compile_value-HasOid, compile_value-names_itself,
}

abbrev elements_of : ℕ → List Bytes
elements_of zero = codes "iso" ∷ codes "3" ∷ []
elements_of (suc zero) = codes "org" ∷ codes "6" ∷ []
elements_of (suc (suc zero)) = codes "loop" ∷ codes "1" ∷ []
elements_of (suc (suc (suc _))) = []

abbrev store : Store
store i = record { name = []; elements = elements_of i; compiled = [] }

abbrev find : Bytes → Outcome LookupError Definition
find name =
    if str_eq name (codes "org")
    then ok (object 0)
    else if str_eq name (codes "loop")
    then ok (object 2)
    else err (unknown_definition name)

abbrev meta : ℕ → Outcome ℕ (Unit {0})
meta i = ok tt

-- Without the object that names itself.
abbrev two_objects : ℕ → List Bytes
two_objects zero = codes "iso" ∷ codes "3" ∷ []
two_objects (suc zero) = codes "org" ∷ codes "6" ∷ []
two_objects (suc (suc _)) = []

abbrev small_store : Store
small_store i = record { name = []; elements = two_objects i; compiled = [] }

small_store-IsSound : IsSound find two_objects small_store
small_store-IsSound = record { elements = λ i. refl; compiled = λ i. inl refl }

two_objects-IsResolved : (i : ℕ) → All (IsResolved find two_objects (λ j. j) i) (two_objects i)
unfolding parse_int signed_digits digits_value str_eq
two_objects-IsResolved zero = (inr (refl, inl refl), (inl (3, refl), tt))
two_objects-IsResolved (suc zero) =
    (inr (refl, inr (refl, (0, refl, omega arith))), (inl (6, refl), tt))
two_objects-IsResolved (suc (suc _)) = tt

compile_value-HasOid_example :
    (s : Store) × (oid : Oid) × (compile_value find meta 2 small_store 1 ≡ some (s, ok oid))
    × HasOid find two_objects 1 oid
    × IsSound find two_objects s
compile_value-HasOid_example =
    compile_value-HasOid find two_objects meta (λ i. i) 2 small_store 1 (λ i. refl)
      two_objects-IsResolved small_store-IsSound (omega arith)

compile_value-names_itself_example : compile_value find meta 100 store 2 ≡ none
unfolding parse_int signed_digits digits_value str_eq
compile_value-names_itself_example =
    compile_value-names_itself find meta 100 store 2 (codes "loop") (codes "1" ∷ []) refl refl refl
      refl refl refl
