-- ===== src/Mibdb/OidBranch/Define.antt =====
-- The tree as a map from OIDs to objects.
use net_mapper.Prelude.{
  ℕ, Option, none, some, [], ◌∷◌, ◌==◌, if◌then◌else◌, ◌≡◌, refl, arith, ==_iff, str_eq, Bool-cases,
  Option-cases, ap, inl, inr,
}
use net_mapper.Go.Oid.{Oid}
use net_mapper.Mibdb.OidBranch.{
  Branch, Children, nil, child, children, get_child, set_child, child_or_new, new_branch,
  add_definition, def_at,
}

module _ {A : Type 0} where
  get_child-set_child :
      (k j : ℕ) (b : Branch A) (cs : Children A)
      → get_child j (set_child k b cs) ≡ (if k == j then some b else get_child j cs)
  unfolding get_child set_child
  get_child-set_child k j b nil = refl
  get_child-set_child k j b (child i c cs) = ground (arith, get_child-set_child k j b cs)

  def_at-new_branch : (q : Oid) → def_at {A = A} new_branch q ≡ none
  unfolding def_at get_child
  def_at-new_branch [] = refl
  def_at-new_branch (k ∷ q) = refl

  def_at-child_or_new :
      (b : Branch A) (k : ℕ) (q : Oid) → def_at (child_or_new k (children b)) q ≡ def_at b (k ∷ q)
  unfolding child_or_new def_at
  def_at-child_or_new b k q = elim (Option-cases (get_child k (children b))) [
    | inl e ↦ rw (e, child_or_new, def_at) (def_at-new_branch q)
    | inr (c, e) ↦ rw (e, child_or_new, def_at)
  ]

  -- addDefinition sets the object at its OID and leaves the objects at all other OIDs as they
  -- were.
  pub def_at-add_definition :
      (b : Branch A) (p q : Oid) (d : Option A)
      → def_at (add_definition b p d) q ≡ (if str_eq p q then d else def_at b q)
  unfolding add_definition def_at str_eq
  def_at-add_definition b [] [] d = refl
  def_at-add_definition b [] (j ∷ q) d = refl
  def_at-add_definition b (k ∷ p) [] d = refl
  def_at-add_definition b (k ∷ p) (j ∷ q) d =
      let below = add_definition (child_or_new k (children b)) p d in
      rw (get_child-set_child k j below (children b), def_at)
        (elim (Bool-cases (k == j)) [
          | inl same ↦ rw (
            same,
            def_at-add_definition (child_or_new k (children b)) p q d,
            ap (λ i. def_at (child_or_new i (children b)) q) ((==_iff k j).0 same),
            def_at-child_or_new b j q,
            def_at,
          )
          | inr other ↦ rw other
        ])
