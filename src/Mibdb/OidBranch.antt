-- ===== src/Mibdb/OidBranch.antt =====
-- pkg/snmp/mibdb/oidbranch.go: the tree in which an object is found by its OID.
-- A branch is a value, so its `parent` is the branch that it is reached from. The map of the
-- children is an association list with one entry for a key. `A` is `*Object`, and `none` is nil.
pub mod Define
pub mod Find
mod Tests
use net_mapper.Prelude.{ℕ, Option, none, some, List, [], ◌∷◌, ◌==◌, if◌then◌else◌}
use net_mapper.Go.Oid.{Oid}

mutual
  pub data Branch (A : Type 0) : Type 0 where
    branch : Option A → Children A → Branch A

  pub data Children (A : Type 0) : Type 0 where
    nil : Children A
    child : ℕ → Branch A → Children A → Children A

module _ {A : Type 0} where
  abbrev pub def : Branch A → Option A
  def (branch d cs) = d

  abbrev pub children : Branch A → Children A
  children (branch d cs) = cs

  abbrev pub new_branch : Branch A
  new_branch = branch none nil

  unfoldable pub get_child : ℕ → Children A → Option (Branch A)
  get_child k nil = none
  get_child k (child j b cs) = if j == k then some b else get_child k cs

  -- `branch.children[k] = b`, or a change of the child that is there.
  unfoldable pub set_child : ℕ → Branch A → Children A → Children A
  set_child k b nil = child k b nil
  set_child k b (child j c cs) = if j == k then child j b cs else child j c (set_child k b cs)

  -- The child that is there, or the new one.
  unfoldable pub child_or_new : ℕ → Children A → Branch A
  unfolding get_child
  child_or_new k cs = elim (get_child k cs) [ none ↦ new_branch | some b ↦ b ]

  unfoldable pub add_definition : Branch A → Oid → Option A → Branch A
  add_definition b [] d = branch d (children b)
  add_definition b (k ∷ ks) d =
      branch (def b) (set_child k (add_definition (child_or_new k (children b)) ks d) (children b))

  -- The choice of `findOID` between the branch and what was found below it.
  unfoldable pub prefer_below : Branch A → Oid → Branch A × Oid → Branch A × Oid
  prefer_below b oid (c, tail) = elim (def c) [ none ↦ (b, oid) | some _ ↦ (c, tail) ]

  unfoldable pub find_oid : Branch A → Oid → Branch A × Oid
  find_oid b [] = (b, [])
  find_oid b (k ∷ ks) = elim (get_child k (children b)) [
    | none ↦ (b, k ∷ ks)
    | some c ↦ prefer_below b (k ∷ ks) (find_oid c ks)
  ]

  -- What the tree holds at a path, independently of how it is searched.
  unfoldable pub branch_at : Branch A → Oid → Option (Branch A)
  branch_at b [] = some b
  branch_at b (k ∷ ks) = elim (get_child k (children b)) [ none ↦ none | some c ↦ branch_at c ks ]

  unfoldable pub def_at : Branch A → Oid → Option A
  def_at b [] = def b
  def_at b (k ∷ ks) = elim (get_child k (children b)) [ none ↦ none | some c ↦ def_at c ks ]
