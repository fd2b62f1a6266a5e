-- ===== src/Mibdb/OidBranch/Find.antt =====
-- `findOID` finds the longest defined prefix.
use net_mapper.Prelude.{
  ℕ, ◌<◌, none, some, [], ◌∷◌, ◌++◌, ◌≡◌, ◌≢◌, refl, arith, Option-cases, inl, inr, ◌⊎◌, length,
  length-append, ap, ◌∙◌, sym, str_eq_refl, append-nil,
}
use mathlib.Core.Path.{subst}
use net_mapper.Go.Oid.{Oid}
use net_mapper.Mibdb.OidBranch.{
  Branch, def, children, get_child, find_oid, prefer_below, branch_at, def_at, add_definition,
}
use net_mapper.Mibdb.OidBranch.Define.{def_at-add_definition}

module _ {A : Type 0} where
  -- The branch is reached by a prefix of the OID and has an object, unless the prefix is empty; what
  -- is behind the prefix is returned too; and no longer prefix has an object.
  pub record IsLongestMatch (b : Branch A) (oid : Oid) (c : Branch A) (tail : Oid) : Type 0 where
    pub prefix : Oid
    pub splits : oid ≡ prefix ++ tail
    pub reached : branch_at b prefix ≡ some c
    pub defined : (prefix ≡ []) ⊎ (def c ≢ none)
    pub longest : (q rest : Oid) → oid ≡ q ++ rest → length rest < length tail → def_at b q ≡ none

  -- Nothing is found below, so the search ends here.
  stop_here :
      (b : Branch A) (oid : Oid)
      → ((j : ℕ) (q rest : Oid) → oid ≡ j ∷ (q ++ rest) → def_at b (j ∷ q) ≡ none)
      → IsLongestMatch b oid b oid
  unfolding branch_at
  stop_here b oid nothing = record {
    prefix = [];
    splits = refl;
    reached = refl;
    defined = inl refl;
    longest = go;
  }
    where
      go : (q rest : Oid) → oid ≡ q ++ rest → length rest < length oid → def_at b q ≡ none
      go [] rest e shorter = absurd (omega (arith, ap length e))
      go (j ∷ q) rest e shorter = nothing j q rest e

  -- An object below is reached through the child.
  through :
      (b c d : Branch A) (k : ℕ) (ks tail : Oid)
      → get_child k (children b) ≡ some c
      → def d ≢ none
      → IsLongestMatch c ks d tail
      → IsLongestMatch b (k ∷ ks) d tail
  unfolding branch_at def_at
  through b c d k ks tail here has m = record {
    prefix = k ∷ m.prefix;
    splits = ap (◌∷◌ k) m.splits;
    reached = rw (here, branch_at) m.reached;
    defined = inr has;
    longest = go;
  }
    where
      go : (q rest : Oid) → k ∷ ks ≡ q ++ rest → length rest < length tail → def_at b q ≡ none
      go [] rest e shorter =
          let sizes = ap length e in
          let split = ap length m.splits in
          absurd (omega (arith, sizes, split, length-append m.prefix tail))
      go (j ∷ q) rest e shorter =
          let same : k ≡ j = cc in
          let below : ks ≡ q ++ rest = cc in
          rw (sym same, here, def_at) (m.longest q rest below shorter)

  branch_at_root : (c d : Branch A) → branch_at c [] ≡ some d → c ≡ d
  unfolding branch_at
  branch_at_root c d r = cc

  -- A search that ends at a branch without an object found no object on its way.
  nothing_below :
      (c d : Branch A) (ks tail : Oid)
      → IsLongestMatch c ks d tail
      → def d ≡ none
      → (q rest : Oid) → ks ≡ q ++ rest
      → def_at c q ≡ none
  unfolding def_at
  nothing_below c d ks tail m lacks q rest e = elim m.defined [
    | inr has ↦ absurd (has lacks)
    | inl p ↦ go p q e
  ]
    where
      go : m.prefix ≡ [] → (q : Oid) → ks ≡ q ++ rest → def_at c q ≡ none
      go p [] e =
          let here : c ≡ d = branch_at_root c d (subst (λ r. branch_at c r ≡ some d) p m.reached) in
          rw (here, def_at) lacks
      go p (i ∷ q) e = m.longest (i ∷ q) rest e (
          omega (
            arith,
            ap length e,
            ap length m.splits,
            ap length p,
            length-append m.prefix tail,
            length-append q rest,
          ))

  -- Whatever was found below, the branch itself or what is below is the longest match.
  choose :
      (b c : Branch A) (k : ℕ) (ks : Oid) (found : Branch A × Oid)
      → get_child k (children b) ≡ some c
      → IsLongestMatch c ks found.0 found.1
      → (let (e, tail) = prefer_below b (k ∷ ks) found in IsLongestMatch b (k ∷ ks) e tail)
  unfolding prefer_below def_at
  choose b c k ks (d, tail) here m = elim (Option-cases (def d)) [
    | inr (o, has) ↦ rw (has, prefer_below) (through b c d k ks tail here (λ e. absurd (cc)) m)
    | inl lacks ↦
        rw (lacks, prefer_below)
          (stop_here b (k ∷ ks) (λ j q rest e.
            let below : ks ≡ q ++ rest = cc in
            let same : k ≡ j = cc in
            rw (sym same, here, def_at) (nothing_below c d ks tail m lacks q rest below)))
  ]

  -- findOID returns the longest prefix of the OID that has an object (the root for none), reached
  -- in the tree along that prefix, and the rest of the OID.
  pub find_oid-IsLongestMatch :
      (b : Branch A) (oid : Oid) → (let (c, tail) = find_oid b oid in IsLongestMatch b oid c tail)
  unfolding find_oid def_at
  find_oid-IsLongestMatch b [] = stop_here b [] (λ j q rest e. absurd (cc))
  find_oid-IsLongestMatch b (k ∷ ks) = elim (Option-cases (get_child k (children b))) [
    | inl lacks ↦
        rw (lacks, find_oid)
          (stop_here b (k ∷ ks)
            (λ j q rest e. let same : k ≡ j = cc in rw (sym same, lacks, def_at)))
    | inr (c, here) ↦
        rw (here, find_oid) (choose b c k ks (find_oid c ks) here (find_oid-IsLongestMatch c ks))
  ]

  branch_at_child :
      (b d : Branch A) (k : ℕ) (q : Oid)
      → get_child k (children b) ≡ some d
      → branch_at b (k ∷ q) ≡ branch_at d q
  unfolding branch_at
  branch_at_child b d k q here = rw (here, branch_at)

  def_at-branch_at : (b c : Branch A) (q : Oid) → branch_at b q ≡ some c → def_at b q ≡ def c
  unfolding branch_at def_at
  def_at-branch_at b c [] r = rw (branch_at_root b c r)
  def_at-branch_at b c (k ∷ q) r = elim (Option-cases (get_child k (children b))) [
    | inl lacks ↦ absurd (cc)
    | inr (d, here) ↦
        rw (here, def_at) (def_at-branch_at d c q (sym (branch_at_child b d k q here) ∙ r))
  ]

  found_whole :
      (b : Branch A) (oid : Oid) (found : Branch A × Oid) (o : A)
      → def_at b oid ≡ some o
      → IsLongestMatch b oid found.0 found.1
      → (def found.0 ≡ some o) × (found.1 ≡ [])
  found_whole b oid (c, []) o set m = (
    (let whole : oid ≡ m.prefix = m.splits ∙ append-nil m.prefix in
        sym (def_at-branch_at b c m.prefix m.reached) ∙ ap (def_at b) (sym whole) ∙ set),
    refl,
  )
  found_whole b oid (c, k ∷ tail) o set m =
      let none_there = m.longest oid [] (sym (append-nil oid)) (omega arith) in absurd (cc)

  -- An object that has been defined is found by its own OID, with nothing behind it.
  pub find_oid-add_definition :
      (b : Branch A) (oid : Oid) (o : A)
      → (let (c, tail) = find_oid (add_definition b oid (some o)) oid in
          (def c ≡ some o) × (tail ≡ []))
  find_oid-add_definition b oid o =
      let after = add_definition b oid (some o) in
      let set : def_at after oid ≡ some o =
        rw (def_at-add_definition b oid oid (some o), str_eq_refl oid) in
      found_whole after oid (find_oid after oid) o set (find_oid-IsLongestMatch after oid)
