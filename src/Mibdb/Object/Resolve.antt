-- ===== src/Mibdb/Object/Resolve.antt =====
-- The object identifiers that `compileValue` finds, and where it does not end.
use net_mapper.Prelude.{
  ℕ, zero, suc, ◌<◌, ◌≡◌, ◌⊎◌, inl, inr, refl, ◌∙◌, arith, false, Bool-cases, List, [], ◌∷◌, ◌++◌,
  append-nil, append_assoc, none, some, Bytes, codes, ◌==◌, ==_iff, str_eq, str_eq_iff, All,
  Outcome, ok,
}
use net_mapper.Go.Oid.{Oid}
use net_mapper.Go.Decimal.{parse_int}
use net_mapper.Mibdb.Object.{
  LookupError, Definition, object, Store, set_compiled, Compiled, compile_name, compile_elements,
  compile_value,
}

List-cases : {A : Type 0} (xs : List A) → (xs ≡ []) ⊎ ((x : A) × (rest : List A) × (xs ≡ x ∷ rest))
List-cases [] = inl refl
List-cases (x ∷ rest) = inr (x, rest, refl)

self_differs : (id : ℕ) → (id == id) ≡ false → ⊥
self_differs id h = ground arith

module _ (find : Bytes → Outcome LookupError Definition) (elements_of : ℕ → List Bytes) where
  -- The object of the number has the OID, and the elements mean it. A number is below what the elements
  -- in front of it mean; a name means the OID of its object, whatever stands in front of it.
  mutual
    pub data HasOid : ℕ → Oid → Type 0 where
      defined : {id : ℕ} {oid : Oid} → Means (elements_of id) oid → HasOid id oid

    pub data Means : List Bytes → Oid → Type 0 where
      nothing : Means [] []
      number :
          {es' : List Bytes} {oid' : Oid} (es : List Bytes) (oid : Oid) (e : Bytes) (n : ℕ)
          → parse_int 64 e ≡ some n
          → Means es oid
          → es' ≡ es ++ e ∷ []
          → oid' ≡ oid ++ n ∷ []
          → Means es' oid'
      iso : {es' : List Bytes} (es : List Bytes) → es' ≡ es ++ codes "iso" ∷ [] → Means es' (1 ∷ [])
      named :
          {es' : List Bytes} {oid : Oid} (es : List Bytes) (e : Bytes) (id : ℕ)
          → find e ≡ ok (object id)
          → HasOid id oid
          → es' ≡ es ++ e ∷ []
          → Means es' oid

  -- What has been compiled is right.
  pub record IsSound (s : Store) : Type 0 where
    pub elements : (i : ℕ) → (s i).elements ≡ elements_of i
    pub compiled : (i : ℕ) → ((s i).compiled ≡ []) ⊎ HasOid i (s i).compiled

  -- An element is a number, the root, or the name of an object of a lower rank.
  abbrev pub IsResolved : (ℕ → ℕ) → ℕ → Bytes → Type 0
  IsResolved rank bound e =
      ((n : ℕ) × (parse_int 64 e ≡ some n))
      ⊎ ((parse_int 64 e ≡ none)
          × ((e ≡ codes "iso")
              ⊎ ((str_eq e (codes "iso") ≡ false)
                  × ((id : ℕ) × (find e ≡ ok (object id)) × (rank id < bound)))))

  -- An object that has been compiled rightly still has been.
  abbrev pub IsKept : Store → Store → Type 0
  IsKept s s' = (i : ℕ) → HasOid i (s i).compiled → HasOid i (s' i).compiled

  -- A call ends with an OID of the object, which it keeps, and leaves a sound store.
  abbrev Succeeds : {E : Type 0} → Store → ℕ → Compiled E → Type 0
  Succeeds {E} s id called =
      (s' : Store) × (oid : Oid) × (called ≡ some (s', ok oid))
      × HasOid id oid
      × IsSound s'
      × HasOid id (s' id).compiled
      × IsKept s s'

  set_compiled-IsSound :
      (id : ℕ) (oid : Oid) (s : Store) → IsSound s → HasOid id oid → IsSound (set_compiled id oid s)
  unfolding set_compiled
  set_compiled-IsSound id oid s h has = record {
    elements = λ i. elim (Bool-cases (i == id)) [
      | inl e ↦ rw e (h.elements i)
      | inr e ↦ rw e (h.elements i)
    ];
    compiled = λ i. elim (Bool-cases (i == id)) [
      | inl e ↦ rw e (inr (rw ((==_iff i id).0 e) has))
      | inr e ↦ rw e (h.compiled i)
    ];
  }

  -- The object that is set has an OID, and another one has it if it had it.
  set_compiled-HasOid :
      (id : ℕ) (oid : Oid) (s : Store) (i : ℕ)
      → HasOid id oid
      → ((i == id) ≡ false → HasOid i (s i).compiled)
      → HasOid i (set_compiled id oid s i).compiled
  unfolding set_compiled
  set_compiled-HasOid id oid s i has had = elim (Bool-cases (i == id)) [
    | inl e ↦ rw e (rw ((==_iff i id).0 e) has)
    | inr e ↦ rw e (had e)
  ]

  module _ {E : Type 0} (rank : ℕ → ℕ) (bound : ℕ) (compile : Store → ℕ → Compiled E)
      (compiles : (s : Store) (id : ℕ)
        → IsSound s
        → rank id < bound
        → Succeeds s id (compile s id)) where
    number_step :
        (e : Bytes) (es : List Bytes) (s : Store) (acc : Oid) (n : ℕ)
        → parse_int 64 e ≡ some n
        → compile_elements find compile (e ∷ es) s acc
          ≡ compile_elements find compile es s (acc ++ n ∷ [])
    unfolding compile_elements
    number_step e es s acc n is = rw (is, compile_elements) refl

    iso_step :
        (e : Bytes) (es : List Bytes) (s : Store) (acc : Oid)
        → parse_int 64 e ≡ none
        → e ≡ codes "iso"
        → compile_elements find compile (e ∷ es) s acc ≡ compile_elements find compile es s (1 ∷ [])
    unfolding compile_elements
    iso_step e es s acc word root =
        rw (word, (str_eq_iff e (codes "iso")).1 root, compile_elements) refl

    named_step :
        (e : Bytes) (es : List Bytes) (s : Store) (acc : Oid) (id : ℕ) (s1 : Store) (base : Oid)
        → parse_int 64 e ≡ none
        → str_eq e (codes "iso") ≡ false
        → find e ≡ ok (object id)
        → compile s id ≡ some (s1, ok base)
        → compile_elements find compile (e ∷ es) s acc ≡ compile_elements find compile es s1 base
    unfolding compile_elements compile_name
    named_step e es s acc id s1 base word no_root is called =
        rw (word, no_root, is, called, compile_elements, compile_name) refl

    elements-compiled :
        (es before : List Bytes) (s : Store) (acc : Oid)
        → IsSound s
        → All (IsResolved rank bound) es
        → Means before acc
        → (s' : Store) × (oid : Oid) × (compile_elements find compile es s acc ≡ some (s', ok oid))
          × Means (before ++ es) oid
          × IsSound s'
          × IsKept s s'
    unfolding compile_elements
    elements-compiled [] before s acc h resolved means =
        (s, acc, refl, rw (append-nil before) means, h, λ i has. has)
    elements-compiled (e ∷ es) before s acc h (inl (n, is), resolved) means =
        let (s', oid, done, meant, sound, kept) =
          elements-compiled es (before ++ e ∷ []) s (acc ++ n ∷ []) h resolved
            (number before acc e n is means refl refl) in
        (
          s',
          oid,
          number_step e es s acc n is ∙ done,
          rw (← append_assoc before (e ∷ []) es) meant,
          sound,
          kept,
        )
    elements-compiled (e ∷ es) before s acc h (inr (word, inl root), resolved) means =
        let (s', oid, done, meant, sound, kept) =
          elements-compiled es (before ++ e ∷ []) s (1 ∷ []) h resolved
            (iso before (rw root refl)) in
        (
          s',
          oid,
          iso_step e es s acc word root ∙ done,
          rw (← append_assoc before (e ∷ []) es) meant,
          sound,
          kept,
        )
    elements-compiled (e ∷ es) before s acc h (inr (word, inr (no_root, (id, is, lower))), resolved)
          means =
        let (s1, base, called, has, sound1, own, kept1) = compiles s id h lower in
        let (s', oid, done, meant, sound, kept) =
          elements-compiled es (before ++ e ∷ []) s1 base sound1 resolved
            (named before e id is has refl) in
        (
          s',
          oid,
          named_step e es s acc id s1 base word no_root is called ∙ done,
          rw (← append_assoc before (e ∷ []) es) meant,
          sound,
          (λ i before_has. kept i (kept1 i before_has)),
        )

  already :
      (n : ℕ) (ns : Oid) (id : ℕ) (oid : Oid)
      → oid ≡ n ∷ ns
      → (oid ≡ []) ⊎ HasOid id oid
      → HasOid id (n ∷ ns)
  already n ns id oid e (inl none_yet) = absurd (cc)
  already n ns id oid e (inr has) = rw e at has

  module _ {E : Type 0} (meta : ℕ → Outcome E (Unit {0})) (rank : ℕ → ℕ) where
    pub value_done :
        (fuel : ℕ) (s : Store) (id : ℕ)
        → ((i : ℕ) → meta i ≡ ok tt)
        → ((i : ℕ) → All (IsResolved rank (rank i)) (elements_of i))
        → IsSound s
        → rank id < fuel
        → (s' : Store) × (oid : Oid) × (compile_value find meta fuel s id ≡ some (s', ok oid))
          × HasOid id oid
          × IsSound s'
          × HasOid id (s' id).compiled
          × IsKept s s'
    unfolding compile_value
    value_done zero s id metas resolved h enough = absurd (omega arith)
    value_done (suc fuel) s id metas resolved h enough = elim (List-cases (s id).compiled) [
      | inr (n, ns, e) ↦ (
        s,
        n ∷ ns,
        rw (metas id, e, compile_value) refl,
        already n ns id (s id).compiled e (h.compiled id),
        h,
        rw e (already n ns id (s id).compiled e (h.compiled id)),
        (λ i has. has),
      )
      | inl e ↦
          let (s', oid, done, meant, sound, kept) =
            elements-compiled rank (rank id) (compile_value find meta fuel)
              (λ s1 i h1 lower. value_done fuel s1 i metas resolved h1 (omega arith))
              (s id).elements [] s [] h (rw (h.elements id) (resolved id)) nothing in
          let has : HasOid id oid = defined (rw (h.elements id) at meant) in
          (
            set_compiled id oid s',
            oid,
            rw (metas id, e, done, compile_value) refl,
            has,
            set_compiled-IsSound id oid s' sound has,
            set_compiled-HasOid id oid s' id has (λ other. absurd (self_differs id other)),
            (λ i before_has. set_compiled-HasOid id oid s' i has (λ _. kept i before_has)),
          )
    ]

    -- If each element of every object is a number, the root or the name of an object of a lower
    -- rank, the meta data compile and what has been compiled is right, then compileValue of an
    -- object ends after no more nested calls than its rank and one: it gives an OID of the object,
    -- that of the name that stands last with the numbers behind it, and what has been compiled is
    -- right afterwards.
    pub compile_value-HasOid :
        (fuel : ℕ) (s : Store) (id : ℕ)
        → ((i : ℕ) → meta i ≡ ok tt)
        → ((i : ℕ) → All (IsResolved rank (rank i)) (elements_of i))
        → IsSound s
        → rank id < fuel
        → (s' : Store) × (oid : Oid) × (compile_value find meta fuel s id ≡ some (s', ok oid))
          × HasOid id oid
          × IsSound s'
    compile_value-HasOid fuel s id metas resolved h enough =
        let (s', oid, done, has, sound, _, _) = value_done fuel s id metas resolved h enough in
        (s', oid, done, has, sound)

-- compileValue does not end, however many nested calls it is given, on an object that is not
-- compiled yet, whose meta data compile, and whose first element is a name other than iso by which
-- the object itself is found.
pub compile_value-names_itself :
    {E : Type 0} (find : Bytes → Outcome LookupError Definition) (meta : ℕ → Outcome E (Unit {0}))
    (fuel : ℕ) (s : Store) (id : ℕ) (e : Bytes) (es : List Bytes)
    → meta id ≡ ok tt
    → (s id).compiled ≡ []
    → (s id).elements ≡ e ∷ es
    → parse_int 64 e ≡ none
    → str_eq e (codes "iso") ≡ false
    → find e ≡ ok (object id)
    → compile_value find meta fuel s id ≡ none
unfolding compile_value compile_elements compile_name
compile_value-names_itself find meta zero s id e es metas fresh is word no_root itself = refl
compile_value-names_itself find meta (suc fuel) s id e es metas fresh is word no_root itself =
    let again =
      compile_value-names_itself find meta fuel s id e es metas fresh is word no_root itself in
    rw
      (
        metas, fresh, is, word, no_root, itself, again, compile_elements, compile_name,
        compile_value,
      )
      refl
