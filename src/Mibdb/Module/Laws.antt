-- ===== src/Mibdb/Module/Laws.antt =====
-- What `readImports` reads, and where `Lookup` finds a name.
use net_mapper.Prelude.{
  ◌||◌, Bool, if◌then◌else◌, Option, ap, ◌≡◌, ◌⊎◌, refl, ◌∙◌, true, false, List, [], ◌∷◌, ◌++◌,
  append_assoc, append-nil, none, some, Bytes, codes, str_eq, Bool-cases, Option-cases, inl, inr,
  All,
}
use net_mapper.Prelude.{Outcome, ok, err, panicked}
use net_mapper.Prelude.Assoc.{Assoc, lookup, put, lookup-put}
use net_mapper.Mibtoken.Token
use net_mapper.Mibtoken.Token.{Token, is_text, eof_position}
use net_mapper.Mibtoken.Tokens.Read.{read_until_cases}
use net_mapper.Mibdb.Module.{
  dotted, Reference, Module, ModuleError, built_in_name, import_items, import_tokens, read_imports,
  lookup_built_in, built_in_module, other_module, lookup_in, lookup_name,
}

-- One group of an import clause: the items, and the module they come from.
pub record Group : Type 0 where
  pub first : Token
  pub others : List Token
  pub from : Token

-- The tokens of a group: the items with commas between them, `FROM` and the module.
module _ (comma from_word : Token) where
  abbrev pub listed : List Token → List Token
  listed [] = []
  listed (t ∷ ts) = comma ∷ t ∷ listed ts

  abbrev pub write_imports : List Group → List Token
  write_imports [] = []
  write_imports (g ∷ gs) = g.first ∷ (listed g.others ++ (from_word ∷ g.from ∷ write_imports gs))

abbrev pub texts : List Token → List Bytes
texts [] = []
texts (t ∷ ts) = t.value ∷ texts ts

abbrev pub import_groups : List Group → Assoc Reference → Assoc Reference
import_groups [] m = m
import_groups (g ∷ gs) m =
    import_groups gs (import_items g.from.value (g.first.value ∷ texts g.others) m)

-- Where a clause says that a name comes from, if a name without an entry has the given one: an item
-- has one alone and one with the module in front.
abbrev pub items_origin : Bytes → Bytes → List Bytes → Option Reference → Option Reference
items_origin name from [] o = o
items_origin name from (item ∷ items) o = items_origin name from items (
    if str_eq item name || str_eq (from ++ b'.' ∷ item) name
    then some (record { item = item; module_name = from })
    else o)

abbrev pub clause_origin : Bytes → List Group → Option Reference → Option Reference
clause_origin name [] o = o
clause_origin name (g ∷ gs) o =
    clause_origin name gs (items_origin name g.from.value (g.first.value ∷ texts g.others) o)

either_key :
    (a b : Bool) (entry : Reference) (o : Option Reference)
    → (if a then some entry else if b then some entry else o) ≡ (if b || a then some entry else o)
either_key true true entry o = refl
either_key true false entry o = refl
either_key false true entry o = refl
either_key false false entry o = refl

lookup_nil : (name : Bytes) → lookup {A = Reference} name [] ≡ none
unfolding lookup
lookup_nil name = refl

lookup-import_items :
    (name from : Bytes) (items : List Bytes) (m : Assoc Reference)
    → lookup name (import_items from items m) ≡ items_origin name from items (lookup name m)
unfolding import_items
lookup-import_items name from [] m = refl
lookup-import_items name from (item ∷ items) m =
    let entry : Reference = record { item = item; module_name = from } in
    lookup-import_items name from items (put (dotted from item) entry (put item entry m))
    ∙ ap (items_origin name from items) (
        lookup-put (dotted from item) entry (put item entry m) name
        ∙ rw (lookup-put item entry m name)
            (either_key (str_eq (dotted from item) name) (str_eq item name) entry (lookup name m)))

lookup-import_groups :
    (name : Bytes) (gs : List Group) (m : Assoc Reference)
    → lookup name (import_groups gs m) ≡ clause_origin name gs (lookup name m)
lookup-import_groups name [] m = refl
lookup-import_groups name (g ∷ gs) m =
    lookup-import_groups name gs _
    ∙ ap (clause_origin name gs)
        (lookup-import_items name g.from.value (g.first.value ∷ texts g.others) m)

module _ (comma from_word : Token) (comma_text : comma.value ≡ codes ",")
    (from_text : from_word.value ≡ codes "FROM") where
  is_comma : is_text comma (codes ",") ≡ true
  unfolding is_text str_eq
  is_comma = rw comma_text refl

  is_from : is_text from_word (codes "FROM") ≡ true
  unfolding is_text str_eq
  is_from = rw from_text refl

  no_comma : is_text from_word (codes ",") ≡ false
  unfolding is_text str_eq
  no_comma = rw from_text refl

  import_listed :
      (end : Token.Error) (items : List Bytes) (ts rest : List Token) (m : Assoc Reference)
      → import_tokens end (some items) (listed comma from_word ts ++ rest) m
        ≡ import_tokens end (some (items ++ texts ts)) rest m
  unfolding import_tokens
  import_listed end items [] rest m = rw (append-nil items) refl
  import_listed end items (t ∷ ts) rest m =
      rw
        (
          is_comma,
          import_tokens,
          import_listed end (items ++ t.value ∷ []) ts rest m,
          append_assoc items (t.value ∷ []) (texts ts),
        )
        refl

  import_tokens-write_imports :
      (end : Token.Error) (gs : List Group) (m : Assoc Reference)
      → import_tokens end none (write_imports comma from_word gs) m ≡ ok (import_groups gs m)
  unfolding import_tokens
  import_tokens-write_imports end [] m = refl
  import_tokens-write_imports end (g ∷ gs) m =
      import_listed end (g.first.value ∷ []) g.others
        (from_word ∷ g.from ∷ write_imports comma from_word gs) m
      ∙ rw (no_comma, is_from, import_tokens) (import_tokens-write_imports end gs _)

  -- readImports reads an import clause of groups, each one item or more with commas between them,
  -- FROM and a module, up to a semicolon, of which the clause has no other, and takes it off the
  -- tokens: afterwards a name is imported exactly if it is an item of a group, alone or with the
  -- module in front, and from the module of the last such group.
  pub read_imports-write_imports :
      (origin : Token.Source) (gs : List Group) (semicolon : Token) (rest : List Token)
      → All (λ t. is_text t (codes ";") ≡ false) (write_imports comma from_word gs)
      → is_text semicolon (codes ";") ≡ true
      → (imports : Assoc Reference) × (read_imports (record {
        origin = origin;
        elements = write_imports comma from_word gs ++ semicolon ∷ rest;
      })
          ≡ (record { origin = origin; elements = rest }, ok imports))
        × ((name : Bytes) → lookup name imports ≡ clause_origin name gs none)
  unfolding read_imports
  read_imports-write_imports origin gs semicolon rest plain ends = (
    import_groups gs [],
    rw
        (
          (read_until_cases (codes ";") origin (write_imports comma from_word gs) semicolon rest
              plain ends).0,
          import_tokens-write_imports _ gs [],
        )
        refl,
    λ name. lookup-import_groups name gs [] ∙ ap (clause_origin name gs) (lookup_nil name),
  )

-- What a lookup may give: a definition that stands under the name in the module that is given with
-- it, or an error if the module that asks has none of its own; never a panic.
abbrev pub IsFound : {D : Type 0} → Module D → Bytes → Outcome ModuleError (D × Module D) → Type 0
IsFound mo name (ok (d, m)) = lookup name m.definitions ≡ some d
IsFound mo name (err e) = lookup name mo.definitions ≡ none
IsFound mo name panicked = ⊥

module _ {D : Type 0} (modules : Assoc (Module D)) (built_in : Module D)
    (registered : lookup built_in_name modules ≡ some built_in) where
  built_in_lem : built_in_module modules ≡ ok built_in
  unfolding built_in_module
  built_in_lem = rw (registered, built_in_module) refl

  -- The search does not panic.
  other_module_cases :
      (mo : Module D) (name : Bytes)
      → ((e : ModuleError) × (other_module modules mo name ≡ err e))
        ⊎ ((other : Module D) × (other_module modules mo name ≡ ok other))
  unfolding other_module
  other_module_cases mo name = elim (Option-cases (lookup name mo.imports)) [
    | inl e ↦ rw (e, other_module) (inr (built_in, built_in_lem))
    | inr (r, e) ↦ elim (Bool-cases (str_eq r.module_name [])) [
      | inl own ↦ rw (e, own, other_module) (inr (built_in, built_in_lem))
      | inr other ↦ elim (Option-cases (lookup r.module_name modules)) [
        | inl e2 ↦ rw (e, other, e2, other_module) (inl (_, refl))
        | inr (m, e2) ↦ rw (e, other, e2, other_module) (inr (m, refl))
      ]
    ]
  ]

  built_in-IsFound :
      (mo : Module D) (name : Bytes)
      → lookup name mo.definitions ≡ none
      → IsFound mo name (lookup_built_in modules name)
  unfolding lookup_built_in
  built_in-IsFound mo name own = elim (Option-cases (lookup name built_in.definitions)) [
    | inl e ↦ rw (registered, e, lookup_built_in) own
    | inr (d, e) ↦ rw (registered, e, lookup_built_in) e
  ]

  lookup_in-IsFound :
      (mo other : Module D) (name : Bytes)
      → lookup name mo.definitions ≡ none
      → IsFound mo name (lookup_in modules name other)
  unfolding lookup_in
  lookup_in-IsFound mo other name own = elim (Option-cases (lookup name other.definitions)) [
    | inl e ↦ rw (e, lookup_in) (built_in-IsFound mo name own)
    | inr (d, e) ↦ rw (e, lookup_in) e
  ]

  -- If the database has the built-in module, Lookup does not panic; a definition that it returns
  -- stands under the name in the module returned with it, and an error means that the module
  -- itself does not define the name.
  pub lookup_name-IsFound :
      (mo : Module D) (name : Bytes) → IsFound mo name (lookup_name modules mo name)
  unfolding lookup_name
  lookup_name-IsFound mo name = elim (Option-cases (lookup name mo.definitions)) [
    | inr (d, e) ↦ rw (e, lookup_name, IsFound) e
    | inl own ↦ elim (other_module_cases mo name) [
      | inl (e, failed) ↦ rw (own, failed, lookup_name) own
      | inr (other, is) ↦ rw (own, lookup_name, is) (lookup_in-IsFound mo other name own)
    ]
  ]
