-- ===== src/Framework/Plugin/Laws.antt =====
-- What `Load` adds to the plugins.
use net_mapper.Prelude.{
  some-ne-none, err-ne-ok, some_injective, ℕ, ◌+◌, ◌≡◌, ap, ◌∙◌, sym, arith, Bool-cases,
  Option-cases, inl, inr, List, [], ◌∷◌, ◌++◌, none, some, Bytes, length, str_eq, str_eq_iff,
  if◌then◌else◌,
}
use net_mapper.Prelude.{Outcome, ok, >>=-eq-ok, ok_injective}
use net_mapper.Prelude.Assoc.{Assoc, lookup, put, lookup-put}
use net_mapper.Framework.Config.{Config}
use net_mapper.Framework.Plugin.{
  Plugin, read_name, make_plugin, load_named, load, load_all, find, making, read_kind, read_list,
  already_registered, none_named,
}

module _ {T E : Type 0} (factory : Bytes → Config → Outcome E T) (flags : ℕ) (prefix : Bytes) where
  -- What a `Load` that succeeds has done: one plugin stands under a name that was free, and has its id.
  pub record IsAdded (before after : Assoc (Plugin T)) : Type 0 where
    pub name : Bytes
    pub plugin : Plugin T
    pub was_free : lookup name before ≡ none
    pub has_id : plugin.id ≡ prefix ++ b'.' ∷ name
    pub as_map :
        (n : Bytes) → lookup n after ≡ (if str_eq name n then some plugin else lookup n before)
    pub one_more : length after ≡ length before + 1

  length-put :
      (name : Bytes) (p : Plugin T) (m : Assoc (Plugin T))
      → lookup name m ≡ none
      → length (put name p m) ≡ length m + 1
  unfolding lookup put
  length-put name p [] free = omega arith
  length-put name p ((k, q) ∷ m) free = elim (Bool-cases (str_eq k name)) [
    | inl e ↦ absurd (some-ne-none q (rw (e, lookup) at free))
    | inr e ↦ rw (e, put) (omega (arith, length-put name p m (rw (e, lookup) at free)))
  ]

  make_plugin-id :
      (name : Bytes) (spec : Config) (p : Plugin T)
      → make_plugin factory flags prefix name spec ≡ ok p
      → p.id ≡ prefix ++ b'.' ∷ name
  unfolding make_plugin
  make_plugin-id name spec p h =
      let (kind, _, h1) = >>=-eq-ok (read_kind flags spec) _ h in
      let (sources, _, h2) = >>=-eq-ok (read_list flags 16 _ kind.1) _ h1 in
      let (reports, _, h3) = >>=-eq-ok (read_list flags 32 _ sources.1) _ h2 in
      let (impl, _, h4) = >>=-eq-ok (making (factory kind.0 reports.1)) _ h3 in
      sym (ap (λ q. q.id) (ok_injective h4))

  pub load-IsAdded :
      (before after : Assoc (Plugin T)) (spec : Config)
      → load factory flags prefix before spec ≡ ok after
      → IsAdded before after
  unfolding load load_named
  load-IsAdded before after spec h =
      let ((name, spec'), _, named) = >>=-eq-ok (read_name flags before spec) _ h in
      elim (Option-cases (lookup name before)) [
        | inr (q, e) ↦
            absurd (err-ne-ok (already_registered name) after (rw (e, load_named) at named))
        | inl free ↦
            let (p, made, same) =
              >>=-eq-ok (make_plugin factory flags prefix name spec') _
                (rw (free, load_named) at named) in
            let is : put name p before ≡ after = ok_injective same in
            record {
              name = name;
              plugin = p;
              was_free = free;
              has_id = make_plugin-id name spec' p made;
              as_map = λ n. rw (← is) (lookup-put name p before n);
              one_more = rw (← is) (length-put name p before free);
            }
      ]

  -- Every plugin has the id of its name.
  abbrev AreNamed : Assoc (Plugin T) → Type 0
  AreNamed plugins =
      (n : Bytes) (p : Plugin T) → lookup n plugins ≡ some p → p.id ≡ prefix ++ b'.' ∷ n

  IsAdded-AreNamed :
      (before after : Assoc (Plugin T)) → IsAdded before after → AreNamed before → AreNamed after
  IsAdded-AreNamed before after added h n p is = elim (Bool-cases (str_eq added.name n)) [
    | inl e ↦
        let same : added.plugin ≡ p = some_injective (rw e at (sym (added.as_map n) ∙ is)) in
        ap (λ q. q.id) (sym same)
        ∙ added.has_id
        ∙ ap (λ m. prefix ++ b'.' ∷ m) ((str_eq_iff added.name n).0 e)
    | inr e ↦ h n p (rw e at (sym (added.as_map n) ∙ is))
  ]

  load_all_lem :
      (specs : List Config) (before after : Assoc (Plugin T))
      → AreNamed before
      → load_all factory flags prefix before specs ≡ ok after
      → (length after ≡ length before + length specs) × AreNamed after
  unfolding load_all
  load_all_lem [] before after h is =
      let same : before ≡ after = ok_injective is in (rw same (omega arith), rw same at h)
  load_all_lem (spec ∷ specs) before after h is =
      let (next, first, rest) = >>=-eq-ok (load factory flags prefix before spec) _ is in
      let added = load-IsAdded before next spec first in
      let (size, named) =
        load_all_lem specs next after (IsAdded-AreNamed before next added h) rest in
      (omega (arith, added.one_more, size), named)

  found_lookup :
      (plugins : Assoc (Plugin T)) (n : Bytes) (p : Plugin T)
      → find {E = E} (some plugins) n ≡ ok p
      → lookup n plugins ≡ some p
  unfolding find
  found_lookup plugins n p h = elim (Option-cases (lookup n plugins)) [
    | inl e ↦ absurd (err-ne-ok (none_named n) p (rw (e, find) at h))
    | inr (q, e) ↦ e ∙ ap some (ok_injective (rw (e, find) at h))
  ]

  nothing_named : AreNamed []
  unfolding lookup
  nothing_named n p h = cc

  -- A LoadAll into an empty map that succeeds makes one plugin for each configuration, and Find
  -- returns under a name the plugin whose id is the prefix, a dot and the name.
  pub load_all-find :
      (specs : List Config) (plugins : Assoc (Plugin T))
      → load_all factory flags prefix [] specs ≡ ok plugins
      → (length plugins ≡ length specs)
        × ((n : Bytes) (p : Plugin T)
            → find {E = E} (some plugins) n ≡ ok p
            → p.id ≡ prefix ++ b'.' ∷ n)
  load_all-find specs plugins h =
      let (size, named) = load_all_lem specs [] plugins nothing_named h in
      (omega (arith, size), λ n p found. named n p (found_lookup plugins n p found))
