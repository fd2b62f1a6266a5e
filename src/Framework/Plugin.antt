-- ===== src/Framework/Plugin.antt =====
-- internal/framework/plugin.go: the plugins of one class, by name. `T` is the implementation, and `factory`
-- what makes it of a kind and the rest of the configuration.
pub mod Laws
mod Tests
use net_mapper.Prelude.{
  ℕ, ◌+◌, bit_and, Bool, not, List, [], ◌∷◌, ◌++◌, Option, none, some, Bytes, codes, ◌==◌, str_eq,
  if◌then◌else◌, length,
}
use net_mapper.Prelude.{Outcome, ok, err, panicked, ◌>>=◌}
use net_mapper.Prelude.Assoc.{Assoc, lookup, put}
use net_mapper.Go.Decimal.{itoa}
use net_mapper.Framework.Config.{
  Config, ConfigError, as_string, as_strings, consume_arg, consume_optional_arg,
}

pub record Plugin (T : Type 0) : Type 0 where
  pub id : Bytes
  pub kind : Bytes
  pub sources : List Bytes
  pub reports : List Bytes
  pub impl : T

pub data PluginError (E : Type 0) : Type 0 where
  bad_config : ConfigError → PluginError E
  factory_failed : E → PluginError E
  already_registered : Bytes → PluginError E
  none_registered : PluginError E
  none_named : Bytes → PluginError E

-- The bits of `Required`: name 1, optional name 2, kind 4, optional kind 8, sources 16, reports 32.
abbrev pub requires : ℕ → ℕ → Bool
requires flags bit = not (bit_and flags bit == 0)

module _ {E : Type 0} where
  abbrev pub reading : {A : Type 0} → Outcome ConfigError A → Outcome (PluginError E) A
  reading (ok a) = ok a
  reading (err e) = err (bad_config e)
  reading panicked = panicked

  unfoldable pub read_kind : ℕ → Config → Outcome (PluginError E) (Bytes × Config)
  read_kind flags spec =
      if requires flags 4
      then reading (consume_arg as_string spec (codes "kind"))
      else if requires flags 8
      then reading (consume_optional_arg as_string spec (codes "kind") (codes "default"))
      else ok ([], spec)

  unfoldable pub read_list : ℕ → ℕ → Bytes → Config → Outcome (PluginError E) (List Bytes × Config)
  read_list flags bit field spec =
      if requires flags bit
      then reading (consume_optional_arg as_strings spec field [])
      else ok ([], spec)

module _ {T : Type 0} where
  -- `fmt.Sprintf("#%d", len(pm.plugins)+1)`
  abbrev pub numbered : Assoc (Plugin T) → Bytes
  numbered plugins = b'#' ∷ itoa (length plugins + 1)

  abbrev pub names : Assoc (Plugin T) → List Bytes
  names [] = []
  names ((name, _) ∷ plugins) = name ∷ names plugins

  abbrev pub count : Assoc (Plugin T) → ℕ
  count plugins = length plugins

module _ {T E : Type 0} where
  -- The name that `Load` gives the plugin, and the configuration without it.
  unfoldable pub read_name :
      ℕ → Assoc (Plugin T) → Config → Outcome (PluginError E) (Bytes × Config)
  read_name flags plugins spec =
      if requires flags 1
      then reading (consume_arg as_string spec (codes "name"))
      else if requires flags 2
      then (reading (consume_optional_arg as_string spec (codes "name") []) >>= λ (name, spec').
          ok (if str_eq name [] then numbered plugins else name, spec'))
      else ok (numbered plugins, spec)

  unfoldable pub making : Outcome E T → Outcome (PluginError E) T
  making (ok t) = ok t
  making (err e) = err (factory_failed e)
  making panicked = panicked

  module _ (factory : Bytes → Config → Outcome E T) (flags : ℕ) (prefix : Bytes) where
    -- What follows the check of the name.
    unfoldable pub make_plugin : Bytes → Config → Outcome (PluginError E) (Plugin T)
    unfolding making
    make_plugin name spec = read_kind flags spec >>= λ (kind, spec1).
        read_list flags 16 (codes "source") spec1 >>= λ (sources, spec2).
        read_list flags 32 (codes "report") spec2 >>= λ (reports, spec3).
        making (factory kind spec3) >>= λ impl. ok (record {
          id = prefix ++ b'.' ∷ name;
          kind = kind;
          sources = sources;
          reports = reports;
          impl = impl;
        })

    unfoldable pub load_named :
        Assoc (Plugin T) → Bytes × Config → Outcome (PluginError E) (Assoc (Plugin T))
    load_named plugins (name, spec) = elim (lookup name plugins) [
      | some _ ↦ err (already_registered name)
      | none ↦ make_plugin name spec >>= λ p. ok (put name p plugins)
    ]

    unfoldable pub load : Assoc (Plugin T) → Config → Outcome (PluginError E) (Assoc (Plugin T))
    load plugins spec = read_name flags plugins spec >>= load_named plugins

    unfoldable pub load_all :
        Assoc (Plugin T) → List Config → Outcome (PluginError E) (Assoc (Plugin T))
    load_all plugins [] = ok plugins
    load_all plugins (spec ∷ specs) = load plugins spec >>= λ plugins'. load_all plugins' specs

  -- A nil map has no plugin either, and has another error.
  unfoldable pub find : Option (Assoc (Plugin T)) → Bytes → Outcome (PluginError E) (Plugin T)
  find none name = err none_registered
  find (some plugins) name = elim (lookup name plugins) [
    | some p ↦ ok p
    | none ↦ err (none_named name)
  ]

-- `ForEach`, over the entries in the order of the list; `visit` gives the next state, and none or an error.
unfoldable pub for_each :
    {T S E : Type 0}
    → (S → Bytes → Plugin T → S × Outcome E (Unit {0}))
    → Assoc (Plugin T)
    → S
    → S × Outcome E (Unit {0})
for_each visit [] s = (s, ok tt)
for_each visit ((name, p) ∷ plugins) s =
    let (s', result) = visit s name p in
    elim result [
      | ok _ ↦ for_each visit plugins s'
      | err e ↦ (s', err e)
      | panicked ↦ (s', panicked)
    ]
