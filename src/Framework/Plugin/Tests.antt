-- ===== src/Framework/Plugin/Tests.antt =====
-- Runs of plugin.go, and its theorem at a concrete input. An implementation is its kind.
use net_mapper.Prelude.{
  ℕ, ◌≡◌, refl, some, [], ◌∷◌, ◌++◌, Bytes, codes, length, str_eq, Outcome, ok,
}
use net_mapper.Prelude.Assoc.{Assoc, lookup, put}
use net_mapper.Framework.{variations_of, has_last}
use net_mapper.Go.Text.Utf8.{encode_rune}
use net_mapper.Framework.Config
use net_mapper.Framework.Config.{
  Config, as_string, as_strings, as_elements, as_element, consume_first, consume_arg,
  consume_optional_arg, delete,
}
use net_mapper.Framework.Plugin.{
  Plugin, load_all, load, load_named, make_plugin, making, read_name, read_kind, read_list, find,
}
use net_mapper.Framework.Plugin.Laws.{load_all-find}

abbrev factory : Bytes → Config → Outcome ℕ Bytes
factory kind rest = ok kind

abbrev spec : Bytes → Config
spec name =
    (codes "name", Config.one (Config.text name))
    ∷ (codes "kind", Config.one (Config.text (codes "static")))
    ∷ []

-- The flags of the sources: a name, a kind, and the names of other sources.
abbrev plugins : Assoc (Plugin Bytes)
plugins =
    (
      codes "lan",
      record {
        id = codes "source.lan";
        kind = codes "static";
        sources = [];
        reports = [];
        impl = codes "static";
      },
    )
    ∷ []

loaded : load_all {E = ℕ} factory 21 (codes "source") [] (spec (codes "lan") ∷ []) ≡ ok plugins
unfolding load_all load load_named make_plugin making read_name read_kind read_list consume_arg
    consume_optional_arg consume_first as_string as_strings as_elements as_element delete
    variations_of has_last lookup put str_eq
loaded = refl

load_all-find_example :
    (length plugins ≡ length (spec (codes "lan") ∷ []))
    × ((n : Bytes) (p : Plugin Bytes)
        → find {E = ℕ} (some plugins) n ≡ ok p
        → p.id ≡ codes "source" ++ b'.' ∷ n)
load_all-find_example =
    load_all-find factory 21 (codes "source") (spec (codes "lan") ∷ []) plugins loaded

-- A number in a list is taken for a rune.
number_as_rune :
    as_strings (codes "source") (Config.items (Config.integer 65 ∷ [])) ≡ ok (codes "A" ∷ [])
unfolding as_strings as_elements as_element encode_rune
number_as_rune = refl
