-- ===== src/Framework/Config.antt =====
-- internal/framework/helpers.go: `ConsumeArg` and `ConsumeOptionalArg`, which take a field off a configuration.
-- A configuration is what the YAML decoder makes: the key's value is a scalar or a list.
use net_mapper.Prelude.{ℕ, List, [], ◌∷◌, Option, none, some, Bytes, str_eq, if◌then◌else◌}
use net_mapper.Prelude.{Outcome, ok, err, panicked, ◌>>=◌}
use net_mapper.Prelude.Assoc.{Assoc, lookup}
use net_mapper.Go.Text.Utf8.{encode_rune}
use net_mapper.Framework.{variations_of}

-- `other` is a value that cannot be converted to a string, as a Boolean, a float, a map or a list.
pub data Element : Type 0 where
  text : Bytes → Element
  integer : ℕ → Element
  null other : Element

pub data ConfigValue : Type 0 where
  one : Element → ConfigValue
  items : List Element → ConfigValue

abbrev pub Config : Type 0
Config = Assoc ConfigValue

pub data ConfigError : Type 0 where
  invalid_type : Bytes → ConfigError
  invalid_element : Bytes → ConfigError
  missing_field : Bytes → ConfigError

-- `v.(string)`, and the error where it is none.
unfoldable pub as_string : Bytes → ConfigValue → Outcome ConfigError Bytes
as_string field (one (text s)) = ok s
as_string field _ = err (invalid_type field)

-- `elem.Convert` to a string: an int is taken for a rune. The type of nil cannot be asked for.
unfoldable pub as_element : Bytes → Element → Outcome ConfigError Bytes
as_element field (text s) = ok s
as_element field (integer n) = ok (encode_rune n)
as_element field null = panicked
as_element field other = err (invalid_element field)

unfoldable pub as_elements : Bytes → List Element → Outcome ConfigError (List Bytes)
as_elements field [] = ok []
as_elements field (e ∷ es) = as_element field e >>= λ s. as_elements field es >>= λ ss. ok (s ∷ ss)

-- The conversion to a list of strings, of which a single string is one.
unfoldable pub as_strings : Bytes → ConfigValue → Outcome ConfigError (List Bytes)
as_strings field (one (text s)) = ok (s ∷ [])
as_strings field (one null) = panicked
as_strings field (one _) = err (invalid_type field)
as_strings field (items es) = as_elements field es

-- `delete(cfg, field)`
unfoldable pub delete : Bytes → Config → Config
delete field [] = []
delete field ((k, v) ∷ cfg) =
    let rest = delete field cfg in if str_eq k field then rest else (k, v) ∷ rest

module _ {T : Type 0} (cast : Bytes → ConfigValue → Outcome ConfigError T) where
  -- The loop over `fieldsToTry`: the first one that is there. `none` is the default.
  unfoldable pub consume_first : List Bytes → Config → Outcome ConfigError (Option T × Config)
  consume_first [] cfg = ok (none, cfg)
  consume_first (field ∷ fields) cfg = elim (lookup field cfg) [
    | none ↦ consume_first fields cfg
    | some v ↦ cast field v >>= λ t. ok (some t, delete field cfg)
  ]

  unfoldable pub consume_optional_arg : Config → Bytes → T → Outcome ConfigError (T × Config)
  consume_optional_arg cfg field default =
      consume_first (variations_of field) cfg >>= λ (found, cfg').
      ok (elim found [ none ↦ default | some t ↦ t ], cfg')

  unfoldable pub consume_arg : Config → Bytes → Outcome ConfigError (T × Config)
  consume_arg cfg field = consume_first (variations_of field) cfg >>= λ (found, cfg'). elim found [
    | none ↦ err (missing_field field)
    | some t ↦ ok (t, cfg')
  ]
