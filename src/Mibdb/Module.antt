-- ===== src/Mibdb/Module.antt =====
-- pkg/snmp/mibdb/module.go: what a MIB module defines, imports and exports.
-- `D` stands for the definitions, values of a Go interface. A nil list of exports is the empty one: a list
-- that is not nil has an element.
pub mod Laws
mod Tests
use net_mapper.Prelude.{
  Bool, true, false, List, [], ◌∷◌, ◌++◌, Option, none, some, Bytes, codes, str_eq, if◌then◌else◌,
}
use net_mapper.Prelude.{Outcome, ok, err, panicked, ◌>>=◌}
use net_mapper.Prelude.Assoc.{Assoc, lookup, put}
use net_mapper.Mibtoken.Token
use net_mapper.Mibtoken.Token.{Token, is_text, type_of, eof_position}
use net_mapper.Mibtoken.Tokens.{TokenList, read_until}

pub record Reference : Type 0 where
  pub item : Bytes
  pub module_name : Bytes

pub record Module (D : Type 0) : Type 0 where
  pub name : Bytes
  pub imports : Assoc Reference
  pub exports : List Token
  pub definitions : Assoc D

pub data ModuleError : Type 0 where
  reading : Token.Error → ModuleError
  unexpected_token export_not_found : Token → ModuleError
  not_read_yet not_found : Bytes → Bytes → ModuleError

abbrev pub built_in_name : Bytes
built_in_name = codes "<builtin>"

-- `from + "." + item`
abbrev pub dotted : Bytes → Bytes → Bytes
dotted from item = from ++ b'.' ∷ item

-- The loop over `items`.
unfoldable pub import_items : Bytes → List Bytes → Assoc Reference → Assoc Reference
import_items from [] m = m
import_items from (item ∷ items) m =
    let entry : Reference = record { item = item; module_name = from } in
    import_items from items (put (dotted from item) entry (put item entry m))

-- The two loops of `readImports` over the tokens in front of the semicolon: `none` is the outer one, and
-- `some items` the inner one. `end` is the error of a `Pop` on the empty list.
unfoldable pub import_tokens :
    Token.Error
    → Option (List Bytes)
    → List Token
    → Assoc Reference
    → Outcome ModuleError (Assoc Reference)
import_tokens end state [] m = ok m
import_tokens end none (t ∷ ts) m = import_tokens end (some (t.value ∷ [])) ts m
import_tokens end (some items) (t ∷ []) m =
    if is_text t (codes ",")
    then err (reading end)
    else if is_text t (codes "FROM")
    then err (reading end)
    else err (unexpected_token t)
import_tokens end (some items) (t ∷ u ∷ ts) m =
    let listed = import_tokens end (some (items ++ u.value ∷ [])) ts m in
    let done = import_tokens end none ts (import_items u.value items m) in
    if is_text t (codes ",")
    then listed
    else if is_text t (codes "FROM")
    then done
    else err (unexpected_token t)

imports_between :
    TokenList × Outcome Token.Error TokenList → TokenList × Outcome ModuleError (Assoc Reference)
imports_between (s, ok tokens) =
    (s, import_tokens (Token.at_eof (eof_position tokens.origin.filename)) none tokens.elements [])
imports_between (s, err e) = (s, err (reading e))
imports_between (s, panicked) = (s, panicked)

-- The tokens behind the semicolon, and the imports.
unfoldable pub read_imports : TokenList → TokenList × Outcome ModuleError (Assoc Reference)
unfolding imports_between
read_imports s = imports_between (read_until (codes ";") s)

is_ident : Token.TokenType → Bool
is_ident Token.ident = true
is_ident _ = false

-- The loop of `readExports`.
unfoldable pub export_tokens : List Token → List Token → Outcome ModuleError (List Token)
unfolding is_ident
export_tokens [] exports = ok exports
export_tokens (t ∷ ts) exports =
    let skipped = export_tokens ts exports in
    let added = export_tokens ts (exports ++ t ∷ []) in
    if is_text t (codes ",")
    then skipped
    else if is_ident (type_of t)
    then added
    else err (unexpected_token t)

exports_between :
    List Token
    → TokenList × Outcome Token.Error TokenList
    → TokenList × Outcome ModuleError (List Token)
exports_between exports (s, ok tokens) = (s, export_tokens tokens.elements exports)
exports_between exports (s, err e) = (s, err (reading e))
exports_between exports (s, panicked) = (s, panicked)

unfoldable pub read_exports : List Token → TokenList → TokenList × Outcome ModuleError (List Token)
unfolding exports_between
read_exports exports s = exports_between exports (read_until (codes ";") s)

module _ {D : Type 0} where
  -- `exports[name] = def; exports[module.name+"."+name] = def`
  abbrev pub export_one : Bytes → Bytes → D → Assoc D → Assoc D
  export_one module_name name d m = put (dotted module_name name) d (put name d m)

  unfoldable pub export_all : Bytes → Assoc D → Assoc D → Assoc D
  export_all module_name [] m = m
  export_all module_name ((name, d) ∷ ds) m =
      export_all module_name ds (export_one module_name name d m)

  unfoldable pub export_listed : Module D → List Token → Assoc D → Outcome ModuleError (Assoc D)
  export_listed mo [] m = ok m
  export_listed mo (t ∷ ts) m = elim (lookup t.value mo.definitions) [
    | none ↦ err (export_not_found t)
    | some d ↦ export_listed mo ts (export_one mo.name t.value d m)
  ]

  unfoldable pub exports_of : Module D → Outcome ModuleError (Assoc D)
  exports_of mo = elim mo.exports [
    | [] ↦ ok (export_all mo.name mo.definitions [])
    | t ∷ ts ↦ export_listed mo (t ∷ ts) []
  ]

  -- The end of `Lookup`, in the built-in module.
  unfoldable pub lookup_built_in : Assoc (Module D) → Bytes → Outcome ModuleError (D × Module D)
  lookup_built_in modules name = elim (lookup built_in_name modules) [
    | none ↦ panicked
    | some built_in ↦ elim (lookup name built_in.definitions) [
      | some d ↦ ok (d, built_in)
      | none ↦ err (not_found name built_in.name)
    ]
  ]

  unfoldable pub built_in_module : Assoc (Module D) → Outcome ModuleError (Module D)
  built_in_module modules = elim (lookup built_in_name modules) [ none ↦ panicked | some b ↦ ok b ]

  -- The module that a name is imported from; a name without an import is looked up in the built-in one.
  unfoldable pub other_module : Assoc (Module D) → Module D → Bytes → Outcome ModuleError (Module D)
  unfolding built_in_module
  other_module modules mo name = elim (lookup name mo.imports) [
    | none ↦ built_in_module modules
    | some r ↦
        if str_eq r.module_name []
        then built_in_module modules
        else elim (lookup r.module_name modules) [
          | none ↦ err (not_read_yet name r.module_name)
          | some other ↦ ok other
        ]
  ]

  -- The module of the import, and after it the built-in one.
  unfoldable pub lookup_in :
      Assoc (Module D) → Bytes → Module D → Outcome ModuleError (D × Module D)
  lookup_in modules name other = elim (lookup name other.definitions) [
    | some d ↦ ok (d, other)
    | none ↦ lookup_built_in modules name
  ]

  -- `Lookup`, with the modules of the database.
  unfoldable pub lookup_name :
      Assoc (Module D) → Module D → Bytes → Outcome ModuleError (D × Module D)
  lookup_name modules mo name = elim (lookup name mo.definitions) [
    | some d ↦ ok (d, mo)
    | none ↦ other_module modules mo name >>= lookup_in modules name
  ]
