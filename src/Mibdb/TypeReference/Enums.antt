-- ===== src/Mibdb/TypeReference/Enums.antt =====
-- `CompileEnums` on the numbers and names of an INTEGER.
use net_mapper.Prelude.{
  ℕ, zero, suc, ◌≤◌, ◌≡◌, refl, sym, ap, ◌∙◌, arith, inl, inr, false, Bool-cases, List, [], ◌∷◌,
  Option, some, Bytes, codes, str_eq, str_eq_iff, true-ne-false, length, All, ok,
}
use net_mapper.Mibtoken.Token
use net_mapper.Mibtoken.Token.{
  Token, TokenType, Source, type_of, type_of_text, is_text, is_eof_source,
}
use net_mapper.Mibtoken.Tokens.{TokenList, look_ahead, read_block}
use net_mapper.Mibtoken.Tokens.Read.{pop-cons}
use net_mapper.Mibtoken.Tokens.Block.{nothing, plain, read_block-IsBalanced}
use net_mapper.Go.Decimal.{parse_int}
use net_mapper.Mibdb.TypeReference.{TypeReference, is_number}
use net_mapper.Mibdb.TypeReference.Compile.{
  Enums, enum_number, skip_comma, after_block, enums_from, compile_enums,
}

-- A name, and its number in parentheses.
pub record Entry : Type 0 where
  pub name : Token
  pub opening : Token
  pub numeral : Token
  pub closing : Token
  pub number : ℕ

pub record IsEntry (e : Entry) : Type 0 where
  pub has_ident : type_of e.name ≡ Token.ident
  pub opens : e.opening.value ≡ codes "("
  pub has_digits : type_of e.numeral ≡ Token.number
  pub has_number : parse_int 64 e.numeral.value ≡ some e.number
  pub closes : e.closing.value ≡ codes ")"

abbrev pub write_entry : Entry → List Token → List Token
write_entry e rest = e.name ∷ e.opening ∷ e.numeral ∷ e.closing ∷ rest

-- The entries with a comma between each two.
abbrev pub write_entries : Token → List Entry → List Token
write_entries comma [] = []
write_entries comma (e ∷ []) = write_entry e []
write_entries comma (e ∷ f ∷ es) = write_entry e (comma ∷ write_entries comma (f ∷ es))

-- The entries by number, the last one in front.
abbrev pub entered : Enums → List Entry → Enums
entered m [] = m
entered m (e ∷ es) = entered ((e.number, e.name.value) ∷ m) es

-- A number is no bracket.
number_text :
    (t : Token) (text : Bytes)
    → type_of t ≡ Token.number
    → is_number (type_of_text text) ≡ false
    → is_text t text ≡ false
unfolding is_text type_of
number_text t text number other = elim (Bool-cases (str_eq t.value text)) [
  | inl same ↦
      let is : t.value ≡ text = (str_eq_iff t.value text).0 same in
      elim (Bool-cases (is_eof_source t.position)) [
        | inl at_end ↦ absurd (true-ne-false (sym (ap is_number (rw at_end at number))))
        | inr placed ↦
            absurd (true-ne-false (sym (ap is_number (rw (placed, is) at number)) ∙ other))
      ]
  | inr differs ↦ differs
]

module _ (origin : Source) where
  block_read :
      (e : Entry) (rest : List Token)
      → IsEntry e
      → read_block
          (codes "(")
          (codes ")")
          (record { origin = origin; elements = e.opening ∷ e.numeral ∷ e.closing ∷ rest })
        ≡ (
          record { origin = origin; elements = rest },
          ok (record { origin = e.opening.position; elements = e.numeral ∷ [] }),
        )
  unfolding type_of_text is_text str_eq
  block_read e rest h =
      read_block-IsBalanced (codes "(") (codes ")") origin e.opening e.closing (e.numeral ∷ []) rest
        (rw h.opens refl) (rw h.opens refl) (rw h.closes refl) (rw h.closes refl)
        (plain e.numeral [] (number_text e.numeral (codes "(") h.has_digits refl)
          (number_text e.numeral (codes ")") h.has_digits refl) nothing)

  block_step :
      (go : Enums → TokenList → Option Enums) (m : Enums) (e : Entry) (s : TokenList)
      → IsEntry e
      → after_block go m e.name
          (s, ok (record { origin = e.opening.position; elements = e.numeral ∷ [] }))
        ≡ go ((e.number, e.name.value) ∷ m) (skip_comma s)
  block_step go m e s h = rw (h.has_digits, h.has_number, after_block, enum_number) refl

  skip_comma-cons :
      (comma : Token) (rest : List Token)
      → comma.value ≡ codes ","
      → skip_comma (record { origin = origin; elements = comma ∷ rest })
        ≡ record { origin = origin; elements = rest }
  unfolding look_ahead is_text
  skip_comma-cons comma rest sep =
      rw ((str_eq_iff comma.value (codes ",")).1 sep) (ap (λ r. r.0) (pop-cons origin comma rest))

  entry_step :
      (fuel : ℕ) (m : Enums) (e : Entry) (rest : List Token)
      → IsEntry e
      → enums_from (suc fuel) m (record { origin = origin; elements = write_entry e rest })
        ≡ enums_from fuel
            ((e.number, e.name.value) ∷ m)
            (skip_comma (record { origin = origin; elements = rest }))
  unfolding enums_from
  entry_step fuel m e rest h =
      rw
        (
          h.has_ident,
          pop-cons origin e.name (e.opening ∷ e.numeral ∷ e.closing ∷ rest),
          block_read e rest h,
          enums_from,
        )
        (block_step (enums_from fuel) m e (record { origin = origin; elements = rest }) h)

  entries_read :
      (comma : Token) (es : List Entry) (fuel : ℕ) (m : Enums)
      → comma.value ≡ codes ","
      → All IsEntry es
      → length (write_entries comma es) ≤ fuel
      → enums_from fuel m (record { origin = origin; elements = write_entries comma es })
        ≡ some (entered m es)
  unfolding enums_from look_ahead
  entries_read comma [] zero m sep h enough = refl
  entries_read comma [] (suc fuel) m sep h enough = refl
  entries_read comma (e ∷ []) zero m sep h enough = absurd (omega arith)
  entries_read comma (e ∷ []) (suc fuel) m sep (he, _) enough =
      entry_step fuel m e [] he
      ∙ entries_read comma [] fuel ((e.number, e.name.value) ∷ m) sep tt (omega arith)
  entries_read comma (e ∷ f ∷ es) zero m sep h enough = absurd (omega arith)
  entries_read comma (e ∷ f ∷ es) (suc fuel) m sep (he, h) enough =
      entry_step fuel m e (comma ∷ write_entries comma (f ∷ es)) he
      ∙ rw (skip_comma-cons comma (write_entries comma (f ∷ es)) sep)
          (entries_read comma (f ∷ es) fuel ((e.number, e.name.value) ∷ m) sep h (omega arith))

-- CompileEnums gives, of a constraint that consists of names, each with a number of the 64-bit
-- range in parentheses behind it, with a comma between each two, the map of these numbers to these
-- names, in which a later entry stands before an earlier one.
pub compile_enums-write_entries :
    (ref : TypeReference) (origin : Source) (comma : Token) (es : List Entry)
    → ref.constraint ≡ some (record { origin = origin; elements = write_entries comma es })
    → comma.value ≡ codes ","
    → All IsEntry es
    → compile_enums ref ≡ some (entered [] es)
unfolding compile_enums
compile_enums-write_entries ref origin comma es is sep h =
    rw (is, compile_enums)
      (entries_read origin comma es (length (write_entries comma es)) [] sep h (omega arith))
