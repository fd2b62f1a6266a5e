-- ===== src/Mibdb/TypeReference/Elements.antt =====
-- `readOid` on names and numbers, some of them with a number in parentheses.
use net_mapper.Prelude.{
  ℕ, zero, suc, ◌≤◌, ◌≡◌, refl, sym, ap, ◌∙◌, arith, false, List, [], ◌∷◌, ◌++◌, append-nil,
  append_assoc, map, Bytes, codes, str_eq, str_eq_iff, length, All, ok,
}
use net_mapper.Mibtoken.Token.{Token, Source, is_text}
use net_mapper.Mibtoken.Tokens.{TokenList, look_ahead, pop}
use net_mapper.Mibtoken.Tokens.Read.{pop-cons}
use net_mapper.Mibdb.TypeReference.{
  go_on, lift, opens_number, element_if, oid_element, add_element, oid_texts, read_oid,
}
use net_mapper.Mibdb.TypeReference.Reads.{Block, IsBlock, take_block-IsBlock}

-- A name or a number, or a name with its number in parentheses.
pub data Item : Type 0 where
  word : Token → Item
  counted : Token → Token → Token → Token → Item

abbrev pub write_item : Item → List Token → List Token
write_item (word t) rest = t ∷ rest
write_item (counted t o d c) rest = t ∷ o ∷ d ∷ c ∷ rest

abbrev pub write_items : List Item → List Token
write_items [] = []
write_items (i ∷ is) = write_item i (write_items is)

abbrev pub element_of : Item → Bytes
element_of (word t) = t.value
element_of (counted t o d c) = d.value

abbrev pub elements_of : List Item → List Bytes
elements_of = map element_of

abbrev number_block : Token → Token → Token → Block
number_block o d c = record { opening = o; inner = d ∷ []; closing = c }

abbrev pub IsItem : Item → Type 0
IsItem (word t) = is_text t (codes "(") ≡ false
IsItem (counted t o d c) =
    (is_text t (codes "(") ≡ false) × IsBlock (codes "(") (codes ")") (number_block o d c)

module _ (origin : Source) where
  abbrev at : List Token → TokenList
  at ts = record { origin = origin; elements = ts }

  no_number : (is : List Item) → All IsItem is → opens_number (at (write_items is)) ≡ false
  unfolding look_ahead
  no_number [] h = refl
  no_number (word t ∷ is) (h, _) = h
  no_number (counted t o d c ∷ is) ((h, _), _) = h

  word_element :
      (t : Token) (is : List Item)
      → All IsItem is
      → oid_element t (at (write_items is)) ≡ (at (write_items is), ok t)
  word_element t is h = ap (λ b. element_if b t (at (write_items is))) (no_number is h)

  numbered_element :
      (t o d c : Token) (rest : List Token)
      → IsBlock (codes "(") (codes ")") (number_block o d c)
      → oid_element t (at (o ∷ d ∷ c ∷ rest)) ≡ (at rest, ok d)
  unfolding look_ahead is_text str_eq
  numbered_element t o d c rest h =
      ap (λ b. element_if b t (at (o ∷ d ∷ c ∷ rest))) ((str_eq_iff o.value (codes "(")).1 h.opens)
      ∙ ap (λ r. go_on (λ block s. (s, (lift (pop block)).1)) r)
          (take_block-IsBlock origin (codes "(") (codes ")") (number_block o d c) rest refl refl h)
      ∙ ap (λ r. (at rest, (lift r).1)) (pop-cons o.position d [])

  elements_read :
      (is : List Item) (fuel : ℕ) (acc : List Bytes)
      → All IsItem is
      → length (write_items is) ≤ fuel
      → oid_texts fuel acc (at (write_items is)) ≡ ok (acc ++ elements_of is)
  unfolding oid_texts
  elements_read [] zero acc h enough = ap ok (sym (append-nil acc))
  elements_read [] (suc fuel) acc h enough = ap ok (sym (append-nil acc))
  elements_read (word t ∷ is) zero acc h enough = absurd (omega arith)
  elements_read (word t ∷ is) (suc fuel) acc (_, h) enough =
      ap (λ r. add_element (oid_texts fuel) acc (oid_element t r.0))
        (pop-cons origin t (write_items is))
      ∙ ap (add_element (oid_texts fuel) acc) (word_element t is h)
      ∙ elements_read is fuel (acc ++ t.value ∷ []) h (omega arith)
      ∙ ap ok (append_assoc acc (t.value ∷ []) (elements_of is))
  elements_read (counted t o d c ∷ is) zero acc h enough = absurd (omega arith)
  elements_read (counted t o d c ∷ is) (suc fuel) acc ((_, block), h) enough =
      ap (λ r. add_element (oid_texts fuel) acc (oid_element t r.0))
        (pop-cons origin t (o ∷ d ∷ c ∷ write_items is))
      ∙ ap (add_element (oid_texts fuel) acc) (numbered_element t o d c (write_items is) block)
      ∙ elements_read is fuel (acc ++ d.value ∷ []) h (omega arith)
      ∙ ap ok (append_assoc acc (d.value ∷ []) (elements_of is))

-- readOid of names and numbers in braces gives them in their order, with the number instead of a
-- name that has one in parentheses behind it, and leaves the tokens that follow.
pub read_oid-write_items :
    (origin : Source) (opening closing : Token) (is : List Item) (rest : List Token)
    → IsBlock
        (codes "{")
        (codes "}")
        (record { opening = opening; inner = write_items is; closing = closing })
    → All IsItem is
    → read_oid (record { origin = origin; elements = opening ∷ (write_items is ++ closing ∷ rest) })
      ≡ (record { origin = origin; elements = rest }, ok (elements_of is))
unfolding read_oid look_ahead is_text str_eq
read_oid-write_items origin opening closing is rest braces h =
    rw
      (
        (str_eq_iff opening.value (codes "{")).1 braces.opens,
        take_block-IsBlock origin (codes "{") (codes "}")
            (record { opening = opening; inner = write_items is; closing = closing }) rest refl refl
            braces,
      )
      (ap (λ r. (at origin rest, r))
        (elements_read opening.position is (length (write_items is)) [] h (omega arith)))
