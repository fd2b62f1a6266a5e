-- ===== src/Mibtoken/Scanner/Unquote.antt =====
-- `Unquote` reads what was escaped.
use net_mapper.Prelude.{
  ℕ, zero, suc, ◌≤◌, ◌≡◌, ◌⊎◌, refl, sym, ap, ◌∙◌, arith, inl, inr, Bool, true, false, Bool-cases,
  ◌||◌, [], ◌∷◌, ◌++◌, append-nil, append_assoc, some, Bytes, ◌==◌, ==_iff, if◌then◌else◌, length,
  length-append, get_or, take_append, ok,
}
use net_mapper.Mibtoken.Token
use net_mapper.Mibtoken.Token.{Token, type_of, type_of_text, is_eof_source}
use net_mapper.Mibtoken.Scanner.{escaped, unquote_from, unquote_text, unquote}

-- A backslash in front of a quote or a backslash, and the letters for line breaks.
abbrev pub escape : Bytes → Bytes
escape [] = []
escape (c ∷ cs) =
    if c == 10
    then 92 ∷ b'n' ∷ escape cs
    else if c == 13
    then 92 ∷ b'r' ∷ escape cs
    else if c == 92 || c == 34
    then 92 ∷ c ∷ escape cs
    else c ∷ escape cs

abbrev Reads : Bytes → Bytes → Type 0
Reads written text =
    (fuel : ℕ) (behind : Bytes)
    → length written ≤ fuel
    → unquote_from fuel behind written ≡ ok (behind ++ text)

escaped_pair :
    (x c : ℕ) (written text : Bytes)
    → escaped x ≡ some c
    → Reads written text
    → Reads (92 ∷ x ∷ written) (c ∷ text)
unfolding unquote_from
escaped_pair x c written text is reads zero behind h = absurd (omega arith)
escaped_pair x c written text is reads (suc fuel) behind h =
    rw (is, unquote_from)
      (reads fuel (behind ++ c ∷ []) (omega arith) ∙ ap ok (append_assoc behind (c ∷ []) text))

plain_byte :
    (c : ℕ) (written text : Bytes)
    → (c == 92) ≡ false
    → (c == 10) ≡ false
    → (c == 13) ≡ false
    → Reads written text
    → Reads (c ∷ written) (c ∷ text)
unfolding unquote_from
plain_byte c written text slash feed return reads zero behind h = absurd (omega arith)
plain_byte c [] text slash feed return reads (suc fuel) behind h =
    rw (slash, feed, return, unquote_from)
      (ap ok (sym (append-nil (behind ++ c ∷ [])))
        ∙ reads zero (behind ++ c ∷ []) (omega arith)
        ∙ ap ok (append_assoc behind (c ∷ []) text))
plain_byte c (d ∷ written) text slash feed return reads (suc fuel) behind h =
    rw (slash, feed, return, unquote_from)
      (reads fuel (behind ++ c ∷ []) (omega arith) ∙ ap ok (append_assoc behind (c ∷ []) text))

escaped_quote : (c : ℕ) → (c == 92 || c == 34) ≡ true → escaped c ≡ some c
unfolding escaped
escaped_quote c h = ground arith

Reads-empty : Reads [] []
unfolding unquote_from
Reads-empty zero behind h = refl
Reads-empty (suc fuel) behind h = rw (append-nil behind) refl

not_either : (a b : Bool) → (a || b) ≡ false → a ≡ false
not_either a b h = ground arith

Reads-escape : (text : Bytes) → Reads (escape text) text
unfolding escaped
Reads-escape [] = Reads-empty
Reads-escape (c ∷ cs) = elim (Bool-cases (c == 10)) [
  | inl feed ↦
      rw feed (
        escaped_pair b'n' c (escape cs) cs (ap some (sym ((==_iff c 10).0 feed))) (Reads-escape cs))
  | inr no_feed ↦ elim (Bool-cases (c == 13)) [
    | inl return ↦
        rw (no_feed, return)
          (escaped_pair b'r' c (escape cs) cs (ap some (sym ((==_iff c 13).0 return)))
            (Reads-escape cs))
    | inr no_return ↦ elim (Bool-cases (c == 92 || c == 34)) [
      | inl quote ↦
          rw (no_feed, no_return, quote)
            (escaped_pair c c (escape cs) cs (escaped_quote c quote) (Reads-escape cs))
      | inr no_quote ↦
          rw (no_feed, no_return, no_quote)
            (plain_byte c (escape cs) cs (not_either (c == 92) (c == 34) no_quote) no_feed no_return
              (Reads-escape cs))
    ]
  ]
]

last_of : (s : Bytes) (q : ℕ) → get_or (s ++ q ∷ []) (length s) 0 ≡ q
last_of [] q = refl
last_of (c ∷ s) q = last_of s q

between_quotes :
    (q : ℕ) (s : Bytes) → unquote_text (q ∷ (s ++ q ∷ [])) ≡ unquote_from (length s) [] s
unfolding unquote_text
between_quotes q [] = ground arith
between_quotes q (c ∷ s) =
    let size : length (s ++ q ∷ []) ≡ suc (length s) = omega (arith, length-append s (q ∷ [])) in
    rw (size, last_of s q, (==_iff q q).1 refl, take_append s (q ∷ [])) refl

is_string :
    (q : ℕ) (text : Bytes) (position : Token.Source)
    → (q ≡ 34) ⊎ (q ≡ 39)
    → is_eof_source position ≡ false
    → type_of (record { value = q ∷ text; position = position }) ≡ Token.quoted
unfolding type_of type_of_text
is_string q text position (inl e) placed = rw (placed, e) refl
is_string q text position (inr e) placed = rw (placed, e) refl

-- Unquote gives back any text in which each line break, carriage return, backslash and double
-- quote is escaped, between two double or two single quotes, at a position other than that of the
-- end of a file.
pub unquote-escape :
    (q : ℕ) (text : Bytes) (position : Token.Source)
    → (q ≡ 34) ⊎ (q ≡ 39)
    → is_eof_source position ≡ false
    → unquote (record { value = q ∷ (escape text ++ q ∷ []); position = position }) ≡ ok text
unfolding unquote
unquote-escape q text position quote placed =
    rw (is_string q (escape text ++ q ∷ []) position quote placed, between_quotes q (escape text))
      (Reads-escape text (length (escape text)) [] (omega arith))
