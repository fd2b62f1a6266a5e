-- ===== src/Framework/Laws.antt =====
-- What the checks of helpers.go accept.
use net_mapper.Prelude.{ℕ, ◌≤◌, ◌≡◌, ◌↔◌, refl, arith, Bool, true, false, List, [], ◌∷◌, inl, inr}
use net_mapper.Prelude.{Bytes, ltb, length, All, Bool-cases, ok}
use net_mapper.Framework.{
  is_letter, is_word, check_chars, is_identifier, variations, contains, unexpected, check_fields,
  none_or_error,
}

abbrev pub starts_with_letter : Bytes → Bool
starts_with_letter [] = false
starts_with_letter (c ∷ cs) = is_letter c

rest_iff : (cs : Bytes) → (check_chars false cs ≡ ok tt) ↔ All (λ c. is_word c ≡ true) cs
unfolding check_chars
rest_iff [] = (λ _. tt, λ _. refl)
rest_iff (c ∷ cs) = elim (Bool-cases (is_word c)) [
  | inl e ↦ rw (e, check_chars) (λ h. (refl, (rest_iff cs).0 h), λ h. (rest_iff cs).1 h.1)
  | inr e ↦ rw (e, check_chars) (λ h. absurd (cc), λ h. absurd (cc))
]

first_iff :
    (c : ℕ) (cs : Bytes)
    → (check_chars true (c ∷ cs) ≡ ok tt)
      ↔ (is_letter c ≡ true) × All (λ d. is_word d ≡ true) (c ∷ cs)
unfolding check_chars
first_iff c cs = elim (Bool-cases (is_letter c)) [
  | inl e ↦ let r = rest_iff cs in rw (e, check_chars) (λ h. (refl, (refl, r.0 h)), λ h. r.1 h.1.1)
  | inr e ↦ rw (e, check_chars) (λ h. absurd (cc), λ h. absurd (cc))
]

-- IsIdentifier accepts a text exactly when it is at most 64 bytes long, starts with a letter and
-- has nothing but letters, digits and underscores.
pub is_identifier_iff :
    (s : Bytes)
    → (is_identifier s ≡ ok tt)
      ↔ (length s ≤ 64) × (starts_with_letter s ≡ true) × All (λ c. is_word c ≡ true) s
unfolding is_identifier
is_identifier_iff [] = (λ h. absurd (cc), λ h. absurd (cc))
is_identifier_iff (c ∷ cs) = elim (Bool-cases (ltb 64 (length (c ∷ cs)))) [
  | inl long ↦ (
    λ h. absurd (ground arith),
    λ (h : (length (c ∷ cs) ≤ 64) × (is_letter c ≡ true) × All (λ d. is_word d ≡ true) (c ∷ cs)).
        let fits = h.0 in absurd (ground (arith, fits)),
  )
  | inr short ↦
      let looked : is_identifier (c ∷ cs) ≡ check_chars true (c ∷ cs) = ground arith in
      let fits : length (c ∷ cs) ≤ 64 = ground arith in
      let r = first_iff c cs in
      rw looked (
        λ h. let (letter, words) = r.0 h in (fits, letter, words),
        λ (le, letter, words). r.1 (letter, words),
      )
]

unexpected_iff :
    (allowed keys : List Bytes)
    → (unexpected allowed keys ≡ []) ↔ All (λ k. contains allowed k ≡ true) keys
unfolding unexpected
unexpected_iff allowed [] = (λ _. tt, λ _. refl)
unexpected_iff allowed (k ∷ ks) = elim (Bool-cases (contains allowed k)) [
  | inl e ↦
      let r = unexpected_iff allowed ks in rw (e, unexpected) (λ h. (refl, r.0 h), λ h. r.1 h.1)
  | inr e ↦ rw (e, unexpected) (λ h. absurd (cc), λ h. absurd (cc))
]

-- CheckFields accepts a configuration exactly when each of its keys is a variation of a field.
pub check_fields_iff :
    (keys fields : List Bytes)
    → (check_fields keys fields ≡ ok tt) ↔ All (λ k. contains (variations fields) k ≡ true) keys
unfolding check_fields
check_fields_iff keys fields =
    let r = unexpected_iff (variations fields) keys in (λ h. r.0 (none_lem _ h), λ h. rw (r.1 h))
  where
    none_lem : (ks : List Bytes) → none_or_error ks ≡ ok tt → ks ≡ []
    none_lem [] h = refl
    none_lem (k ∷ ks) h = absurd (cc)
