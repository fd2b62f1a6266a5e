-- ===== src/Binary/Registry/Laws.antt =====
-- Which provider of the registry answers.
use mathlib.Core.List.{Mem, mem-cons_of_mem, mem-cons_self}
use net_mapper.Prelude.{◌≡◌, refl, true, List, [], ◌∷◌, none, some}
use net_mapper.Prelude.{All, ◌⊎◌, inl, inr, Option-cases, some-ne-none, ◌∙◌, ok, err}
use net_mapper.Binary.Interface.{Packer}
use net_mapper.Binary.Registry.{
  RegistryError, not_found, Provider, Offer, offered, precedes, register_all, first_offer,
  get_packer_for,
}
use net_mapper.Binary.Registry.Order.{
  IsSorted, HasUniqueNames, register_all_lem, register_all-All, All-register_all,
}

module _ {Any : Type 0} where
  -- The provider that is asked with success: no other one that has an answer precedes it.
  pub record IsFirst {A : Type 0} (ask : Provider Any → Offer A) (ps : List (Provider Any)) (a : A)
      : Type 0 where
    pub chosen : Provider Any
    pub registered : Mem chosen ps
    pub answers : offered (ask chosen) ≡ some a
    pub precedes_others :
        All (λ q. (offered (ask q) ≡ none) ⊎ (q ≡ chosen) ⊎ (precedes chosen q ≡ true)) ps

  All-map :
      (P Q : Provider Any → Type 0) (ps : List (Provider Any))
      → ((q : Provider Any) → P q → Q q)
      → All P ps
      → All Q ps
  All-map P Q [] f h = tt
  All-map P Q (p ∷ ps) f (hp, h) = (f p hp, All-map P Q ps f h)

  All-Mem : (ps : List (Provider Any)) → All (λ q. Mem q ps) ps
  All-Mem [] = tt
  All-Mem (p ∷ ps) =
      (mem-cons_self, All-map (λ q. Mem q ps) _ ps (λ q h. mem-cons_of_mem p h) (All-Mem ps))

  -- What the provider that answers first has, where all have `R`.
  record Answers {A : Type 0} (ask : Provider Any → Offer A) (R : Provider Any → Type 0)
      (ps : List (Provider Any)) (a : A) : Type 0 where
    who : Provider Any
    has : R who
    offers_it : offered (ask who) ≡ some a
    before_others : All (λ q. (offered (ask q) ≡ none) ⊎ (q ≡ who) ⊎ (precedes who q ≡ true)) ps

  first_offer-Answers :
      {A : Type 0} (ask : Provider Any → Offer A) (R : Provider Any → Type 0)
      (ps : List (Provider Any)) (a : A)
      → IsSorted ps
      → All R ps
      → first_offer ask ps ≡ some a
      → Answers ask R ps a
  unfolding first_offer IsSorted
  first_offer-Answers ask R [] a s r h = cc
  first_offer-Answers ask R (p ∷ ps) a (before, s) (rp, r) h =
      elim (Option-cases (offered (ask p))) [
        | inl e ↦
            let found = first_offer-Answers ask R ps a s r (rw (e, first_offer) at h) in
            record {
              who = found.who;
              has = found.has;
              offers_it = found.offers_it;
              before_others = (inl e, found.before_others);
            }
        | inr (b, e) ↦ record {
          who = p;
          has = rp;
          offers_it = e ∙ (rw (e, first_offer) at h);
          before_others = (inr (inl refl), All-map _ _ ps (λ q k. inr (inr k)) before);
        }
      ]

  first_offer-none :
      {A : Type 0} (ask : Provider Any → Offer A) (ps : List (Provider Any))
      → first_offer ask ps ≡ none
      → All (λ q. offered (ask q) ≡ none) ps
  unfolding first_offer
  first_offer-none ask [] h = tt
  first_offer-none ask (p ∷ ps) h = elim (Option-cases (offered (ask p))) [
    | inl e ↦ (e, first_offer-none ask ps (rw (e, first_offer) at h))
    | inr (b, e) ↦ absurd (some-ne-none b (rw (e, first_offer) at h))
  ]

  not_found_lem :
      {A : Type 0} (ps : List (Provider Any)) → (e : RegistryError) × (not_found {A = A} ps ≡ err e)
  unfolding not_found
  not_found_lem [] = (_, refl)
  not_found_lem (p ∷ ps) = (_, refl)

  -- After any registrations from the empty registry that all succeeded, GetPackerFor returns the
  -- packer of one of the registered providers, which precedes, by priority and then by name, every
  -- other registered one that offers a packer; or it fails, and none of the registered providers
  -- offers one.
  pub get_packer_for-IsFirst :
      (rs qs : List (Provider Any)) (i : Any)
      → register_all rs [] ≡ ok qs
      → ((packer : Packer) × (get_packer_for qs i ≡ ok packer)
          × IsFirst (λ p. p.packer i) rs packer)
        ⊎ ((e : RegistryError) × (get_packer_for qs i ≡ err e)
            × All (λ q. offered (q.packer i) ≡ none) rs)
  unfolding get_packer_for IsSorted HasUniqueNames
  get_packer_for-IsFirst rs qs i registered =
      let s = register_all_lem rs [] qs tt tt registered in
      let members = register_all-All (λ q. Mem q rs) rs [] qs tt (All-Mem rs) registered in
      elim (Option-cases (first_offer (λ p. p.packer i) qs)) [
        | inl e ↦
            let (reason, fails) = not_found_lem {A = Packer} qs in
            inr (
              reason,
              rw (e, get_packer_for) fails,
              (All-register_all _ rs [] qs (first_offer-none _ qs e) registered).1,
            )
        | inr (packer, e) ↦
            let found = first_offer-Answers _ (λ q. Mem q rs) qs packer s.0 members e in
            inl (
              packer,
              rw (e, get_packer_for) refl,
              record {
                chosen = found.who;
                registered = found.has;
                answers = found.offers_it;
                precedes_others = (All-register_all _ rs [] qs found.before_others registered).1;
              },
            )
      ]
