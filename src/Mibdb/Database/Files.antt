-- ===== src/Mibdb/Database/Files.antt =====
-- `readDefintions` comes to its end: every pass that goes on has read a file.
use net_mapper.Prelude.{
  some-ne-none, true-ne-false, ℕ, zero, suc, ◌≤◌, ◌<◌, ◌≡◌, ◌≢◌, refl, ◌∙◌, sym, arith, Bool, true,
  false, ◌||◌, Bool-cases, Option-cases, ◌⊎◌, inl, inr, List, [], ◌∷◌, ◌++◌, Option, none, some,
  Bytes, str_eq, str_eq_refl, if◌then◌else◌, length, Outcome, ok, err, panicked,
}
use net_mapper.Prelude.Assoc.{Assoc, put}
use net_mapper.Mibdb.Module.{Module}
use net_mapper.Mibdb.Database.{
  settle, has_file, Reading, after_file, read_pass, read_loop, read_definitions,
}

-- The files that are not yet done.
unfoldable remaining : List Bytes → List Bytes → ℕ
remaining done [] = 0
remaining done (f ∷ fs) = if has_file done f then remaining done fs else suc (remaining done fs)

has_file-append :
    (done : List Bytes) (f g : Bytes)
    → has_file (done ++ f ∷ []) g ≡ (has_file done g || str_eq f g)
unfolding has_file
has_file-append [] f g = ground arith
has_file-append (d ∷ done) f g = ground (arith, has_file-append done f g)

-- Whatever is in the first list is in the second.
abbrev Grows : List Bytes → List Bytes → Type 0
Grows a b = (g : Bytes) → has_file a g ≡ true → has_file b g ≡ true

Grows-append : (done : List Bytes) (f : Bytes) → Grows done (done ++ f ∷ [])
Grows-append done f g h = rw (has_file-append done f g) (ground (arith, h))

remaining-Grows : (a b fs : List Bytes) → Grows a b → remaining b fs ≤ remaining a fs
unfolding remaining
remaining-Grows a b [] h = omega arith
remaining-Grows a b (f ∷ fs) h = ground (arith, h f, remaining-Grows a b fs h)

remaining-length : (fs : List Bytes) → remaining [] fs ≤ length fs
unfolding remaining has_file
remaining-length [] = omega arith
remaining-length (f ∷ fs) = omega (arith, remaining-length fs)

settle-none :
    {M E : Type 0} (again : Option (M × Outcome (List E) (Unit {0}))) (m : M) (es : List E)
    (p : Bool)
    → settle again m es p ≡ none
    → (again ≡ none) × (p ≡ true)
unfolding settle
settle-none again m [] p h = absurd (some-ne-none _ h)
settle-none again m (e ∷ es) true h = (h, refl)
settle-none again m (e ∷ es) false h = absurd (some-ne-none _ h)

module _ {D E : Type 0} (read_file : Assoc (Module D) → Bytes → Outcome E (Module D)) where
  -- After one file nothing is less done, and after success the file is done.
  after_file_lem :
      (f : Bytes) (r q : Reading D E) (o : Outcome E (Module D))
      → after_file read_file f r o ≡ some q
      → Grows r.done q.done
        × ((q.progress ≡ r.progress) × (q.done ≡ r.done) ⊎ (has_file q.done f ≡ true))
  unfolding after_file
  after_file_lem f r q panicked h = absurd (cc)
  after_file_lem f r q (err e) h =
      let same : record r { errors = r.errors ++ e ∷ [] } ≡ q = cc in
      rw (← same) (λ g x. x, inl (refl, refl))
  after_file_lem f r q (ok m) h =
      let same : record r {
        modules = put m.name m r.modules;
        done = r.done ++ f ∷ [];
        progress = true;
      }
          ≡ q =
        cc in
      rw (← same)
        (Grows-append r.done f, inr (rw (has_file-append r.done f f, str_eq_refl f) (ground arith)))

  read_pass_lem :
      (fs : List Bytes) (r q : Reading D E)
      → read_pass read_file fs r ≡ some q
      → Grows r.done q.done
        × ((q.progress ≡ r.progress) ⊎ (remaining q.done fs < remaining r.done fs))
  unfolding read_pass remaining
  read_pass_lem [] r q h = let same : r ≡ q = cc in rw same (λ g x. x, inl refl)
  read_pass_lem (f ∷ fs) r q h = elim (Bool-cases (has_file r.done f)) [
    | inl there ↦
        let (grows, before) = read_pass_lem fs r q (rw (there, read_pass) at h) in
        (grows, rw (there, grows f there) before)
    | inr new ↦ elim (Option-cases (after_file read_file f r (read_file r.modules f))) [
      | inl e ↦ absurd (some-ne-none q (sym (rw (new, e, read_pass) at h)))
      | inr (r', e) ↦
          let (grows, before) = after_file_lem f r r' (read_file r.modules f) e in
          let (grows', later) = read_pass_lem fs r' q (rw (new, e, read_pass) at h) in
          let all : Grows r.done q.done = λ g x. grows' g (grows g x) in
          let fewer = remaining-Grows r.done q.done fs all in
          (
            all,
            elim before [
              | inr done ↦ inr (ground (arith, fewer, grows' f done))
              | inl (same, same_done) ↦ elim later [
                | inl same' ↦ inl (same' ∙ same)
                | inr less ↦ inr (ground (arith, rw same_done at less))
              ]
            ],
          )
    ]
  ]

  read_loop-enough_fuel :
      (fuel : ℕ) (files : List Bytes) (r : Reading D E)
      → remaining r.done files < fuel
      → read_loop read_file fuel files r ≢ none
  unfolding read_loop
  read_loop-enough_fuel zero files r h e = absurd (omega arith)
  read_loop-enough_fuel (suc fuel) files r h e =
      elim (Option-cases (read_pass read_file files (record r { errors = []; progress = false }))) [
        | inl panics ↦ some-ne-none _ (rw (panics, read_loop) at e)
        | inr (q, is) ↦
            let (grows, less) = read_pass_lem files _ q is in
            let (none_again, more) =
              settle-none _ q.modules q.errors q.progress (rw (is, read_loop) at e) in
            let fewer : remaining q.done files < fuel = elim less [
              | inl same ↦ absurd (true-ne-false (sym more ∙ same))
              | inr lt ↦ omega (arith, lt)
            ] in
            read_loop-enough_fuel fuel files q fewer none_again
      ]

  pub read_definitions-enough_fuel :
      (files : List Bytes) (modules : Assoc (Module D))
      → read_definitions read_file files modules ≢ none
  unfolding read_definitions
  read_definitions-enough_fuel files modules =
      read_loop-enough_fuel (suc (length files)) files _ (omega (arith, remaining-length files))
