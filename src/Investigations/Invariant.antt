-- ===== src/Investigations/Invariant.antt =====
-- What every investigation store satisfies that the handlers of
-- crates/api/src/routes/investigations.rs have built, and its round trip through a snapshot.
use hkgov_rethink.Prelude.{
  All-remove, ℕ, zero, suc, ◌+◌, ◌≡◌, refl, ap, ◌∙◌, true, List, [], ◌∷◌, ◌++◌, map, Option, none,
  some, Text, text, text_key, Map, get, insert, remove, same, same_iff, length, length-append,
  decimal, All, All-insert, All-get, IsSorted, insert-IsSorted, remove-IsSorted, insert_all-values,
  arith, Bool-cases, inl, inr, Result-cases,
}
use hkgov_rethink.Investigations.Store.{
  InvestigationStep, Investigation, InvestigationStore, empty, owned_by, with_step, with_note,
  change, take_out, delete_owned, append_step_owned, add_note_owned, create, snapshot, restore,
}
use hkgov_rethink.Investigations.Requests.{
  Request, creates, lists, reads, deletes, appends, notes, serve, serve_all, new_case, new_step,
  parse_source, parse_kind, found_or, open_case, append,
}

-- The ids that a prefix has with the numbers from 1 to `n`.
abbrev pub numbered : Text → ℕ → List Text
numbered p zero = []
numbered p (suc n) = numbered p n ++ (p ++ decimal (suc n)) ∷ []

map-snoc :
    {A B : Type 0} (f : A → B) (xs : List A) (x : A) → map f (xs ++ x ∷ []) ≡ map f xs ++ f x ∷ []
map-snoc f [] x = refl
map-snoc f (y ∷ xs) x = ap (◌∷◌ (f y)) (map-snoc f xs x)

-- One more, with the next id.
numbered-snoc :
    {A : Type 0} (p : Text) (f : A → Text) (xs : List A) (x : A)
    → map f xs ≡ numbered p (length xs)
    → f x ≡ p ++ decimal (length xs + 1)
    → map f (xs ++ x ∷ []) ≡ numbered p (length (xs ++ x ∷ []))
numbered-snoc p f xs x h e =
    let size : length (xs ++ x ∷ []) ≡ suc (length xs) = omega (arith, length-append xs (x ∷ [])) in
    let next : length xs + 1 ≡ suc (length xs) = omega arith in
    rw (map-snoc f xs x, size, h, e, next)

module _ {A T : Type 0} where
  -- The steps' ids are s1, s2, … and the notes' n1, n2, … in order.
  pub record IsNumbered (inv : Investigation A T) : Type 0 where
    pub steps : map (λ x. x.id) inv.steps ≡ numbered (text "s") (length inv.steps)
    pub notes : map (λ x. x.id) inv.notes ≡ numbered (text "n") (length inv.notes)

  -- The map is sorted, and each investigation is numbered and stands under its own id.
  pub record IsValid (s : InvestigationStore A T) : Type 0 where
    pub sorted : IsSorted s.inner
    pub own : All (λ e. e.1.id ≡ e.0) s.inner
    pub counted : All (λ e. IsNumbered e.1) s.inner

  with_step-IsNumbered :
      (t u : ℕ) (step : InvestigationStep A T) (inv : Investigation A T)
      → IsNumbered inv
      → IsNumbered (with_step t u step inv)
  unfolding with_step
  with_step-IsNumbered t u step inv v = record {
    steps = numbered-snoc (text "s") (λ (x : InvestigationStep A T). x.id) inv.steps _ v.steps refl;
    notes = v.notes;
  }

  with_note-IsNumbered :
      (t u : ℕ) (body : Text) (inv : Investigation A T)
      → IsNumbered inv
      → IsNumbered (with_note t u body inv)
  unfolding with_note
  with_note-IsNumbered t u body inv v = record {
    steps = v.steps;
    notes = numbered-snoc (text "n") (λ x. x.id) inv.notes _ v.notes refl;
  }

  found_own :
      (q : Text) (m : Map Text (Investigation A T)) {v : Investigation A T}
      → All (λ e. e.1.id ≡ e.0) m
      → get q m ≡ some v
      → v.id ≡ q
  unfolding get
  found_own q [] a e = cc
  found_own q ((j, w) ∷ m) {v} a e = ground (arith, found_own q m {v = v} a.1, same_iff q j)

  -- An investigation that is put under its own id.
  put-IsValid :
      (s : InvestigationStore A T) (id : Text) (inv : Investigation A T)
      → IsValid s
      → inv.id ≡ id
      → IsNumbered inv
      → IsValid (record { inner = insert id inv s.inner })
  put-IsValid s id inv v own n = record {
    sorted = insert-IsSorted id inv s.inner v.sorted;
    own = All-insert (λ e. e.1.id ≡ e.0) id inv s.inner own v.own;
    counted = All-insert (λ e. IsNumbered e.1) id inv s.inner n v.counted;
  }

  remove-IsValid :
      (s : InvestigationStore A T) (id : Text)
      → IsValid s
      → IsValid (record { inner = remove id s.inner })
  remove-IsValid s id v = record {
    sorted = remove-IsSorted id s.inner v.sorted;
    own = All-remove (λ e. e.1.id ≡ e.0) id s.inner v.own;
    counted = All-remove (λ e. IsNumbered e.1) id s.inner v.counted;
  }

  -- What the owner's filter lets through was there, and is the owner's.
  pub owned_cases {ℓ} :
      (P : Option (Investigation A T) → Type ℓ) (owner : Text) (o : Option (Investigation A T))
      → P none
      → ((inv : Investigation A T) → o ≡ some inv → same inv.owner owner ≡ true → P (some inv))
      → P (owned_by owner o)
  owned_cases P owner none absent found = absent
  owned_cases P owner (some inv) absent found = elim (Bool-cases (same inv.owner owner)) [
    | inl e ↦ rw e (found inv refl e)
    | inr e ↦ rw e absent
  ]

  change-IsValid :
      (s : InvestigationStore A T) (id owner : Text) (f : Investigation A T → Investigation A T)
      → IsValid s
      → ((inv : Investigation A T) → (f inv).id ≡ inv.id)
      → ((inv : Investigation A T) → IsNumbered inv → IsNumbered (f inv))
      → IsValid (found_or (change s id f (owned_by owner (get id s.inner)))).0
  unfolding change found_or
  change-IsValid s id owner f v same_id next =
      owned_cases (λ o. IsValid (found_or (change s id f o)).0) owner (get id s.inner) v
        (λ inv e mine.
          put-IsValid s id (f inv) v (same_id inv ∙ found_own id s.inner v.own e)
            (next inv (All-get IsNumbered id s.inner v.counted e)))

  serve-IsValid :
      (digest : Text → ℕ → Text) (caller : Text) (now : ℕ) (r : Request A T)
      (s : InvestigationStore A T)
      → IsValid s
      → IsValid (serve digest caller now r s).0
  unfolding serve create delete_owned take_out append_step_owned add_note_owned with_step with_note
      new_case open_case append
  serve-IsValid digest caller now (creates req) s v =
      elim (Result-cases (parse_source req.seed_source)) [
        | inl (d, e) ↦ rw e (
            put-IsValid s _ (new_case digest caller now req d) v refl
              (record { steps = refl; notes = refl }))
        | inr (x, e) ↦ rw e v
      ]
  serve-IsValid digest caller now (lists limit) s v = v
  serve-IsValid digest caller now (reads id) s v = v
  serve-IsValid digest caller now (deletes id) s v =
      owned_cases (λ o. IsValid (take_out s id o).0) caller (get id s.inner) v
        (λ inv e mine. remove-IsValid s id v)
  serve-IsValid digest caller now (appends id req) s v = elim (Result-cases (parse_kind req.kind)) [
    | inl (kind, e) ↦ rw e (
        change-IsValid s id caller (with_step now now (new_step now kind req)) v (λ inv. refl)
          (with_step-IsNumbered now now (new_step now kind req)))
    | inr (x, e) ↦ rw e v
  ]
  serve-IsValid digest caller now (notes id body) s v =
      change-IsValid s id caller (with_note now now body) v (λ inv. refl)
        (with_note-IsNumbered now now body)

  -- Whatever requests are served, of whatever callers, from a valid store: every investigation
  -- stands under its own id, its steps are numbered s1, s2, … and its notes n1, n2, … without a gap
  -- or a repetition.
  pub serve_all-IsValid :
      (digest : Text → ℕ → Text) (rs : List (Text × ℕ × Request A T)) (s : InvestigationStore A T)
      → IsValid s
      → IsValid (serve_all digest rs s)
  unfolding serve_all
  serve_all-IsValid digest [] s v = v
  serve_all-IsValid digest ((caller, now, r) ∷ rs) s v =
      serve_all-IsValid digest rs _ (serve-IsValid digest caller now r s v)

  pub empty-IsValid : IsValid empty
  unfolding empty
  empty-IsValid = record { sorted = tt; own = tt; counted = tt }

  -- A new store that is restored from a snapshot is the store that the snapshot was taken of, for
  -- every store that requests have built.
  pub restore-snapshot-serve_all :
      (digest : Text → ℕ → Text) (rs : List (Text × ℕ × Request A T))
      → restore empty (snapshot (serve_all digest rs empty)) ≡ serve_all digest rs empty
  unfolding restore snapshot empty
  restore-snapshot-serve_all digest rs =
      let v = serve_all-IsValid digest rs empty empty-IsValid in
      λ i. record {
        inner =
            insert_all-values (λ (x : Investigation A T). x.id) (serve_all digest rs empty).inner
              v.own v.sorted i;
      }
