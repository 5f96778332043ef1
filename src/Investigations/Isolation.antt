-- ===== src/Investigations/Isolation.antt =====
-- What one caller of the handlers of crates/api/src/routes/investigations.rs can do to, and learn
-- of, the investigations of another.
use hkgov_rethink.Prelude.{
  ℕ, ◌≡◌, false, List, [], ◌∷◌, some, Text, text_key, get, same, same_iff, get-insert, get-remove,
  All, arith, inl, inr, Result-cases,
}
use hkgov_rethink.Investigations.Store.{
  Investigation, InvestigationStore, owned_by, with_step, with_note, change, take_out,
  investigation_id, delete_owned, append_step_owned, add_note_owned, create,
}
use hkgov_rethink.Investigations.Requests.{
  Request, creates, lists, reads, deletes, appends, notes, serve, serve_all, new_case, new_step,
  parse_source, parse_kind, found_or, open_case, append,
}
use hkgov_rethink.Investigations.Invariant.{owned_cases}

module _ {A T : Type 0} (digest : Text → ℕ → Text) (id : Text) (inv : Investigation A T) where
  -- A request of somebody else, which does not happen to create the same id (the hash of its seed
  -- and time would have to collide).
  abbrev pub IsForeign : Text × ℕ × Request A T → Type 0
  IsForeign (caller, now, creates req) =
      (same inv.owner caller ≡ false)
      × (same id (investigation_id digest req.seed_insight_id now) ≡ false)
  IsForeign (caller, now, r) = same inv.owner caller ≡ false

  change-other :
      (s : InvestigationStore A T) (id' caller : Text) (f : Investigation A T → Investigation A T)
      → get id s.inner ≡ some inv
      → same inv.owner caller ≡ false
      → get id (found_or (change s id' f (owned_by caller (get id' s.inner)))).0.inner ≡ some inv
  unfolding change found_or
  change-other s id' caller f here foreign =
      owned_cases (λ o. get id (found_or (change s id' f o)).0.inner ≡ some inv) caller
        (get id' s.inner) here
        (λ other e mine.
          ground (arith, get-insert id' id (f other) s.inner, (same_iff id id').0, here))

  serve-other :
      (caller : Text) (now : ℕ) (r : Request A T) (s : InvestigationStore A T)
      → get id s.inner ≡ some inv
      → IsForeign (caller, now, r)
      → get id (serve digest caller now r s).0.inner ≡ some inv
  unfolding serve create delete_owned take_out append_step_owned add_note_owned new_case open_case
      append
  serve-other caller now (creates req) s here (foreign, fresh) =
      elim (Result-cases (parse_source req.seed_source)) [
        | inl (d, e) ↦
            rw e (rw (get-insert _ id (new_case digest caller now req d) s.inner, fresh) here)
        | inr (x, e) ↦ rw e here
      ]
  serve-other caller now (lists limit) s here foreign = here
  serve-other caller now (reads id') s here foreign = here
  serve-other caller now (deletes id') s here foreign =
      owned_cases (λ o. get id (take_out s id' o).0.inner ≡ some inv) caller (get id' s.inner) here
        (λ other e mine. ground (arith, get-remove id' id s.inner, (same_iff id id').0, here))
  serve-other caller now (appends id' req) s here foreign =
      elim (Result-cases (parse_kind req.kind)) [
        | inl (kind, e) ↦
            rw e
              (change-other s id' caller (with_step now now (new_step now kind req)) here foreign)
        | inr (x, e) ↦ rw e here
      ]
  serve-other caller now (notes id' body) s here foreign =
      change-other s id' caller (with_note now now body) here foreign

  -- No sequence of requests of other callers changes or removes an investigation, as long as none of
  -- them creates a case with the same id, for which the digest of a seed and a time must collide.
  pub serve_all-other :
      (rs : List (Text × ℕ × Request A T)) (s : InvestigationStore A T)
      → get id s.inner ≡ some inv
      → All IsForeign rs
      → get id (serve_all digest rs s).inner ≡ some inv
  unfolding serve_all
  serve_all-other [] s here foreign = here
  serve_all-other ((caller, now, r) ∷ rs) s here foreign =
      serve_all-other rs _ (serve-other caller now r s here foreign.0) foreign.1
