-- ===== src/Investigations/Secrecy.antt =====
-- What a caller learns of another's investigation from the replies of the handlers of
-- crates/api/src/routes/investigations.rs.
use hkgov_rethink.Prelude.{
  ℕ, ◌≡◌, refl, ap, Bool, false, [], ◌∷◌, Option, none, some, Text, text_key, Map, get, remove,
  values, same, same_iff, get-remove, select, IsSorted, Above-get, remove_absent, arith, Result, ok,
  err,
}
use hkgov_rethink.Investigations.Store.{
  Investigation, InvestigationStore, owned_by, with_step, with_note, change, take_out, delete_owned,
  append_step_owned, add_note_owned, create, list_owned, get_owned,
}
use hkgov_rethink.Investigations.Requests.{
  Request, creates, lists, reads, deletes, appends, notes, serve, new_step, parse_source,
  parse_kind, found_or, open_case, append, maybe, deleted, CreateInvestigationRequest,
  AppendStepRequest,
}

-- Without an entry that a selection leaves out anyway, it is the same.
select-remove :
    {V : Type 0} (p : V → Bool) (q : Text) (m : Map Text V) {v : V}
    → IsSorted m
    → get q m ≡ some v
    → p v ≡ false
    → select p (values (remove q m)) ≡ select p (values m)
unfolding get remove
select-remove p q [] s e out = refl
select-remove p q ((j, u) ∷ m) {v} s e out = ground (
  arith,
  select-remove p q m {v = v} s.1,
  remove_absent q m,
  Above-get j m s.0,
  text_key.cmp_eq q j,
)

module _ {A T : Type 0} where
  -- The store without an investigation.
  abbrev pub without : Text → InvestigationStore A T → InvestigationStore A T
  without id s = record { inner = remove id s.inner }

  owned_hidden :
      (id id' caller : Text) (inv : Investigation A T) (s : InvestigationStore A T)
      → get id s.inner ≡ some inv
      → same inv.owner caller ≡ false
      → owned_by caller (get id' s.inner) ≡ owned_by caller (get id' (remove id s.inner))
  owned_hidden id id' caller inv s here foreign =
      ground (arith, get-remove id id' s.inner, (same_iff id' id).0, here)

  change_reply :
      (s s' : InvestigationStore A T) (id : Text) (f : Investigation A T → Investigation A T)
      (o : Option (Investigation A T))
      → (found_or (change s id f o)).1 ≡ (found_or (change s' id f o)).1
  unfolding found_or change
  change_reply s s' id f none = refl
  change_reply s s' id f (some i) = refl

  take_out_reply :
      (s s' : InvestigationStore A T) (id : Text) (o : Option (Investigation A T))
      → (take_out s id o).1 ≡ (take_out s' id o).1
  unfolding take_out
  take_out_reply s s' id none = refl
  take_out_reply s s' id (some i) = refl

  open_case_reply :
      (digest : Text → ℕ → Text) (caller : Text) (now : ℕ) (s s' : InvestigationStore A T)
      (req : CreateInvestigationRequest) (r : Result _ _)
      → (open_case digest caller now req s r).1 ≡ (open_case digest caller now req s' r).1
  unfolding open_case create
  open_case_reply digest caller now s s' req (ok d) = refl
  open_case_reply digest caller now s s' req (err e) = refl

  append_reply :
      (caller : Text) (now : ℕ) (id id' : Text) (inv : Investigation A T)
      (s : InvestigationStore A T) (req : AppendStepRequest A T) (r : Result _ _)
      → get id s.inner ≡ some inv
      → same inv.owner caller ≡ false
      → (append caller now id' req s r).1 ≡ (append caller now id' req (without id s) r).1
  unfolding append append_step_owned
  append_reply caller now id id' inv s req (err e) here foreign = refl
  append_reply caller now id id' inv s req (ok kind) here foreign =
      rw (owned_hidden id id' caller inv s here foreign)
        (change_reply s (without id s) id' (with_step now now (new_step now kind req)) _)

  -- In a store with a sorted map, the reply to any request of a caller is the same whether another's
  -- investigation is there or not: a list leaves it out, and reading, deleting, or adding to it is answered as if its id were
  -- unknown. So nobody learns that an id exists which is not theirs.
  pub serve_hides :
      (digest : Text → ℕ → Text) (caller : Text) (now : ℕ) (r : Request A T)
      (s : InvestigationStore A T) (id : Text) (inv : Investigation A T)
      → IsSorted s.inner
      → get id s.inner ≡ some inv
      → same inv.owner caller ≡ false
      → (serve digest caller now r s).1 ≡ (serve digest caller now r (without id s)).1
  unfolding serve delete_owned add_note_owned list_owned get_owned
  serve_hides digest caller now (creates req) s id inv sorted here foreign =
      open_case_reply digest caller now s (without id s) req (parse_source req.seed_source)
  serve_hides digest caller now (lists limit) s id inv sorted here foreign = rw (
      select-remove (λ (i : Investigation A T). same i.owner caller) id s.inner {v = inv} sorted
        here foreign)
  serve_hides digest caller now (reads id') s id inv sorted here foreign =
      ap maybe (owned_hidden id id' caller inv s here foreign)
  serve_hides digest caller now (deletes id') s id inv sorted here foreign =
      rw (owned_hidden id id' caller inv s here foreign)
        (ap deleted (take_out_reply s (without id s) id' _))
  serve_hides digest caller now (appends id' req) s id inv sorted here foreign =
      append_reply caller now id id' inv s req (parse_kind req.kind) here foreign
  serve_hides digest caller now (notes id' body) s id inv sorted here foreign =
      rw (owned_hidden id id' caller inv s here foreign)
        (change_reply s (without id s) id' (with_note now now body) _)
