-- ===== src/Signals/Isolation.antt =====
-- What one caller of the handlers of crates/api/src/routes/signals.rs can do to the signals of
-- another.
use hkgov_rethink.Prelude.{
  ℕ, ◌≡◌, refl, sym, ◌∙◌, false, List, [], ◌∷◌, Option, none, some, Text, text_key, get, same,
  same_iff, All-insert, All-remove, All-get_entry, get-insert, get-remove, All, Bool-cases, arith,
  inl, inr,
}
use hkgov_rethink.Scheduler.Targets.{ScanTarget}
use hkgov_rethink.Signals.Store.{
  Signal, SignalStore, owned_by, create, patched, patch_in, take_out, update_owned, delete_owned,
}
use hkgov_rethink.Signals.Id.{signal_id}
use hkgov_rethink.Signals.Requests.{
  Request, creates, lists, reads, deletes, updates, new_signal, found_or, serve, serve_all,
}
use hkgov_rethink.Signals.Unique.{signal_id-owner}

-- What the owner's gate lets through was there, and is the owner's.
owned_cases :
    (P : Option Signal → Type 0) (owner : Text) (o : Option Signal)
    → P none
    → ((g : Signal) → o ≡ some g → g.owner ≡ owner → P (some g))
    → P (owned_by owner o)
owned_cases P owner none absent found = absent
owned_cases P owner (some g) absent found = elim (Bool-cases (same g.owner owner)) [
  | inl e ↦ rw e (found g refl ((same_iff g.owner owner).0 e))
  | inr e ↦ rw e absent
]

module _ (sip : Text → ℕ) where
  -- The signal holds the id that it is stored under, which is an id of its owner.
  abbrev pub IsOwn : Text × Signal → Type 0
  IsOwn (k, g) = (g.id ≡ k) × ((t : ScanTarget) × (k ≡ signal_id sip g.owner t))

  abbrev pub IsOwned : SignalStore → Type 0
  IsOwned s = All IsOwn s.inner

  serve-IsOwned :
      (caller : Text) (now : ℕ) (r : Request) (s : SignalStore)
      → IsOwned s
      → IsOwned (serve sip caller now r s).0
  unfolding serve create new_signal update_owned patch_in patched delete_owned take_out
  serve-IsOwned caller now (creates req) s v =
      All-insert IsOwn _ _ s.inner (refl, (req.compiled, refl)) v
  serve-IsOwned caller now (lists limit) s v = v
  serve-IsOwned caller now (reads id) s v = v
  serve-IsOwned caller now (deletes id) s v =
      owned_cases (λ o. IsOwned (take_out s id o).0) caller (get id s.inner) v
        (λ g e mine. All-remove IsOwn id s.inner v)
  serve-IsOwned caller now (updates id patch) s v =
      owned_cases (λ o. IsOwned (found_or (patch_in s id patch now o)).0) caller (get id s.inner) v
        (λ g e mine. All-insert IsOwn id _ s.inner (All-get_entry IsOwn id s.inner g v e) v)

  -- Every request keeps the signals under the ids that they hold, which are ids of their owners.
  pub serve_all-IsOwned :
      (rs : List (Text × (ℕ × Request))) (s : SignalStore)
      → IsOwned s
      → IsOwned (serve_all sip rs s)
  unfolding serve_all
  serve_all-IsOwned [] s v = v
  serve_all-IsOwned ((caller, (now, r)) ∷ rs) s v =
      serve_all-IsOwned rs (serve sip caller now r s).0 (serve-IsOwned caller now r s v)

  module _ (id : Text) (g : Signal) where
    abbrev pub IsForeign : Text × (ℕ × Request) → Type 0
    IsForeign (caller, r) = same g.owner caller ≡ false

    other_id :
        (caller : Text) (t u : ScanTarget)
        → id ≡ signal_id sip g.owner u
        → same g.owner caller ≡ false
        → same id (signal_id sip caller t) ≡ false
    other_id caller t u own foreign = elim (Bool-cases (same id (signal_id sip caller t))) [
      | inl e ↦
          let owner =
            signal_id-owner sip g.owner caller u t
              (sym own ∙ (same_iff id (signal_id sip caller t)).0 e) in
          ground (arith, (same_iff g.owner caller).1 owner)
      | inr e ↦ e
    ]

    -- A signal that is the caller's is at another id.
    not_here :
        (id' caller : Text) (other : Signal) (s : SignalStore)
        → get id s.inner ≡ some g
        → same g.owner caller ≡ false
        → get id' s.inner ≡ some other
        → other.owner ≡ caller
        → same id id' ≡ false
    not_here id' caller other s here foreign e mine =
        ground (arith, (same_iff id id').0, (same_iff g.owner caller).1, here, e, mine)

    serve-other :
        (caller : Text) (now : ℕ) (r : Request) (s : SignalStore) (u : ScanTarget)
        → id ≡ signal_id sip g.owner u
        → get id s.inner ≡ some g
        → same g.owner caller ≡ false
        → get id (serve sip caller now r s).0.inner ≡ some g
    unfolding serve create new_signal update_owned patch_in delete_owned take_out
    serve-other caller now (creates req) s u own here foreign =
        rw
          (
            get-insert (signal_id sip caller req.compiled) id (new_signal sip caller now req)
                s.inner,
            other_id caller req.compiled u own foreign,
          )
          here
    serve-other caller now (lists limit) s u own here foreign = here
    serve-other caller now (reads id') s u own here foreign = here
    serve-other caller now (deletes id') s u own here foreign =
        owned_cases (λ o. get id (take_out s id' o).0.inner ≡ some g) caller (get id' s.inner) here
          (λ other e mine.
            rw (get-remove id' id s.inner, not_here id' caller other s here foreign e mine) here)
    serve-other caller now (updates id' patch) s u own here foreign =
        owned_cases (λ o. get id (found_or (patch_in s id' patch now o)).0.inner ≡ some g) caller
          (get id' s.inner) here
          (λ other e mine.
            rw
              (
                get-insert id' id (patched now patch other) s.inner,
                not_here id' caller other s here foreign e mine,
              )
              here)

    serves-other :
        (rs : List (Text × (ℕ × Request))) (s : SignalStore) (u : ScanTarget)
        → id ≡ signal_id sip g.owner u
        → get id s.inner ≡ some g
        → All IsForeign rs
        → get id (serve_all sip rs s).inner ≡ some g
    unfolding serve_all
    serves-other [] s u own here foreign = here
    serves-other ((caller, (now, r)) ∷ rs) s u own here foreign =
        serves-other rs _ u own (serve-other caller now r s u own here foreign.0) foreign.1

    -- Whatever requests other callers make of a valid store, a creation of the same signal included,
    -- a signal stays as it is: it is neither changed, nor removed, nor overwritten. No assumption on
    -- the hash is needed, since the owner is a part of the id.
    pub serve_all-foreign :
        (rs : List (Text × (ℕ × Request))) (s : SignalStore)
        → IsOwned s
        → get id s.inner ≡ some g
        → All IsForeign rs
        → get id (serve_all sip rs s).inner ≡ some g
    serve_all-foreign rs s v here foreign =
        let (t, own) = (All-get_entry IsOwn id s.inner g v here).1 in
        serves-other rs s t own here foreign
