-- ===== src/Identity/Restore.antt =====
-- `snapshot` and `restore` of `UserStore` (crates/agent/src/identity.rs).
use hkgov_rethink.Prelude.{
  ℕ, ◌≡◌, ◌<◌, refl, ap, ◌∙◌, List, [], ◌∷◌, map, Option, none, some, Text, text_key, Map, get,
  insert, same_iff, get-insert, IsSorted, insert-IsSorted, retain-IsSorted, Above-get, All,
  All-insert, All-retain, insert_all-values, arith, Option-cases, inl, inr, if◌then◌else◌,
}
use hkgov_rethink.Identity.Store.{
  User, Session, UserStore, empty, is_live_session, hash_session_token, user_id_for,
  maybe_reap_expired, provision, mint_token, mint_session, user_of, lookup_session, reap_tokens,
  reap_sessions, reap_users, snapshot, restore, insert_live,
}
use hkgov_rethink.Identity.Sections.{
  Section, counts, provisions, mints_token, claims, mints_session, reaps_tokens, reaps_sessions,
  reaps_users, act, act_all, claim_cases,
}

-- Users and sessions are sorted, and each user stands under its id.
pub record IsValid (s : UserStore) : Type 0 where
  pub users_sorted : IsSorted s.users
  pub own : All (λ e. e.1.id ≡ e.0) s.users
  pub sessions_sorted : IsSorted s.sessions

abbrev cleared : Session → Session
cleared x = record x { session_token = [] }

-- What is found in the restored sessions, from what is found in the old ones and in the new
-- store's before.
abbrev kept_of : ℕ → Option Session → Option Session → Option Session
kept_of now before none = before
kept_of now before (some x) = if is_live_session now x then some (cleared x) else before

get-insert_live :
    (now : ℕ) (q : Text) (acc m : Map Text Session)
    → IsSorted m
    → get q (insert_live now acc (map (λ (e : Text × Session). (e.0, cleared e.1)) m))
      ≡ kept_of now (get q acc) (get q m)
unfolding get
get-insert_live now q acc [] sorted = refl
get-insert_live now q acc ((j, x) ∷ m) sorted = ground (
  arith,
  get-insert_live now q acc m sorted.1,
  get-insert_live now q (insert j (cleared x) acc) m sorted.1,
  get-insert j q (cleared x) acc,
  Above-get j m sorted.0,
  (same_iff q j).0,
)

module _ (sha : Text → Text) where
  provision-IsValid :
      (email : Text) (now : ℕ) (s : UserStore) → IsValid s → IsValid (provision sha email now s)
  unfolding provision
  provision-IsValid email now s v = elim (Option-cases (get (user_id_for sha email) s.users)) [
    | inr (u, e) ↦ rw (e, provision) v
    | inl e ↦
        rw (e, provision)
          (record {
            users_sorted = insert-IsSorted _ _ s.users v.users_sorted;
            own = All-insert (λ (e : Text × User). e.1.id ≡ e.0) _ _ s.users refl v.own;
            sessions_sorted = v.sessions_sorted;
          })
  ]

  pub act-IsValid : (x : Section) (s : UserStore) → IsValid s → IsValid (act sha x s)
  unfolding act maybe_reap_expired mint_token mint_session reap_tokens reap_sessions reap_users
  act-IsValid counts s v = record {
    users_sorted = v.users_sorted;
    own = v.own;
    sessions_sorted = v.sessions_sorted;
  }
  act-IsValid (provisions email now) s v = provision-IsValid email now s v
  act-IsValid (mints_token bytes email now) s v = record {
    users_sorted = v.users_sorted;
    own = v.own;
    sessions_sorted = v.sessions_sorted;
  }
  act-IsValid (claims token now) s v =
      claim_cases sha (λ r. IsValid r.0) token now s v
        (λ t e new. record {
          users_sorted = v.users_sorted;
          own = v.own;
          sessions_sorted = v.sessions_sorted;
        })
  act-IsValid (mints_session bytes user_id now) s v = record {
    users_sorted = v.users_sorted;
    own = v.own;
    sessions_sorted = insert-IsSorted _ _ s.sessions v.sessions_sorted;
  }
  act-IsValid (reaps_tokens now) s v = record {
    users_sorted = v.users_sorted;
    own = v.own;
    sessions_sorted = v.sessions_sorted;
  }
  act-IsValid (reaps_sessions now) s v = record {
    users_sorted = v.users_sorted;
    own = v.own;
    sessions_sorted = retain-IsSorted _ s.sessions v.sessions_sorted;
  }
  act-IsValid (reaps_users by_token by_session) s v = record {
    users_sorted = retain-IsSorted _ s.users v.users_sorted;
    own = All-retain (λ (e : Text × User). e.1.id ≡ e.0) _ s.users v.own;
    sessions_sorted = v.sessions_sorted;
  }

  pub act_all-IsValid : (xs : List Section) (s : UserStore) → IsValid s → IsValid (act_all sha xs s)
  unfolding act_all
  act_all-IsValid [] s v = v
  act_all-IsValid (x ∷ xs) s v = act_all-IsValid xs (act sha x s) (act-IsValid x s v)

  pub empty-IsValid : IsValid empty
  unfolding empty
  empty-IsValid = record { users_sorted = tt; own = tt; sessions_sorted = tt }

  -- A look-up among sessions that were restored at a time before it.
  user_of-kept_of :
      (s s' : UserStore) (t now : ℕ) (o : Option Session)
      → t < now
      → s'.users ≡ s.users
      → user_of sha s' now (kept_of t none o) ≡ user_of sha s now o
  unfolding user_of
  user_of-kept_of s s' t now none late e = refl
  user_of-kept_of s s' t now (some x) late e = ground (arith, e)

  cleared-All :
      (m : Map Text Session)
      → All
          (λ (e : Text × Session). e.1.session_token ≡ [])
          (map (λ (e : Text × Session). (e.0, cleared e.1)) m)
  cleared-All [] = tt
  cleared-All (e ∷ m) = (refl, cleared-All m)

  -- For every store that is reached by sections of any callers and sweeps: a snapshot holds no
  -- session token in the clear, and a new store that is restored from it at a time `t` answers
  -- every look-up of a session, at any later time, as the store itself would have.
  pub lookup_session-restore :
      (xs : List Section) (t now : ℕ) (bearer : Text)
      → t < now
      → All
          (λ (e : Text × Session). e.1.session_token ≡ [])
          (snapshot sha (act_all sha xs empty)).sessions
        × (lookup_session sha (restore sha t empty (snapshot sha (act_all sha xs empty))) bearer now
            ≡ lookup_session sha (act_all sha xs empty) bearer now)
  unfolding lookup_session restore snapshot empty get
  lookup_session-restore xs t now bearer late =
      let s = act_all sha xs empty in
      let v = act_all-IsValid xs empty empty-IsValid in
      let found =
        get-insert_live t (hash_session_token sha bearer) [] s.sessions v.sessions_sorted in
      let users = insert_all-values (λ (u : User). u.id) s.users v.own v.users_sorted in
      (
        cleared-All s.sessions,
        ap (user_of sha (restore sha t empty (snapshot sha s)) now) found
            ∙ user_of-kept_of s (restore sha t empty (snapshot sha s)) t now
                (get (hash_session_token sha bearer) s.sessions) late users,
      )
