-- ===== src/Access/SignIn.antt =====
-- A user who has logged in is served as that user, and nobody else is.
use hkgov_rethink.Prelude.{
  ℕ, ◌+◌, ◌≡◌, ◌≤◌, ◌<◌, refl, sym, ap, ◌∙◌, false, List, [], ◌∷◌, ◌++◌, Option, none, some, Text,
  text, text_key, trim, is_empty, Map, get, same_iff, All, arith,
}
use hkgov_rethink.Identity.Store.{
  User, Session, UserStore, empty, token_ttl, session_ttl, user_id_for, opaque_token, issue_token,
  mint_session, redeem_claimed, redeem_token, sweep,
}
use hkgov_rethink.Identity.Sections.{
  Section, counts, provisions, mints_token, act, act_all, claim_cases,
}
use hkgov_rethink.Identity.Login.{login_lem}
use hkgov_rethink.Identity.Restore.{act-IsValid, act_all-IsValid, empty-IsValid}
use hkgov_rethink.Investigations.Store.{InvestigationStore}
use hkgov_rethink.Investigations.Requests.{Request, serve}
use hkgov_rethink.Access.Session.{
  strip_prefix, bearer_token, require_principal, principal_id, as_caller, handle,
}

-- The digits of a digest are neither none nor white space.
abbrev pub IsDigits : (Text → Text) → Type 0
IsDigits sha = (m : Text) → (trim (sha m) ≡ sha m) × (is_empty (sha m) ≡ false)

found_own :
    (q : Text) (m : Map Text User) {u : User}
    → All (λ e. e.1.id ≡ e.0) m
    → get q m ≡ some u
    → u.id ≡ q
unfolding get
found_own q [] a e = cc
found_own q ((j, w) ∷ m) {u} a e = ground (arith, found_own q m {u = u} a.1, (same_iff q j).0)

abbrev token_in : Option Session → Text
token_in none = []
token_in (some x) = x.session_token

module _ (sha : Text → Text) where
  -- A session's token is a digest.
  redeem_token-digest :
      (bytes token : Text) (t u : ℕ) (s : UserStore) (x : Session)
      → (redeem_token sha bytes token t u s).1 ≡ some x
      → (m : Text) × (x.session_token ≡ sha m)
  unfolding redeem_token redeem_claimed mint_session opaque_token
  redeem_token-digest bytes token t u s x =
      claim_cases sha
        (λ r. (redeem_claimed sha bytes u r).1 ≡ some x → (m : Text) × (x.session_token ≡ sha m))
        token t s (λ e. cc) (λ y found new e. (_, sym (ap token_in e)))

  -- The header with a session's token is read as that token.
  bearer_token-digest :
      IsDigits sha → (m : Text) → bearer_token (some (text "Bearer " ++ sha m)) ≡ some (sha m)
  unfolding bearer_token strip_prefix
  bearer_token-digest digits m = rw ((digits m).0, (digits m).1)

  issue_token-own :
      (bytes email : Text) (t u : ℕ) (xs : List Section)
      → All (λ e. e.1.id ≡ e.0) (issue_token sha bytes email t u (act_all sha xs empty)).0.users
  unfolding issue_token act
  issue_token-own bytes email t u xs =
      let s = act_all sha xs empty in
      let v = act_all-IsValid sha xs empty (empty-IsValid sha) in
      let v1 = act-IsValid sha counts s v in
      let v2 = act-IsValid sha (provisions email t) (act sha counts s) v1 in
      (act-IsValid sha (mints_token bytes email u) (act sha (provisions email t) (act sha counts s))
        v2).own

  -- The whole way in: from any state of the identity tier, a user who asks for a token, redeems it
  -- within its 15 minutes and sends the session's token in the header within its 30 days is served as
  -- the user of that email, with whole sweeps in between that run before the token, and the session,
  -- have expired. (The digits of a digest are not white space.)
  pub handle-login :
      {A T : Type 0} (digest : Text → ℕ → Text) (bytes bytes' email : Text)
      (t u sweep1 r r' sweep2 now : ℕ) (xs : List Section) (q : Request A T)
      (cases : InvestigationStore A T)
      → IsDigits sha
      → sweep1 < u + token_ttl
      → r ≤ u + token_ttl
      → sweep2 < r' + session_ttl
      → now ≤ r' + session_ttl
      → let (s1, token, spawns) = issue_token sha bytes email t u (act_all sha xs empty) in
        let (s2, o) = redeem_token sha bytes' token.token r r' (sweep sha sweep1 s1) in
        (x : Session) × (o ≡ some x)
        × (handle sha digest
              (sweep sha sweep2 s2)
              (some (text "Bearer " ++ x.session_token))
              now
              q
              cases
            ≡ serve digest (user_id_for sha email) now q cases)
  unfolding handle principal_id require_principal as_caller
  handle-login digest bytes bytes' email t u sweep1 r r' sweep2 now xs q cases digits early timely
        early' timely' =
      let s = act_all sha xs empty in
      let (x, user, redeemed, provisioned, looked) =
        login_lem sha bytes bytes' email t u sweep1 r r' sweep2 now s early timely early' timely' in
      let (s1, token, spawns) = issue_token sha bytes email t u s in
      let (m, digested) =
        redeem_token-digest bytes' token.token r r' (sweep sha sweep1 s1) x redeemed in
      let own =
        found_own (user_id_for sha email) s1.users {u = user} (issue_token-own bytes email t u xs)
          provisioned in
      let read : bearer_token (some (text "Bearer " ++ x.session_token)) ≡ some x.session_token =
        ap (λ w. bearer_token (some (text "Bearer " ++ w))) digested
        ∙ bearer_token-digest digits m
        ∙ ap some (sym digested) in
      (x, redeemed, rw (read, looked, require_principal, as_caller, own) refl)
