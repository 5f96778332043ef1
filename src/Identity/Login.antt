-- ===== src/Identity/Login.antt =====
-- A login through `UserStore` (crates/agent/src/identity.rs), with sweeps between its steps: what a
-- sweep that runs as a whole keeps, and what one loses that a login runs into.
use hkgov_rethink.Prelude.{
  ℕ, ◌+◌, ◌≡◌, ◌≤◌, ◌<◌, refl, ap, ◌∙◌, true, false, [], ◌∷◌, map, Option, none, some, Text,
  text_key, Map, get, insert, values, same, same_refl, any, get-insert_self, get-retain_kept,
  get-retain_never, ltb, arith, Option-cases, inl, inr,
}
use hkgov_rethink.Identity.Store.{
  User, Token, Session, UserStore, token_ttl, session_ttl, is_live_token, is_live_session,
  hash_session_token, user_id_for, maybe_reap_expired, provision, mint_token, issue_token, claim,
  claim_found, mint_session, redeem_claimed, redeem_token, user_of, lookup_session, reap_tokens,
  reap_sessions, live_token_users, live_session_users, reap_users, sweep,
}

-- What a value gives is among what all values give.
any-values :
    {V : Type 0} (f : V → Text) (q : Text) (m : Map Text V) {v : V}
    → get q m ≡ some v
    → any (same (f v)) (map f (values m)) ≡ true
unfolding get
any-values f q [] e = cc
any-values f q ((j, w) ∷ m) {v} e = ground (arith, any-values f q m {v = v}, same_refl (f v))

module _ (sha : Text → Text) where
  provision_found :
      (email : Text) (now : ℕ) (s : UserStore)
      → (u : User) × (get (user_id_for sha email) (provision sha email now s).users ≡ some u)
  unfolding provision
  provision_found email now s = elim (Option-cases (get (user_id_for sha email) s.users)) [
    | inl e ↦
        let id = user_id_for sha email in
        let u : User = record { id = id; email = email; created_at = now } in
        (u, rw (e, provision) (get-insert_self id u s.users))
    | inr (u, e) ↦ (u, rw (e, provision) e)
  ]

  -- A whole sweep keeps a live token and its user.
  sweep-token :
      (now : ℕ) (s : UserStore) (token : Text) (t : Token) (u : User)
      → get token s.tokens ≡ some t
      → is_live_token now t ≡ true
      → get (user_id_for sha t.email) s.users ≡ some u
      → (get token (sweep sha now s).tokens ≡ some t)
        × (get (user_id_for sha t.email) (sweep sha now s).users ≡ some u)
  unfolding sweep reap_tokens reap_sessions reap_users live_token_users live_session_users
  sweep-token now s token t u found live user =
      let kept = get-retain_kept (λ k x. is_live_token now x) token s.tokens found live in
      let among = any-values (λ (x : Token). user_id_for sha x.email) token _ {v = t} kept in
      (kept, get-retain_kept _ (user_id_for sha t.email) s.users user (rw among))

  -- And a live session and its user.
  sweep-session :
      (now : ℕ) (s : UserStore) (key : Text) (x : Session) (u : User)
      → get key s.sessions ≡ some x
      → is_live_session now x ≡ true
      → get x.user_id s.users ≡ some u
      → (get key (sweep sha now s).sessions ≡ some x)
        × (get x.user_id (sweep sha now s).users ≡ some u)
  unfolding sweep reap_tokens reap_sessions reap_users live_token_users live_session_users
  sweep-session now s key x u found live user =
      let kept = get-retain_kept (λ k y. is_live_session now y) key s.sessions found live in
      let among = any-values (λ (y : Session). y.user_id) key _ {v = x} kept in
      (kept, get-retain_kept _ x.user_id s.users user (ground (arith, among)))

  -- The store after the claim of a token.
  abbrev claimed_store : Text → Token → UserStore → UserStore
  claimed_store token t s = record s {
    tokens = insert token (record t { redeemed = true }) s.tokens;
  }

  claim_lem :
      (token : Text) (now : ℕ) (s : UserStore) (t : Token)
      → get token s.tokens ≡ some t
      → t.redeemed ≡ false
      → now ≤ t.expires_at
      → claim sha token now s ≡ (claimed_store token t s, some (user_id_for sha t.email))
  unfolding claim claim_found
  claim_lem token now s t found unused timely =
      let late : ltb t.expires_at now ≡ false = ground arith in
      rw (found, claim_found, unused, late)

  -- The session that a claim gives, and the store with it.
  abbrev session_for : Text → ℕ → UserStore → Token → Session
  session_for bytes u s t = (mint_session sha bytes (user_id_for sha t.email) u s).1

  redeem_lem :
      (bytes token : Text) (now u : ℕ) (s : UserStore) (t : Token)
      → get token s.tokens ≡ some t
      → t.redeemed ≡ false
      → now ≤ t.expires_at
      → redeem_token sha bytes token now u s ≡ (
        (mint_session sha bytes (user_id_for sha t.email) u (claimed_store token t s)).0,
        some (session_for bytes u (claimed_store token t s) t),
      )
  unfolding redeem_token redeem_claimed
  redeem_lem bytes token now u s t found unused timely =
      ap (redeem_claimed sha bytes u) (claim_lem token now s t found unused timely)

  mint_session_found :
      (bytes id : Text) (u : ℕ) (s : UserStore)
      → let (s', x) = mint_session sha bytes id u s in
        (get (hash_session_token sha x.session_token) s'.sessions ≡ some x)
        × (s'.users ≡ s.users)
        × (x.user_id ≡ id)
        × (x.expires_at ≡ u + session_ttl)
  unfolding mint_session
  mint_session_found bytes id u s = (get-insert_self _ _ s.sessions, refl, refl, refl)

  lookup_live :
      (s : UserStore) (x : Session) (now : ℕ)
      → get (hash_session_token sha x.session_token) s.sessions ≡ some x
      → now ≤ x.expires_at
      → lookup_session sha s x.session_token now ≡ get x.user_id s.users
  unfolding lookup_session
  lookup_live s x now found timely =
      let late : ltb x.expires_at now ≡ false = ground arith in rw (found, user_of, late)

  lookup_nobody :
      (s : UserStore) (x : Session) (now : ℕ)
      → get (hash_session_token sha x.session_token) s.sessions ≡ some x
      → get x.user_id s.users ≡ none
      → lookup_session sha s x.session_token now ≡ none
  unfolding lookup_session
  lookup_nobody s x now found gone = rw (found, user_of, gone) (ground arith)

  -- A login, with a whole sweep between its steps and another after it, ends in a session that is
  -- the user's: the token that is issued for an email is redeemed within its 15 minutes, the
  -- session is looked up within its 30 days, and the sweeps run before the token, and the
  -- session, have expired. The user is the one under the email's id since the token was issued.
  pub login_lem :
      (bytes bytes' email : Text) (t u sweep1 r r' sweep2 now : ℕ) (s : UserStore)
      → sweep1 < u + token_ttl
      → r ≤ u + token_ttl
      → sweep2 < r' + session_ttl
      → now ≤ r' + session_ttl
      → let (s1, token, spawns) = issue_token sha bytes email t u s in
        let (s2, o) = redeem_token sha bytes' token.token r r' (sweep sha sweep1 s1) in
        (x : Session) × (user : User) × (o ≡ some x)
        × (get (user_id_for sha email) s1.users ≡ some user)
        × (lookup_session sha (sweep sha sweep2 s2) x.session_token now ≡ some user)
  unfolding issue_token mint_token maybe_reap_expired lookup_session
  login_lem bytes bytes' email t u sweep1 r r' sweep2 now s early timely early' timely' =
      let s0 = (maybe_reap_expired sha s).0 in
      let (user, provisioned) = provision_found email t s0 in
      let (s1, token, spawns) = issue_token sha bytes email t u s in
      let (kept, user1) =
        sweep-token sweep1 s1 token.token token user (get-insert_self token.token token _)
          (ground arith) provisioned in
      let swept = sweep sha sweep1 s1 in
      let redeemed = redeem_lem bytes' token.token r r' swept token kept refl timely in
      let claimed = claimed_store token.token token swept in
      let (s2, x) = mint_session sha bytes' (user_id_for sha email) r' claimed in
      let (found, users, owner, expiry) =
        mint_session_found bytes' (user_id_for sha email) r' claimed in
      let (kept', user2) =
        sweep-session sweep2 s2 (hash_session_token sha x.session_token) x user found
          (ground (arith, expiry))
          (ap (λ i. get i s2.users) owner ∙ ap (get (user_id_for sha email)) users ∙ user1) in
      (
        x,
        user,
        ap (λ (q : UserStore × Option Session). q.1) redeemed,
        provisioned,
        rw redeemed (lookup_live (sweep sha sweep2 s2) x now kept' (omega (arith, expiry)) ∙ user2),
      )

  -- A sweep that is not alone: it has collected the users of the live tokens and sessions when a
  -- token is issued for a user that has neither, and drops the user after that. The token can still
  -- be redeemed within its 15 minutes, for a session that stands for nobody: its user is not in the
  -- store, and a look-up of the session finds no user, at any time.
  pub login_loses_user :
      (bytes bytes' email : Text) (t u r r' now : ℕ) (s : UserStore)
      → any (same (user_id_for sha email)) (live_token_users sha s) ≡ false
      → any (same (user_id_for sha email)) (live_session_users sha s) ≡ false
      → r ≤ u + token_ttl
      → let (s1, token) = mint_token sha bytes email u (provision sha email t s) in
        let s2 = reap_users sha (live_token_users sha s) (live_session_users sha s) s1 in
        let (s3, o) = redeem_token sha bytes' token.token r r' s2 in
        (x : Session) × (o ≡ some x)
        × (get x.user_id s3.users ≡ none)
        × (lookup_session sha s3 x.session_token now ≡ none)
  unfolding mint_token reap_users lookup_session
  login_loses_user bytes bytes' email t u r r' now s no_token no_session timely =
      let (s1, token) = mint_token sha bytes email u (provision sha email t s) in
      let s2 = reap_users sha (live_token_users sha s) (live_session_users sha s) s1 in
      let gone : get (user_id_for sha email) s2.users ≡ none =
        get-retain_never _ (user_id_for sha email) s1.users (λ v. rw (no_token, no_session)) in
      let redeemed =
        redeem_lem bytes' token.token r r' s2 token (get-insert_self token.token token _) refl
          timely in
      let (s3, x) =
        mint_session sha bytes' (user_id_for sha email) r' (claimed_store token.token token s2) in
      let (found, users, owner, expiry) =
        mint_session_found bytes' (user_id_for sha email) r' (claimed_store token.token token s2) in
      let nobody : get x.user_id s3.users ≡ none =
        ap (λ i. get i s3.users) owner ∙ ap (get (user_id_for sha email)) users ∙ gone in
      (
        x,
        ap (λ (q : UserStore × Option Session). q.1) redeemed,
        rw redeemed nobody,
        rw redeemed (lookup_nobody s3 x now found nobody),
      )
