-- ===== src/Identity/Store.antt =====
-- `UserStore` of crates/agent/src/identity.rs. Each method is composed of its sections under a lock,
-- which are functions of their own; here they run one after the other. SHA-256, shown in hexadecimal
-- digits, is the parameter `sha`, and random bytes and the readings of the clock (in nanoseconds)
-- are arguments.
use hkgov_rethink.Prelude.{
  ℕ, zero, suc, ◌+◌, ◌*◌, ◌/◌, ◌%◌, Bool, true, false, not, ◌&&◌, ◌||◌, List, [], ◌∷◌, ◌++◌, map,
  Option, none, some, Text, text, text_key, Map, get, insert, values, retain, same, any, ltb, ◌==◌,
  take, trim, to_ascii_lowercase, if◌then◌else◌, u64_mod, length, insert_all,
}

pub record User : Type 0 where
  pub id : Text
  pub email : Text
  pub created_at : ℕ

pub record Token : Type 0 where
  pub token : Text
  pub email : Text
  pub expires_at : ℕ
  pub redeemed : Bool

pub record Session : Type 0 where
  pub session_token : Text
  pub user_id : Text
  pub created_at : ℕ
  pub expires_at : ℕ

pub record UserStore : Type 0 where
  pub users : Map Text User
  pub tokens : Map Text Token
  pub sessions : Map Text Session
  pub counter : ℕ
  pub issue_count : ℕ

pub record UserStoreSnapshot : Type 0 where
  pub users : List User
  pub sessions : List (Text × Session)

-- 15 minutes, and 30 days.
abbrev pub token_ttl : ℕ
token_ttl = 15 * 60 * 1_000_000_000

abbrev pub session_ttl : ℕ
session_ttl = 30 * 24 * 3600 * 1_000_000_000

abbrev pub reap_every_issues : ℕ
reap_every_issues = 16

unfoldable pub empty : UserStore
empty = record { users = []; tokens = []; sessions = []; counter = 0; issue_count = 0 }

-- The bytes of a number, lowest first.
abbrev pub le_bytes : ℕ → ℕ → Text
le_bytes zero n = []
le_bytes (suc k) n = n % 256 ∷ le_bytes k (n / 256)

-- `fetch_add(1, …)`
abbrev pub bump : ℕ → ℕ
bump n = (n + 1) % u64_mod

abbrev pub is_live_token : ℕ → Token → Bool
is_live_token now t = not t.redeemed && ltb now t.expires_at

abbrev pub is_live_session : ℕ → Session → Bool
is_live_session now s = ltb now s.expires_at

-- Sessions that are expired stay out.
abbrev pub insert_live : ℕ → Map Text Session → List (Text × Session) → Map Text Session
insert_live now m [] = m
insert_live now m ((k, x) ∷ es) =
    insert_live now (if is_live_session now x then insert k x m else m) es

module _ (sha : Text → Text) where
  unfoldable pub hash_session_token : Text → Text
  hash_session_token token = sha token

  -- The first 8 bytes of the digest are 16 digits.
  unfoldable pub user_id_for : Text → Text
  user_id_for email = text "u:" ++ take 16 (sha (to_ascii_lowercase (trim email)))

  unfoldable pub opaque_token : Text → Text → ℕ → Text → Text
  opaque_token bytes subject seq domain =
      sha (bytes ++ 0 ∷ subject ++ 0 ∷ le_bytes 8 seq ++ 0 ∷ domain)

  -- `maybe_reap_expired`: whether a sweep is spawned.
  unfoldable pub maybe_reap_expired : UserStore → UserStore × Bool
  maybe_reap_expired s =
      (record s { issue_count = bump s.issue_count }, s.issue_count % reap_every_issues == 0)

  -- `entry(user_id).or_insert(…)`
  unfoldable pub provision : Text → ℕ → UserStore → UserStore
  provision email now s =
      let id = user_id_for email in
      elim (get id s.users) [
        | some u ↦ s
        | none ↦ record s {
          users = insert id (record { id = id; email = email; created_at = now }) s.users;
        }
      ]

  unfoldable pub mint_token : Text → Text → ℕ → UserStore → UserStore × Token
  mint_token bytes email now s =
      let token = opaque_token bytes email s.counter (text "token") in
      let t : Token = record {
        token = token;
        email = email;
        expires_at = now + token_ttl;
        redeemed = false;
      } in
      (record s { counter = bump s.counter; tokens = insert token t s.tokens }, t)

  -- The token, and whether a sweep was spawned, which runs beside what follows.
  unfoldable pub issue_token : Text → Text → ℕ → ℕ → UserStore → UserStore × Token × Bool
  issue_token bytes email t u s =
      let (s', spawns) = maybe_reap_expired s in
      let (s'', token) = mint_token bytes email u (provision email t s') in (s'', token, spawns)

  -- The check of a token that was found, and its mark.
  unfoldable pub claim_found : Text → ℕ → UserStore → Option Token → UserStore × Option Text
  claim_found token now s none = (s, none)
  claim_found token now s (some t) =
      if t.redeemed then (s, none) else if ltb t.expires_at now then (s, none) else (
        record s { tokens = insert token (record t { redeemed = true }) s.tokens },
        some (user_id_for t.email),
      )

  unfoldable pub claim : Text → ℕ → UserStore → UserStore × Option Text
  unfolding claim_found
  claim token now s = claim_found token now s (get token s.tokens)

  unfoldable pub mint_session : Text → Text → ℕ → UserStore → UserStore × Session
  mint_session bytes user_id now s =
      let session_token = opaque_token bytes user_id s.counter (text "session") in
      let session : Session = record {
        session_token = session_token;
        user_id = user_id;
        created_at = now;
        expires_at = now + session_ttl;
      } in
      (
        record s {
          counter = bump s.counter;
          sessions = insert (hash_session_token session_token) session s.sessions;
        },
        session,
      )

  -- What follows the claim.
  unfoldable pub redeem_claimed : Text → ℕ → UserStore × Option Text → UserStore × Option Session
  redeem_claimed bytes now (s, none) = (s, none)
  redeem_claimed bytes now (s, some user_id) =
      let (s', session) = mint_session bytes user_id now s in (s', some session)

  unfoldable pub redeem_token : Text → Text → ℕ → ℕ → UserStore → UserStore × Option Session
  unfolding redeem_claimed
  redeem_token bytes token t u s = redeem_claimed bytes u (claim token t s)

  unfoldable pub user_of : UserStore → ℕ → Option Session → Option User
  user_of s now none = none
  user_of s now (some x) = if ltb x.expires_at now then none else get x.user_id s.users

  unfoldable pub lookup_session : UserStore → Text → ℕ → Option User
  unfolding user_of
  lookup_session s bearer now = user_of s now (get (hash_session_token bearer) s.sessions)

  unfoldable pub find : UserStore → Text → Option User
  find s id = get id s.users

  unfoldable pub get_by_email : UserStore → Text → Option User
  get_by_email s email = find s (user_id_for email)

  unfoldable pub count : UserStore → ℕ
  count s = length s.users

  -- The sections of a sweep: the two that reap, the two that collect, and the one that drops the
  -- users outside of what was collected.
  unfoldable pub reap_tokens : ℕ → UserStore → UserStore
  reap_tokens now s = record s { tokens = retain (λ k t. is_live_token now t) s.tokens }

  unfoldable pub reap_sessions : ℕ → UserStore → UserStore
  reap_sessions now s = record s { sessions = retain (λ k x. is_live_session now x) s.sessions }

  unfoldable pub live_token_users : UserStore → List Text
  live_token_users s = map (λ (t : Token). user_id_for t.email) (values s.tokens)

  unfoldable pub live_session_users : UserStore → List Text
  live_session_users s = map (λ (x : Session). x.user_id) (values s.sessions)

  unfoldable pub reap_users : List Text → List Text → UserStore → UserStore
  reap_users by_token by_session s = record s {
    users = retain (λ id u. any (same id) by_token || any (same id) by_session) s.users;
  }

  unfoldable pub sweep : ℕ → UserStore → UserStore
  unfolding reap_tokens reap_sessions reap_users live_token_users live_session_users
  sweep now s =
      let s' = reap_sessions now (reap_tokens now s) in
      reap_users (live_token_users s') (live_session_users s') s'

  unfoldable pub snapshot : UserStore → UserStoreSnapshot
  snapshot s = record {
    users = values s.users;
    sessions = map (λ (e : Text × Session). (e.0, record (e.1) { session_token = [] })) s.sessions;
  }

  unfoldable pub restore : ℕ → UserStore → UserStoreSnapshot → UserStore
  restore now s snap = record s {
    users = insert_all (λ u. u.id) s.users snap.users;
    sessions = insert_live now s.sessions snap.sessions;
  }
