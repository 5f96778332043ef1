-- ===== src/Identity/Examples.antt =====
-- Witnesses and tests of the identity tier, with a digest that is the text itself.
use hkgov_rethink.Prelude.{
  ◌≡◌, refl, false, List, [], ◌∷◌, none, some, Text, text, text_key, get, trim, All, arith,
}
use hkgov_rethink.Identity.Store.{
  User, Token, Session, UserStore, empty, user_id_for, issue_token, redeem_token, provision,
  mint_token, reap_users, live_token_users, live_session_users, sweep, lookup_session, claim,
  snapshot, restore,
}
use hkgov_rethink.Identity.Sections.{
  Section, provisions, claims, mints_session, reaps_tokens, act_all, claim_once,
}
use hkgov_rethink.Identity.Login.{login_lem, login_loses_user}
use hkgov_rethink.Identity.Restore.{lookup_session-restore}

abbrev sha : Text → Text
sha s = s

trim_spaces : trim (text "  a b ") ≡ text "a b"
unfolding trim
trim_spaces = refl

abbrev token : Token
token = record { token = text "t1"; email = text "a@b.c"; expires_at = 900; redeemed = false }

abbrev pending : UserStore
pending = record {
  users = [];
  tokens = (text "t1", token) ∷ [];
  sessions = [];
  counter = 1;
  issue_count = 1;
}

abbrev racing : List Section
racing =
    claims (text "t1") 501
    ∷ reaps_tokens 502
    ∷ provisions (text "x@y.z") 503
    ∷ mints_session (text "r") (text "u:a@b.c") 504
    ∷ []

claim_once_example :
    (claim sha (text "t1") 600 (act_all sha racing (claim sha (text "t1") 500 pending).0)).1 ≡ none
unfolding claim get user_id_for trim
claim_once_example =
    claim_once sha (text "t1") racing pending 500 600 (text "u:a@b.c") (tt, tt) refl
      (tt, (tt, (tt, (tt, tt))))

login_lem_example :
    let (s1, token, spawns) = issue_token sha (text "r1") (text "a@b.c") 10 20 empty in
    let (s2, o) = redeem_token sha (text "r2") token.token 40 50 (sweep sha 30 s1) in
    (x : Session) × (user : User) × (o ≡ some x)
    × (get (user_id_for sha (text "a@b.c")) s1.users ≡ some user)
    × (lookup_session sha (sweep sha 60 s2) x.session_token 70 ≡ some user)
login_lem_example =
    login_lem sha (text "r1") (text "r2") (text "a@b.c") 10 20 30 40 50 60 70 empty (omega arith)
      (omega arith) (omega arith) (omega arith)

login_loses_user_example :
    let (s1, token) =
      mint_token sha (text "r1") (text "a@b.c") 20 (provision sha (text "a@b.c") 10 empty) in
    let s2 = reap_users sha (live_token_users sha empty) (live_session_users sha empty) s1 in
    let (s3, o) = redeem_token sha (text "r2") token.token 40 50 s2 in
    (x : Session) × (o ≡ some x)
    × (get x.user_id s3.users ≡ none)
    × (lookup_session sha s3 x.session_token 70 ≡ none)
unfolding empty live_token_users live_session_users
login_loses_user_example =
    login_loses_user sha (text "r1") (text "r2") (text "a@b.c") 10 20 40 50 70 empty refl refl
      (omega arith)

lookup_session-restore_example :
    All
      (λ (e : Text × Session). e.1.session_token ≡ [])
      (snapshot sha (act_all sha racing empty)).sessions
    × (lookup_session sha
          (restore sha 600 empty (snapshot sha (act_all sha racing empty)))
          (text "b")
          700
        ≡ lookup_session sha (act_all sha racing empty) (text "b") 700)
lookup_session-restore_example = lookup_session-restore sha racing 600 700 (text "b") (omega arith)
