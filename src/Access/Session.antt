-- ===== src/Access/Session.antt =====
-- From the `Authorization` header to the caller: `bearer_token` of
-- crates/api/src/routes/auth_routes.rs, `principal_id` and `require_principal` of routes/mod.rs, and
-- the handlers of the investigations behind them.
use hkgov_rethink.Prelude.{
  ℕ, [], ◌∷◌, ◌++◌, Option, none, some, Text, text, trim, is_empty, ◌==◌, if◌then◌else◌, Result, ok,
  err,
}
use hkgov_rethink.Common.Errors.{Error, unauthorized}
use hkgov_rethink.Identity.Store.{User, UserStore, lookup_session}
use hkgov_rethink.Investigations.Store.{InvestigationStore}
use hkgov_rethink.Investigations.Requests.{Request, Reply, failed, serve}

unfoldable pub strip_prefix : Text → Text → Option Text
strip_prefix s [] = some s
strip_prefix [] (b ∷ p) = none
strip_prefix (a ∷ s) (b ∷ p) = if a == b then strip_prefix s p else none

abbrev pub token_of : Option Text → Option Text
token_of none = none
token_of (some rest) = if is_empty (trim rest) then none else some (trim rest)

unfoldable pub bearer_token : Option Text → Option Text
bearer_token none = none
bearer_token (some auth) = token_of (strip_prefix auth (text "Bearer "))

abbrev pub id_of : Option User → Option Text
id_of none = none
id_of (some u) = some u.id

unfoldable pub require_principal : Option Text → Result Text Error
require_principal (some id) = ok id
require_principal none = err (
    unauthorized (
      text "authentication required: send a valid Authorization: Bearer {session} "
      ++ text "(obtain one from POST /v1/auth/request-token + /v1/auth/redeem)"))

module _ (sha : Text → Text) where
  abbrev pub user_behind : UserStore → ℕ → Option Text → Option User
  user_behind users now none = none
  user_behind users now (some token) = lookup_session sha users token now

  unfoldable pub principal_id : UserStore → ℕ → Option Text → Option Text
  principal_id users now header = id_of (user_behind users now (bearer_token header))

  module _ {A T : Type 0} (digest : Text → ℕ → Text) where
    unfoldable pub as_caller :
        ℕ
        → Request A T
        → InvestigationStore A T
        → Result Text Error
        → InvestigationStore A T × Reply A T
    as_caller now r s (err e) = (s, failed e)
    as_caller now r s (ok caller) = serve digest caller now r s

    -- A request to the investigations, with its header.
    unfoldable pub handle :
        UserStore
        → Option Text
        → ℕ
        → Request A T
        → InvestigationStore A T
        → InvestigationStore A T × Reply A T
    unfolding as_caller
    handle users header now r s =
        as_caller now r s (require_principal (principal_id users now header))
