-- ===== src/Access/Examples.antt =====
-- Witnesses and tests of the access to the API. An address is its text.
use hkgov_rethink.Prelude.{
  ℕ, Text, ◌++◌, ◌≡◌, ◌⊎◌, ◌↔◌, refl, arith, true, [], ◌∷◌, some, text, trim,
}
use hkgov_rethink.Identity.Store.{Session, empty, user_id_for, issue_token, redeem_token, sweep}
use hkgov_rethink.Identity.Sections.{act_all, counts}
use hkgov_rethink.Investigations.Store.{InvestigationStore}
use hkgov_rethink.Investigations.Requests.{lists, serve}
use hkgov_rethink.Access.Session.{handle}
use hkgov_rethink.Access.SignIn.{handle-login, IsDigits}
use hkgov_rethink.Access.{guard, safe_ip, chosen_ip, ip_or}
use hkgov_rethink.Access.Guard.{guard_iff, IsExempt, HasKey}
use hkgov_rethink.Access.Proxies.{chosen_ip-client}

guard_iff_example :
    (guard (text "k") (text "/v1/datasets/x/health") (some (text " k ")) ≡ true)
    ↔ (IsExempt (text "/v1/datasets/x/health") ⊎ HasKey (text "k") (some (text " k ")))
guard_iff_example =
    guard_iff (text "k") (text "/v1/datasets/x/health") (some (text " k ")) (λ e. cc)

-- One trusted proxy, and a client at 5.6.7.8 that sends a header of its own.
safe_ip-spoofed :
    safe_ip (λ s. some s) (some (text "1.2.3.4, 5.6.7.8")) (text "9.9.9.9") 1 ≡ text "1.2.3.4"
unfolding safe_ip trim
safe_ip-spoofed = refl

chosen_ip-client_example :
    (chosen_ip (λ s. some s) (text "9.9.9.9") 1 (text "1.2.3.4" ∷ text "5.6.7.8" ∷ [])
      ≡ ip_or (λ s. some s) (text "9.9.9.9") (some (text "1.2.3.4")))
    × (chosen_ip (λ s. some s) (text "9.9.9.9") 1 (text "5.6.7.8" ∷ [])
        ≡ ip_or (λ s. some s) (text "9.9.9.9") (some (text "5.6.7.8")))
chosen_ip-client_example =
    chosen_ip-client (λ s. some s) (text "9.9.9.9") [] (text "1.2.3.4") (text "5.6.7.8") []

-- A digest with one value.
abbrev sha : Text → Text
sha m = text "ab"

sha-IsDigits : IsDigits sha
unfolding trim
sha-IsDigits m = (refl, refl)

abbrev no_cases : InvestigationStore ℕ ℕ
no_cases = record { inner = [] }

handle-login_example :
    let (s1, token, spawns) =
      issue_token sha (text "r1") (text "a@b.c") 10 20 (act_all sha (counts ∷ []) empty) in
    let (s2, o) = redeem_token sha (text "r2") token.token 40 50 (sweep sha 30 s1) in
    (x : Session) × (o ≡ some x)
    × (handle sha
          (λ seed now. seed)
          (sweep sha 60 s2)
          (some (text "Bearer " ++ x.session_token))
          70
          (lists 5)
          no_cases
        ≡ serve (λ seed now. seed) (user_id_for sha (text "a@b.c")) 70 (lists 5) no_cases)
handle-login_example =
    handle-login sha (λ seed now. seed) (text "r1") (text "r2") (text "a@b.c") 10 20 30 40 50 60 70
      (counts ∷ []) (lists 5) no_cases sha-IsDigits (omega arith) (omega arith) (omega arith)
      (omega arith)
