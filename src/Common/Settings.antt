-- ===== src/Common/Settings.antt =====
-- `Settings::validate` of crates/common/src/config.rs, and the parser of a cadence. Of the settings,
-- these are the ones that it looks at; what it only logs is left out.
use hkgov_rethink.Prelude.{
  Bool, true, false, not, ◌&&◌, ◌||◌, List, [], ◌∷◌, ◌++◌, Option, none, some, Text, text, text_key,
  same, is_empty, to_ascii_lowercase, Result, ok, err, if◌then◌else◌,
}
use hkgov_rethink.Common.Model.{
  Cadence, daily, weekly, monthly, quarterly, biannual, annual, unknown,
}

pub record AlertSettings : Type 0 where
  pub enabled : Bool
  pub min_severity : Text
  pub webhooks : List Text
  pub webhook_token : Option Text
  pub email_api_url : Option Text
  pub email_api_token : Option Text
  pub email_to : Option Text
  pub email_from : Option Text

pub record StoreSettings : Type 0 where
  pub backend : Text
  pub redis_url : Text

-- The settings of the proxy.
pub record UpstreamSettings : Type 0 where
  pub proxy_url : Option Text
  pub proxy_cf_access_client_id : Option Text
  pub proxy_cf_access_client_secret : Option Text

pub record Settings : Type 0 where
  pub store : StoreSettings
  pub alerts : AlertSettings
  pub upstream : UpstreamSettings

abbrev pub is_some {ℓ} : {A : Type ℓ} → Option A → Bool
is_some none = false
is_some (some a) = true

abbrev pub any_set : UpstreamSettings → Bool
any_set u =
    is_some u.proxy_url
    || (is_some u.proxy_cf_access_client_id || is_some u.proxy_cf_access_client_secret)

abbrev pub all_set : UpstreamSettings → Bool
all_set u =
    is_some u.proxy_url
    && (is_some u.proxy_cf_access_client_id && is_some u.proxy_cf_access_client_secret)

unfoldable pub proxy_configured : UpstreamSettings → Bool
proxy_configured u = any_set u && all_set u

-- The message, whose dash is three bytes of UTF-8.
abbrev pub misconfigured : Text
misconfigured =
    text "upstream.proxy_* must all be set together or all left empty "
    ++ ((0xe2 ∷ 0x80 ∷ 0x94 ∷ [])
        ++ text
            " found a half-configured Worker proxy. Set HKGOV_UPSTREAM__PROXY_URL, HKGOV_UPSTREAM__PROXY_CF_ACCESS_CLIENT_ID, and HKGOV_UPSTREAM__PROXY_CF_ACCESS_CLIENT_SECRET together.")

unfoldable pub proxy_misconfiguration : UpstreamSettings → Option Text
proxy_misconfiguration u = if any_set u && not (all_set u) then some misconfigured else none

-- `all(|w| w.is_empty())`
abbrev pub all_empty : List Text → Bool
all_empty [] = true
all_empty (w ∷ ws) = is_empty w && all_empty ws

-- `is_none_or(str::is_empty)`
abbrev pub none_or_empty : Option Text → Bool
none_or_empty none = true
none_or_empty (some s) = is_empty s

abbrev pub no_sink : AlertSettings → Bool
no_sink a = a.enabled && (all_empty a.webhooks && none_or_empty a.email_api_url)

abbrev pub of_message : Option Text → Result (Unit {0}) Text
of_message none = ok tt
of_message (some message) = err message

unfoldable pub validate : Settings → Result (Unit {0}) Text
unfolding proxy_misconfiguration
validate s =
    if same s.store.backend (text "redis") && is_empty s.store.redis_url
    then err (text "store.backend=redis but store.redis_url is empty")
    else if no_sink s.alerts
    then err (text "alerts.enabled=true but no webhooks or email_api_url configured")
    else of_message (proxy_misconfiguration s.upstream)

unfoldable pub parse_cadence : Text → Option Cadence
parse_cadence given =
    let s = to_ascii_lowercase given in
    if same s (text "daily")
    then some daily
    else if same s (text "weekly")
    then some weekly
    else if same s (text "monthly")
    then some monthly
    else if same s (text "quarterly")
    then some quarterly
    else if same s (text "biannual") || same s (text "semiannual")
    then some biannual
    else if same s (text "annual") || same s (text "yearly")
    then some annual
    else if same s (text "unknown") || is_empty s
    then some unknown
    else none
