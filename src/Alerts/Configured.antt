-- ===== src/Alerts/Configured.antt =====
-- `AlertDispatcher::from_settings` of crates/agent/src/alerts.rs, and what the check of the settings
-- (crates/common/src/config.rs) makes sure of for it.
use hkgov_rethink.Prelude.{
  ◌≡◌, refl, Bool, true, false, not, ◌&&◌, List, [], ◌∷◌, ◌++◌, Option, none, some, Text, ok,
  if◌then◌else◌, arith, map, Bool-cases, inl, inr,
}
use hkgov_rethink.Common.Settings.{
  Settings, AlertSettings, validate, is_some, all_empty, none_or_empty, no_sink, proxy_configured,
  any_set, proxy_misconfiguration,
}
use hkgov_rethink.Alerts.Dispatcher.{AlertSink, AlertDispatcher, with_sinks, parse_severity}

-- The sinks that the feature `alerts` builds, of a webhook and of an email gateway.
pub record SinkMakers (S J : Type 0) : Type 0 where
  pub webhook : Text → Option Text → AlertSink S J
  pub email : Text → Text → Text → Text → AlertSink S J

module _ {S J : Type 0} (m : SinkMakers S J) where
  unfoldable pub email_sinks :
      Option Text → Option Text → Option Text → Option Text → List (AlertSink S J)
  email_sinks (some api_url) (some token) (some to) (some from) = m.email api_url token to from ∷ []
  email_sinks _ _ _ _ = []

  -- Without the feature there are no sinks.
  unfoldable pub sinks_of : Bool → AlertSettings → List (AlertSink S J)
  unfolding email_sinks
  sinks_of false a = []
  sinks_of true a =
      map (λ url. m.webhook url a.webhook_token) a.webhooks
      ++ email_sinks a.email_api_url a.email_api_token a.email_to a.email_from

  unfoldable pub from_settings : Bool → AlertSettings → Option (AlertDispatcher S J)
  unfolding sinks_of with_sinks
  from_settings feature a =
      if not a.enabled
      then none
      else some (with_sinks (sinks_of feature a) (parse_severity a.min_severity))

  -- Only the address of the email gateway is given, or not all of the rest, and no webhook.
  abbrev pub half : List Text → Option Text → Option Text → Option Text → Option Text → Bool
  half [] (some api_url) token to from = not (is_some token && (is_some to && is_some from))
  half _ _ _ _ _ = false

  abbrev pub any_sink : List (AlertSink S J) → Bool
  any_sink [] = false
  any_sink (x ∷ xs) = true

  abbrev pub has_sinks : Option (AlertDispatcher S J) → Bool
  has_sinks none = false
  has_sinks (some d) = any_sink d.sinks

  any_sink-half :
      (k : Option Text) (ws : List Text) (u t o f : Option Text)
      → (all_empty ws && none_or_empty u) ≡ false
      → any_sink (map (λ url. m.webhook url k) ws ++ email_sinks u t o f) ≡ not (half ws u t o f)
  unfolding email_sinks
  any_sink-half k (w ∷ ws) u t o f h = refl
  any_sink-half k [] none t o f h = ground (arith)
  any_sink-half k [] (some u) none o f h = refl
  any_sink-half k [] (some u) (some t) none f h = refl
  any_sink-half k [] (some u) (some t) (some o) none h = refl
  any_sink-half k [] (some u) (some t) (some o) (some f) h = refl

  validate-no_sink : (s : Settings) → validate s ≡ ok tt → no_sink s.alerts ≡ false
  unfolding validate
  validate-no_sink s h = ground (arith, h)

  from_settings-no_sink :
      (a : AlertSettings)
      → no_sink a ≡ false
      → has_sinks (from_settings true a) ≡ (
          a.enabled
          && not (half a.webhooks a.email_api_url a.email_api_token a.email_to a.email_from))
  unfolding from_settings sinks_of with_sinks
  from_settings-no_sink a h = elim (Bool-cases a.enabled) [
    | inl e ↦ rw e (
        any_sink-half a.webhook_token a.webhooks a.email_api_url a.email_api_token a.email_to
          a.email_from (ground (arith, h, e)))
    | inr e ↦ rw e refl
  ]

  -- Settings that pass the check, in a build with alerts, give a dispatcher that has a sink exactly
  -- if alerts are enabled and it is not so that there is no webhook and of the email gateway the
  -- address is given and something else is missing. That case passes the check: alerts are enabled,
  -- and nothing is ever pushed. The proxy of checked settings is configured as soon as a part is.
  pub from_settings-validate :
      (s : Settings)
      → validate s ≡ ok tt
      → (has_sinks (from_settings true s.alerts) ≡ (
          s.alerts.enabled
          && not (
              half s.alerts.webhooks s.alerts.email_api_url s.alerts.email_api_token
                s.alerts.email_to s.alerts.email_from)))
        × (proxy_configured s.upstream ≡ any_set s.upstream)
  unfolding validate proxy_configured proxy_misconfiguration
  from_settings-validate s h =
      (from_settings-no_sink s.alerts (validate-no_sink s h), ground (arith, h))
