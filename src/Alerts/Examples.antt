-- ===== src/Alerts/Examples.antt =====
-- Witnesses and tests of the alerts. The world is the list of the ids that were sent.
use hkgov_rethink.Prelude.{
  ℕ, ◌≡◌, refl, true, false, not, ◌&&◌, some, List, [], ◌∷◌, ◌++◌, none, Text, text, text_key, ok,
  err, arith, get, insert,
}
use hkgov_rethink.Common.Errors.{upstream}
use hkgov_rethink.Common.Sources.{hkp}
use hkgov_rethink.Insights.Types.{Insight, info, warning, critical}
use hkgov_rethink.Common.Settings.{
  Settings, validate, proxy_misconfiguration, proxy_configured, any_set,
}
use hkgov_rethink.Alerts.Configured.{
  SinkMakers, from_settings, has_sinks, half, from_settings-validate,
}
use hkgov_rethink.Alerts.Window.{DispatchedWindow, has, mark}
use hkgov_rethink.Alerts.Window
use hkgov_rethink.Alerts.Log.{AlertLogEntry, Keeps}
use hkgov_rethink.Alerts.Dispatcher.{
  AlertSink, AlertDispatcher, severity_rank, evaluate, evaluate_one, fan_out,
}
use hkgov_rethink.Alerts.Bounds.{new-IsValid}
use hkgov_rethink.Alerts.Delivery.{news, evaluate-news}
use hkgov_rethink.Alerts.Calls.{perform, calls_of}

abbrev finding : Text → Insight ℕ
finding id = record {
  id = id;
  kind = text "trend";
  severity = critical;
  title = text "Prices";
  summary = text "up";
  source = hkp;
  dataset = text "transactions";
  evidence = [];
  confidence = 80;
  generated_at = 10;
  producer = text "stats";
  experimental = false;
  first_seen = none;
  version = 1;
  evolution = none;
}

abbrev batch : List (Insight ℕ)
batch =
    finding (text "a")
    ∷ record (finding (text "b")) { severity = info }
    ∷ finding (text "a")
    ∷ finding (text "c")
    ∷ []

-- A sink that keeps what it is sent, and one that fails.
abbrev mailbox : AlertSink (List Text) ℕ
mailbox = record { name = text "mailbox"; dispatch = λ i s. (ok tt, s ++ i.id ∷ []) }

abbrev broken : AlertSink (List Text) ℕ
broken = record {
  name = text "broken";
  dispatch = λ i s. (err (upstream (text "hook") 500 (text "down")), s);
}

abbrev dispatcher : AlertDispatcher (List Text) ℕ
dispatcher = record {
  sinks = broken ∷ mailbox ∷ [];
  min_severity = warning;
  dispatched = Window.new;
  log = record { entries = []; cap = 200 };
}

evaluate-batch : (evaluate (λ s. 9) batch (dispatcher, [])).1 ≡ text "a" ∷ text "c" ∷ []
unfolding evaluate evaluate_one fan_out Window.new mark severity_rank get insert
evaluate-batch = refl

evaluate-news_example :
    let (entries, s') =
      perform (λ s. 9) (calls_of dispatcher.sinks (news warning Window.new.order batch)) [] in
    ((evaluate (λ s. 9) batch (dispatcher, [])).1 ≡ s')
    × Keeps (evaluate (λ s. 9) batch (dispatcher, [])).0.log ([] ++ entries)
unfolding Window.new
evaluate-news_example =
    evaluate-news (λ s. 9) batch dispatcher [] [] new-IsValid (omega arith) (omega arith, refl)

abbrev logged : ℕ → AlertLogEntry
logged n = record {
  insight_id = text "a";
  insight_kind = text "trend";
  severity = text "critical";
  sink = text "mailbox";
  status = text "ok";
  dispatched_at = n;
}

-- Alerts are enabled with the address of the email gateway and nothing else.
abbrev half_email : Settings
half_email = record {
  store = record { backend = text "memory"; redis_url = [] };
  alerts = record {
    enabled = true;
    min_severity = text "warning";
    webhooks = [];
    webhook_token = none;
    email_api_url = some (text "https://mail");
    email_api_token = none;
    email_to = none;
    email_from = none;
  };
  upstream = record {
    proxy_url = none;
    proxy_cf_access_client_id = none;
    proxy_cf_access_client_secret = none;
  };
}

abbrev makers : SinkMakers (List Text) ℕ
makers = record { webhook = λ url token. mailbox; email = λ url token to from. mailbox }

validate-half_email : validate half_email ≡ ok tt
unfolding validate proxy_misconfiguration
validate-half_email = refl

from_settings-validate_example :
    (has_sinks makers (from_settings makers true half_email.alerts)
      ≡ (true && not (half makers [] (some (text "https://mail")) none none none)))
    × (proxy_configured half_email.upstream ≡ any_set half_email.upstream)
from_settings-validate_example = from_settings-validate makers half_email validate-half_email
