-- ===== src/Alerts/Dispatcher.antt =====
-- `AlertDispatcher` of crates/agent/src/alerts.rs. The sinks act on the world `S`: a webhook or an
-- email gateway is whatever `dispatch` does. One call of `evaluate` at a time.
use hkgov_rethink.Prelude.{
  ℕ, Bool, true, false, List, [], ◌∷◌, Text, text, same, text_key, to_ascii_lowercase, Result, ok,
  err, ltb, if◌then◌else◌,
}
use hkgov_rethink.Common.Errors.{Error, display}
use hkgov_rethink.Insights.Types.{InsightSeverity, info, warning, critical, Insight}
use hkgov_rethink.Insights.Types
use hkgov_rethink.Alerts.Window.{DispatchedWindow, mark}
use hkgov_rethink.Alerts.Window
use hkgov_rethink.Alerts.Log.{AlertLog, AlertLogEntry, record_entry}
use hkgov_rethink.Alerts.Log

unfoldable pub severity_rank : InsightSeverity → ℕ
severity_rank info = 0
severity_rank warning = 1
severity_rank critical = 2

unfoldable pub parse_severity : Text → InsightSeverity
parse_severity given =
    let s = to_ascii_lowercase given in
    if same s (text "critical") then critical else if same s (text "warning") then warning else info

pub record AlertSink (S J : Type 0) : Type 0 where
  pub name : Text
  pub dispatch : Insight J → S → Result (Unit {0}) Error × S

pub record AlertDispatcher (S J : Type 0) : Type 0 where
  pub sinks : List (AlertSink S J)
  pub min_severity : InsightSeverity
  pub dispatched : DispatchedWindow
  pub log : AlertLog

unfoldable pub status_of : Result (Unit {0}) Error → Text
status_of (ok u) = text "ok"
status_of (err e) = display e

module _ {S J : Type 0} where
  unfoldable pub with_sinks : List (AlertSink S J) → InsightSeverity → AlertDispatcher S J
  with_sinks sinks min_severity = record {
    sinks = sinks;
    min_severity = min_severity;
    dispatched = Window.new;
    log = Log.new 200;
  }

  unfoldable pub entry_of : Insight J → AlertSink S J → Result (Unit {0}) Error → ℕ → AlertLogEntry
  unfolding status_of
  entry_of insight sink r now = record {
    insight_id = insight.id;
    insight_kind = insight.kind;
    severity = Types.display insight.severity;
    sink = sink.name;
    status = status_of r;
    dispatched_at = now;
  }

  -- The loop over the sinks: each is called, and its outcome logged, whatever it is.
  unfoldable pub fan_out : (S → ℕ) → Insight J → List (AlertSink S J) → AlertLog × S → AlertLog × S
  unfolding entry_of
  fan_out now insight [] (log, s) = (log, s)
  fan_out now insight (sink ∷ rest) (log, s) =
      let (r, t) = sink.dispatch insight s in
      fan_out now insight rest (record_entry log (entry_of insight sink r (now t)), t)

  -- The dedup check marks the id before any sink is called.
  unfoldable pub push :
      (S → ℕ)
      → Insight J
      → AlertDispatcher S J × S
      → DispatchedWindow × Bool
      → AlertDispatcher S J × S
  push now insight (d, s) (w, true) = (record d { dispatched = w }, s)
  push now insight (d, s) (w, false) =
      let (log, t) = fan_out now insight d.sinks (d.log, s) in
      (record d { dispatched = w; log = log }, t)

  unfoldable pub evaluate_one :
      (S → ℕ) → Insight J → AlertDispatcher S J × S → AlertDispatcher S J × S
  unfolding push
  evaluate_one now insight (d, s) =
      if ltb (severity_rank insight.severity) (severity_rank d.min_severity)
      then (d, s)
      else push now insight (d, s) (mark insight.id d.dispatched)

  unfoldable pub evaluate :
      (S → ℕ) → List (Insight J) → AlertDispatcher S J × S → AlertDispatcher S J × S
  evaluate now [] d = d
  evaluate now (i ∷ is) d = evaluate now is (evaluate_one now i d)
