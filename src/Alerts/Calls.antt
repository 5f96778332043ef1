-- ===== src/Alerts/Calls.antt =====
-- The calls of sinks that `AlertDispatcher` (crates/agent/src/alerts.rs) is to make for some findings,
-- one by one, with the log entry of each.
use hkgov_rethink.Prelude.{
  ℕ, ◌≡◌, refl, List, [], ◌∷◌, ◌++◌, map, Bool, true, false, Text, text, Result, ok, err, ltb,
}
use hkgov_rethink.Common.Errors.{Error, display}
use hkgov_rethink.Insights.Types.{Insight, InsightSeverity, info, warning, critical}
use hkgov_rethink.Insights.Types
use hkgov_rethink.Alerts.Log.{AlertLog, AlertLogEntry, record_entry, record_all}
use hkgov_rethink.Alerts.Dispatcher.{AlertSink, severity_rank, status_of, entry_of, fan_out}

-- Info comes below warning, and warning below critical.
abbrev pub below : InsightSeverity → InsightSeverity → Bool
below info warning = true
below info critical = true
below warning critical = true
below _ _ = false

pub below-severity_rank :
    (a b : InsightSeverity) → ltb (severity_rank a) (severity_rank b) ≡ below a b
unfolding severity_rank
below-severity_rank info info = refl
below-severity_rank info warning = refl
below-severity_rank info critical = refl
below-severity_rank warning info = refl
below-severity_rank warning warning = refl
below-severity_rank warning critical = refl
below-severity_rank critical info = refl
below-severity_rank critical warning = refl
below-severity_rank critical critical = refl

abbrev severity_name : InsightSeverity → Text
severity_name info = text "info"
severity_name warning = text "warning"
severity_name critical = text "critical"

abbrev reported : Result (Unit {0}) Error → Text
reported (ok u) = text "ok"
reported (err e) = display e

severity_name-display : (v : InsightSeverity) → Types.display v ≡ severity_name v
unfolding Types.display
severity_name-display info = refl
severity_name-display warning = refl
severity_name-display critical = refl

status_of-reported : (r : Result (Unit {0}) Error) → status_of r ≡ reported r
unfolding status_of
status_of-reported (ok u) = refl
status_of-reported (err e) = refl

-- A log with the entries of the calls, and their world.
abbrev pub logged : {S : Type 0} → AlertLog → List AlertLogEntry × S → AlertLog × S
logged log (entries, s) = (record_all log entries, s)

module _ {S J : Type 0} where
  -- Each finding with every sink, finding after finding.
  abbrev pub calls_of : List (AlertSink S J) → List (Insight J) → List (Insight J × AlertSink S J)
  calls_of sinks [] = []
  calls_of sinks (i ∷ is) = map (λ k. (i, k)) sinks ++ calls_of sinks is

  -- The calls, one after the other: their log entries and the world that they leave.
  abbrev pub perform : (S → ℕ) → List (Insight J × AlertSink S J) → S → List AlertLogEntry × S
  perform now [] s = ([], s)
  perform now ((i, k) ∷ calls) s =
      let (r, t) = k.dispatch i s in
      let (entries, u) = perform now calls t in
      (
        record {
          insight_id = i.id;
          insight_kind = i.kind;
          severity = severity_name i.severity;
          sink = k.name;
          status = reported r;
          dispatched_at = now t;
        }
            ∷ entries,
        u,
      )

  -- A fan-out in front of other calls.
  pub fan_out-perform :
      (now : S → ℕ) (i : Insight J) (sinks : List (AlertSink S J))
      (calls : List (Insight J × AlertSink S J)) (log : AlertLog) (s : S)
      → let (log', s') = fan_out now i sinks (log, s) in
        logged log' (perform now calls s')
        ≡ logged log (perform now (map (λ k. (i, k)) sinks ++ calls) s)
  unfolding fan_out entry_of record_all
  fan_out-perform now i [] calls log s = refl
  fan_out-perform now i (k ∷ sinks) calls log s =
      let (r, t) = k.dispatch i s in
      rw (← severity_name-display i.severity, ← status_of-reported r)
        (fan_out-perform now i sinks calls (record_entry log (entry_of i k r (now t))) t)
