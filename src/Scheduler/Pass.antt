-- ===== src/Scheduler/Pass.antt =====
-- `run_pass` of crates/agent/src/scheduler.rs. `W` is all that the client, the clock and the alert
-- sinks read and change; the store of records does not change during a pass.
use hkgov_rethink.Prelude.{
  ℕ, Bool, ◌&&◌, List, [], ◌∷◌, ◌++◌, Option, none, some, Text, text, text_key, same, Result, ok,
  err,
}
use hkgov_rethink.Common.Errors.{Error}
use hkgov_rethink.Common.Sources.{parse}
use hkgov_rethink.Store.Cache.{Cache}
use hkgov_rethink.Store.Memory.{MemoryStore}
use hkgov_rethink.Insights.Types.{Insight, Floats}
use hkgov_rethink.Insights.Store.{InsightStore, upsert}
use hkgov_rethink.Alerts.Dispatcher.{AlertDispatcher, evaluate}
use hkgov_rethink.Agent.Llm.{LlmFraming}
use hkgov_rethink.Audit.Json.{Json}
use hkgov_rethink.Audit.Cite.{External}
use hkgov_rethink.Audit.Provenance.{
  ProvenanceRecord, ProvenanceStore, from_name, for_insight, record_provenance,
}
use hkgov_rethink.Analysis.Finding.{Finding, into_insight_experimental}
use hkgov_rethink.Analysis.Periods.{◌>>=◌}
use hkgov_rethink.Scheduler.Targets.{ScanTarget, effective_scan}
use hkgov_rethink.Scheduler.Detect.{Detectors, run_one_target}

-- `LlmClient`, as a pass uses it, and the clock.
pub record Framer (W : Type 0) : Type 0 where
  pub name : Text
  pub frame : Finding → W → Result LlmFraming Error × W
  pub now : W → ℕ

-- What the pass takes from libraries, and the version that it was built as.
pub record Build : Type 0 where
  pub external : External
  pub sip : Text → ℕ
  pub clamp01 : ℕ → ℕ
  pub floats : Floats
  pub package_version : Text

pub record PassState (W : Type 0) : Type 0 where
  pub insights : InsightStore Json
  pub provenance : Option ProvenanceStore
  pub alerts : Option (AlertDispatcher W Json)
  pub stored : List (Insight Json)
  pub world : W

module _ {W : Type 0} (b : Build) (llm : Framer W) where
  unfoldable pub promoted : Finding → Bool → LlmFraming → W → Insight Json
  unfolding into_insight_experimental
  promoted finding experimental framing w =
      into_insight_experimental b.external.serde b.sip b.clamp01 finding framing.summary
        framing.confidence llm.name experimental (llm.now w)

  -- The record of an insight: deterministic only if the heuristic client framed it.
  unfoldable pub attested : Finding → Insight Json → ProvenanceRecord
  unfolding for_insight from_name
  attested finding insight =
      for_insight b.external b.package_version insight (from_name llm.name)
        (finding.deterministic && same llm.name (text "heuristic"))

  abbrev pub record_in : ProvenanceRecord → Option ProvenanceStore → Option ProvenanceStore
  record_in rec none = none
  record_in rec (some s) = some (record_provenance rec s)

  -- A finding that was framed is recorded, stored and kept for the alerts; one that was not is
  -- skipped.
  unfoldable pub keep : Finding → Bool → LlmFraming → W → PassState W → PassState W
  unfolding promoted attested record_provenance upsert
  keep finding experimental framing w s =
      let insight = promoted finding experimental framing w in
      record s {
        provenance = record_in (attested finding insight) s.provenance;
        insights = (upsert b.floats s.insights insight).0;
        stored = s.stored ++ insight ∷ [];
        world = w;
      }

  -- The `match` on what the client replied.
  unfoldable pub on_framing :
      Finding → Bool → Result LlmFraming Error → W → PassState W → PassState W
  unfolding keep
  on_framing finding experimental (ok framing) w s = keep finding experimental framing w s
  on_framing finding experimental (err e) w s = record s { world = w }

  unfoldable pub frame_one : Finding → Bool → PassState W → PassState W
  unfolding on_framing
  frame_one finding experimental s =
      let (framed, w) = llm.frame finding s.world in on_framing finding experimental framed w s

  unfoldable pub frame_all : List (Finding × Bool) → PassState W → PassState W
  unfolding frame_one
  frame_all [] s = s
  frame_all ((finding, experimental) ∷ fs) s = frame_all fs (frame_one finding experimental s)

  unfoldable pub alert_by : Option (AlertDispatcher W Json) → PassState W → PassState W
  unfolding evaluate
  alert_by none s = s
  alert_by (some d) s =
      let (d', w) = evaluate llm.now s.stored (d, s.world) in
      record s { alerts = some d'; world = w }

  unfoldable pub alert : PassState W → PassState W
  unfolding alert_by
  alert s = alert_by s.alerts s

  abbrev pub flagged : Bool → List Finding → List (Finding × Bool)
  flagged experimental [] = []
  flagged experimental (f ∷ fs) = (f, experimental) ∷ flagged experimental fs

  module _ {C : Type 0} (cache : Cache C) (ds : Detectors) (store : MemoryStore C) where
    -- The findings of all targets, in order; a target with an unknown source is skipped.
    unfoldable pub scan_all : List ScanTarget → Option (List (Finding × Bool))
    unfolding run_one_target parse
    scan_all [] = some []
    scan_all (target ∷ targets) = elim (parse target.source) [
      | none ↦ scan_all targets
      | some source ↦ do
        findings ← run_one_target cache ds store source target
        rest ← scan_all targets
        some (flagged target.experimental findings ++ rest)
    ]

    -- The list of stored insights is that of one pass.
    unfoldable pub run_pass : List ScanTarget → PassState W → Option (PassState W)
    unfolding scan_all frame_all alert effective_scan
    run_pass scan s = do
      findings ← scan_all (effective_scan scan)
      some (alert (frame_all findings record s { stored = [] }))
