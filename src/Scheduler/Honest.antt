-- ===== src/Scheduler/Honest.antt =====
-- What a pass of crates/agent/src/scheduler.rs records of the insights that it stores.
use hkgov_rethink.Prelude.{
  ◌≡◌, ◌⊎◌, inl, inr, refl, ap, ◌∙◌, Bool, true, false, ◌&&◌, List, [], ◌∷◌, ◌++◌, Option, none,
  some, text, text_key, same, same_iff, Result, ok, err, All, All-insert, get-insert, Bool-cases,
}
use hkgov_rethink.Common.Errors.{Error}
use hkgov_rethink.Insights.Types.{Insight}
use hkgov_rethink.Store.Cache.{Cache}
use hkgov_rethink.Store.Memory.{MemoryStore}
use hkgov_rethink.Agent.Llm.{LlmFraming}
use hkgov_rethink.Audit.Json.{Json}
use hkgov_rethink.Audit.Provenance.{
  heuristic, ProvenanceRecord, ProvenanceStore, from_name, for_insight, record_provenance,
  find_provenance,
}
use hkgov_rethink.Analysis.Finding.{Finding}
use hkgov_rethink.Analysis.Periods.{◌>>=◌}
use hkgov_rethink.Scheduler.Targets.{ScanTarget, effective_scan}
use hkgov_rethink.Scheduler.Detect.{Detectors}
use hkgov_rethink.Scheduler.Pass.{
  Framer, Build, PassState, promoted, attested, keep, on_framing, frame_one, frame_all, alert_by,
  alert, scan_all, run_pass,
}

-- A record that is marked deterministic names the heuristic client.
abbrev pub IsHonest : ProvenanceRecord → Type 0
IsHonest r = (r.deterministic ≡ false) ⊎ (r.producer ≡ heuristic)

abbrev pub HasRecord : ProvenanceStore → Insight Json → Type 0
HasRecord p i = (r : ProvenanceRecord) × (find_provenance i.id p ≡ some r)

-- The store is honest, and has a record for every insight that the pass stored.
pub record IsTraced {W : Type 0} (p : ProvenanceStore) (s : PassState W) : Type 0 where
  pub held : s.provenance ≡ some p
  pub honest : All (λ e. IsHonest e.1) p
  pub covered : All (HasRecord p) s.stored

HasRecord-record :
    (rec : ProvenanceRecord) (p : ProvenanceStore) (i : Insight Json)
    → HasRecord p i
    → HasRecord (record_provenance rec p) i
unfolding find_provenance record_provenance
HasRecord-record rec p i (r, e) = elim (Bool-cases (same i.id rec.insight_id)) [
  | inl h ↦ (rec, get-insert rec.insight_id i.id rec p ∙ rw h refl)
  | inr h ↦ (r, get-insert rec.insight_id i.id rec p ∙ rw h e)
]

All-HasRecord :
    (rec : ProvenanceRecord) (p : ProvenanceStore) (is : List (Insight Json)) (i : Insight Json)
    → rec.insight_id ≡ i.id
    → All (HasRecord p) is
    → All (HasRecord (record_provenance rec p)) (is ++ i ∷ [])
unfolding find_provenance record_provenance
All-HasRecord rec p [] i e a =
    ((rec, get-insert rec.insight_id i.id rec p ∙ rw (e, (same_iff i.id i.id).1 refl) refl), tt)
All-HasRecord rec p (j ∷ is) i e a = (HasRecord-record rec p j a.0, All-HasRecord rec p is i e a.1)

and_false : (a : Bool) → (a && false) ≡ false
and_false true = refl
and_false false = refl

recorded-IsHonest :
    (rec : ProvenanceRecord) (p : ProvenanceStore)
    → IsHonest rec
    → All (λ e. IsHonest e.1) p
    → All (λ e. IsHonest e.1) (record_provenance rec p)
unfolding record_provenance
recorded-IsHonest rec p h a = All-insert (λ e. IsHonest e.1) rec.insight_id rec p h a

module _ {W : Type 0} (b : Build) (llm : Framer W) where
  attested-IsHonest : (f : Finding) (i : Insight Json) → IsHonest (attested b llm f i)
  unfolding attested for_insight from_name
  attested-IsHonest f i = elim (Bool-cases (same llm.name (text "heuristic"))) [
    | inl h ↦ inr (ap from_name ((same_iff llm.name (text "heuristic")).0 h))
    | inr h ↦ inl (rw h (and_false f.deterministic))
  ]

  keep-IsTraced :
      (f : Finding) (e : Bool) (framing : LlmFraming) (w : W) (p : ProvenanceStore)
      (s : PassState W)
      → IsTraced p s
      → (q : ProvenanceStore) × IsTraced q (keep b llm f e framing w s)
  unfolding keep attested for_insight
  keep-IsTraced f e framing w p s t =
      let i = promoted b llm f e framing w in
      let rec = attested b llm f i in
      (
        record_provenance rec p,
        record {
          held = rw t.held refl;
          honest = recorded-IsHonest rec p (attested-IsHonest f i) t.honest;
          covered = All-HasRecord rec p s.stored i refl t.covered;
        },
      )

  on_framing-IsTraced :
      (f : Finding) (e : Bool) (framed : Result LlmFraming Error) (w : W) (p : ProvenanceStore)
      (s : PassState W)
      → IsTraced p s
      → (q : ProvenanceStore) × IsTraced q (on_framing b llm f e framed w s)
  unfolding on_framing
  on_framing-IsTraced f e (ok framing) w p s t = keep-IsTraced f e framing w p s t
  on_framing-IsTraced f e (err x) w p s t =
      (p, record { held = t.held; honest = t.honest; covered = t.covered })

  frame_all-IsTraced :
      (fs : List (Finding × Bool)) (p : ProvenanceStore) (s : PassState W)
      → IsTraced p s
      → (q : ProvenanceStore) × IsTraced q (frame_all b llm fs s)
  unfolding frame_all frame_one
  frame_all-IsTraced [] p s t = (p, t)
  frame_all-IsTraced ((f, e) ∷ fs) p s t =
      let (framed, w) = llm.frame f s.world in
      let (q, u) = on_framing-IsTraced f e framed w p s t in
      frame_all-IsTraced fs q (frame_one b llm f e s) u

  alert_by-IsTraced :
      (d : Option _) (p : ProvenanceStore) (s : PassState W)
      → IsTraced p s
      → IsTraced p (alert_by b llm d s)
  unfolding alert_by
  alert_by-IsTraced none p s t = t
  alert_by-IsTraced (some d) p s t = record {
    held = t.held;
    honest = t.honest;
    covered = t.covered;
  }

  module _ {C : Type 0} (cache : Cache C) (ds : Detectors) (store : MemoryStore C) where
    -- If the scan of the targets does not panic, the pass ends, whatever the client, the targets and the
    -- findings; if before it a record was marked deterministic only if it named the heuristic client
    -- as the producer, that holds after it, and every insight that the pass stored has a record.
    pub run_pass-IsTraced :
        (scan : List ScanTarget) (p : ProvenanceStore) (s : PassState W)
        (found : List (Finding × Bool))
        → s.provenance ≡ some p
        → All (λ e. IsHonest e.1) p
        → scan_all b llm cache ds store (effective_scan scan) ≡ some found
        → (s' : PassState W) × (q : ProvenanceStore) × (run_pass b llm cache ds store scan s
            ≡ some s')
          × IsTraced q s'
    unfolding run_pass alert
    run_pass-IsTraced scan p s found held honest e =
        let start = record s { stored = [] } in
        let (q, u) =
          frame_all-IsTraced found p start
            (record { held = held; honest = honest; covered = tt }) in
        let done = frame_all b llm found start in
        (
          alert b llm done,
          q,
          ap (λ o. o >>= λ fs. some (alert b llm (frame_all b llm fs start))) e,
          alert_by-IsTraced done.alerts q done u,
        )
