-- ===== src/Audit/Routes.antt =====
-- `filter_audit` of crates/agent/src/provenance.rs, and the handlers of
-- crates/api/src/routes/audit.rs. `chrono`'s two ways to read a time are parameters.
use hkgov_rethink.Prelude.{
  ℕ, Ordering, compare, Bool, true, false, not, ◌||◌, List, map, Option, none, some, Text, text,
  text_key, same, contains, to_ascii_lowercase, trim, is_empty, sort_by, select, take, min, max,
  leb, if◌then◌else◌, Result, ok, err, ℤ, parse_signed,
}
use hkgov_rethink.Common.Errors.{Error, bad_request, not_found}
use hkgov_rethink.Common.Model.{NormalizedRecord}
use hkgov_rethink.Insights.Types.{Insight, EvidenceRef, bool_eq}
use hkgov_rethink.Insights.Store.{InsightStore, find}
use hkgov_rethink.Store.Ids.{DatasetId}
use hkgov_rethink.Store.Cache.{Cache}
use hkgov_rethink.Store.Memory.{MemoryStore, get_by_ids}
use hkgov_rethink.Audit.Json.{Json}
use hkgov_rethink.Audit.Cite.{
  External, ReproducibilityManifest, is_synthetic_evidence_id, build_citation,
}
use hkgov_rethink.Audit.Provenance.{
  ProvenanceRecord, ProvenanceStore, Attestation, as_name, find_provenance, snapshot,
  build_attestation,
}

pub record AuditQuery : Type 0 where
  pub since : Option ℕ
  pub producer : Option Text
  pub deterministic : Option Bool

-- `is_none_or`
abbrev pub none_or {ℓ} : {A : Type ℓ} → (A → Bool) → Option A → Bool
none_or p none = true
none_or p (some a) = p a

abbrev pub is_since : AuditQuery → ProvenanceRecord → Bool
is_since q r = none_or (λ s. leb s r.produced_at) q.since

abbrev pub is_of_kind : AuditQuery → ProvenanceRecord → Bool
is_of_kind q r = none_or (λ d. bool_eq r.deterministic d) q.deterministic

abbrev pub is_by : AuditQuery → ProvenanceRecord → Bool
is_by q r = none_or (λ p. contains (as_name r.producer) p) q.producer

-- `cmp::Reverse` of the time
abbrev pub newest_first : ProvenanceRecord → ProvenanceRecord → Ordering
newest_first a b = compare b.produced_at a.produced_at

unfoldable pub filter_audit : List ProvenanceRecord → AuditQuery → List ProvenanceRecord
filter_audit records q =
    sort_by newest_first (select (is_by q) (select (is_of_kind q) (select (is_since q) records)))

unfoldable pub insight_provenance : Text → ProvenanceStore → Result ProvenanceRecord Error
unfolding find_provenance
insight_provenance id s = elim (find_provenance id s) [
  | some p ↦ ok p
  | none ↦ err (not_found (text "provenance"))
]

pub record AuditListQuery : Type 0 where
  pub since : Option Text
  pub producer : Option Text
  pub deterministic : Option Text
  pub limit : ℕ

-- The two readings of a time: RFC 3339, and seconds since the epoch.
pub record Times : Type 0 where
  pub from_rfc3339 : Text → Option ℕ
  pub from_timestamp : ℤ → Option ℕ

abbrev pub bad_since : Error
bad_since = bad_request (text "since must be RFC3339 or epoch seconds")

unfoldable pub parse_since : Times → Text → Result ℕ Error
parse_since t s = elim (t.from_rfc3339 s) [
  | some at ↦ ok at
  | none ↦ elim (parse_signed 9223372036854775807 s) [
    | none ↦ err bad_since
    | some secs ↦ elim (t.from_timestamp secs) [ some at ↦ ok at | none ↦ err bad_since ]
  ]
]

unfoldable pub since_of : Times → Option Text → Result (Option ℕ) Error
unfolding parse_since
since_of t none = ok none
since_of t (some s) =
    if is_empty (trim s)
    then ok none
    else elim (parse_since t s) [ ok at ↦ ok (some at) | err e ↦ err e ]

unfoldable pub deterministic_of : Option Text → Option Bool
deterministic_of none = none
deterministic_of (some given) =
    let s = to_ascii_lowercase given in
    if same s (text "true") || same s (text "1")
    then some true
    else if same s (text "false") || same s (text "0")
    then some false
    else none

-- `filter(|s| !s.trim().is_empty())`
abbrev pub non_blank : Option Text → Option Text
non_blank none = none
non_blank (some s) = if is_empty (trim s) then none else some s

abbrev pub max_audit_limit : ℕ
max_audit_limit = 500

abbrev pub audit_query : Option ℕ → AuditListQuery → AuditQuery
audit_query since q = record {
  since = since;
  producer = non_blank q.producer;
  deterministic = deterministic_of q.deterministic;
}

unfoldable pub list_audit :
    Times → AuditListQuery → ProvenanceStore → Result (List ProvenanceRecord) Error
unfolding since_of deterministic_of filter_audit snapshot
list_audit t q s = elim (since_of t q.since) [
  | err e ↦ err e
  | ok since ↦
      ok (
        take (min (max q.limit 1) max_audit_limit)
          (filter_audit (snapshot s) (audit_query since q)))
]

abbrev pub is_real : EvidenceRef Json → Bool
is_real e = not (is_synthetic_evidence_id e.record_id)

module _ {C : Type 0} (cache : Cache C) (x : External) (package_version : Text) where
  abbrev pub manifest_of :
      Insight Json → Result (List NormalizedRecord) Error → Option ReproducibilityManifest
  manifest_of insight (err e) = none
  manifest_of insight (ok records) =
      some
        (build_citation x insight records (text "http://localhost:8080")
          (some package_version)).manifest

  unfoldable pub build_cite_manifest : Insight Json → MemoryStore C → Option ReproducibilityManifest
  unfolding get_by_ids is_synthetic_evidence_id build_citation
  build_cite_manifest insight store =
      let real_ids = map (λ e. e.record_id) (select is_real insight.evidence) in
      let id : DatasetId = record { source = insight.source; dataset = insight.dataset } in
      if is_empty real_ids then none else manifest_of insight (get_by_ids cache id real_ids store)

  unfoldable pub attestation :
      Text → InsightStore Json → ProvenanceStore → MemoryStore C → Result Attestation Error
  unfolding find build_cite_manifest build_attestation
  attestation id insights provenance store = elim (find insights id) [
    | none ↦ err (not_found (text "insight"))
    | some insight ↦
        elim (build_attestation insight provenance (build_cite_manifest insight store)) [
          | some a ↦ ok a
          | none ↦ err (not_found (text "provenance"))
        ]
  ]
