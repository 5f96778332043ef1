-- ===== src/Audit/Provenance.antt =====
-- crates/agent/src/provenance.rs: the record of how an insight was produced, its store and its
-- attestation. `DETECTOR_VERSION` is that of crates/agent/src/analysis.rs.
use hkgov_rethink.Prelude.{
  ℕ, Ordering, Bool, List, [], ◌∷◌, Option, none, some, Text, text, text_cmp, text_key, same,
  to_ascii_lowercase, concat, Map, get, insert, insert_all, values, sort_by, if◌then◌else◌,
}
use hkgov_rethink.Common.Sources.{DataSource, as_str}
use hkgov_rethink.Insights.Types.{Insight}
use hkgov_rethink.Audit.Json.{Json}
use hkgov_rethink.Audit.Cite.{
  External, ReproducibilityManifest, reproducibility_hash, derive_threshold,
}

abbrev pub detector_version : Text
detector_version = text "1.0"

abbrev pub provenance_version : Text
provenance_version = text "1.0"

abbrev pub attestation_version : Text
attestation_version = text "1.0"

pub data Producer : Type 0 where
  heuristic : Producer
  llm : Text → Producer

unfoldable pub from_name : Text → Producer
from_name name = if same (to_ascii_lowercase name) (text "heuristic") then heuristic else llm name

unfoldable pub as_name : Producer → Text
as_name heuristic = text "heuristic"
as_name (llm model) = model

pub record ProvenanceRecord : Type 0 where
  pub provenance_version : Text
  pub insight_id : Text
  pub detector : Text
  pub source : DataSource
  pub dataset : Text
  pub threshold : Option ℕ
  pub input_sha256 : Text
  pub detector_version : Text
  pub runtime_version : Text
  pub producer : Producer
  pub deterministic : Bool
  pub produced_at : ℕ

-- The store, by the insight's id.
abbrev pub ProvenanceStore : Type 0
ProvenanceStore = Map Text ProvenanceRecord

unfoldable pub record_provenance : ProvenanceRecord → ProvenanceStore → ProvenanceStore
record_provenance rec s = insert rec.insight_id rec s

unfoldable pub find_provenance : Text → ProvenanceStore → Option ProvenanceRecord
find_provenance insight_id s = get insight_id s

abbrev pub id_cmp : ProvenanceRecord → ProvenanceRecord → Ordering
id_cmp a b = text_cmp a.insight_id b.insight_id

unfoldable pub snapshot : ProvenanceStore → List ProvenanceRecord
snapshot s = sort_by id_cmp (values s)

-- The store is cleared first.
unfoldable pub restore : List ProvenanceRecord → ProvenanceStore → ProvenanceStore
restore recs s = insert_all (λ r. r.insight_id) [] recs

pub record Attestation : Type 0 where
  pub attestation_version : Text
  pub insight : Insight Json
  pub provenance : ProvenanceRecord
  pub reproducibility_manifest : Option ReproducibilityManifest
  pub claim : Text

unfoldable pub claim_of : Insight Json → ProvenanceRecord → Text
unfolding as_str as_name
claim_of insight p =
    if p.deterministic
    then concat (
        text "Finding "
        ∷ insight.id
        ∷ text " is deterministic-reproducible: produced by the pure-Rust '"
        ∷ p.detector
        ∷ text "' detector (v"
        ∷ p.detector_version
        ∷ text ") over "
        ∷ as_str p.source
        ∷ text "/"
        ∷ p.dataset
        ∷ text " with evidence hash "
        ∷ p.input_sha256
        ∷ text
            ". Re-running the detector against the same input data reproduces the finding byte-for-byte."
        ∷ [])
    else concat (
        text "Finding "
        ∷ insight.id
        ∷ text " was framed by an LLM ("
        ∷ as_name p.producer
        ∷ text "). Detection originated in the pure-Rust '"
        ∷ p.detector
        ∷ text
            "' detector, but the summary/confidence framing is model-dependent and not guaranteed to reproduce byte-for-byte. The evidence hash "
        ∷ p.input_sha256
        ∷ text " covers the deterministic input."
        ∷ [])

unfoldable pub build_attestation :
    Insight Json → ProvenanceStore → Option ReproducibilityManifest → Option Attestation
unfolding find_provenance claim_of
build_attestation insight s manifest = elim (find_provenance insight.id s) [
  | none ↦ none
  | some p ↦ some record {
    attestation_version = attestation_version;
    insight = insight;
    provenance = p;
    reproducibility_manifest = manifest;
    claim = claim_of insight p;
  }
]

module _ (x : External) (package_version : Text) where
  unfoldable pub for_insight : Insight Json → Producer → Bool → ProvenanceRecord
  unfolding derive_threshold reproducibility_hash
  for_insight insight producer deterministic = record {
    provenance_version = provenance_version;
    insight_id = insight.id;
    detector = insight.kind;
    source = insight.source;
    dataset = insight.dataset;
    threshold = derive_threshold x insight.evidence;
    input_sha256 = reproducibility_hash x insight.evidence;
    detector_version = detector_version;
    runtime_version = package_version;
    producer = producer;
    deterministic = deterministic;
    produced_at = insight.generated_at;
  }
