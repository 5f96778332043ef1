-- ===== src/Audit/Examples.antt =====
-- Witnesses and tests of the citations and the audit trail. The stand-ins for the libraries keep a
-- text as it is.
use hkgov_rethink.Prelude.{
  ◌≡◌, ◌⊎◌, ◌↔◌, refl, true, false, List, [], ◌∷◌, ◌++◌, none, some, Text, text, ok, length, drop,
  starts_with, All, sort_by, insert_by, insert, parse_signed, decimal, arith, trim,
}
use hkgov_rethink.Common.Sources.{hkma}
use hkgov_rethink.Common.Model.{NormalizedRecord}
use hkgov_rethink.Insights.Types.{Insight, EvidenceRef, warning}
use hkgov_rethink.Audit.Json.{Json, Serde, null}
use hkgov_rethink.Audit.Cite.{
  External, Citation, apa, build_citation, reproducibility_hash, evidence_hash,
}
use hkgov_rethink.Audit.Render.{render}
use hkgov_rethink.Audit.Hash.{evidence_hash-reproducibility_hash}
use hkgov_rethink.Audit.Permalink.{percent_decode, prefix, is_link_char, build_citation-permalink}
use hkgov_rethink.Audit.Provenance.{
  ProvenanceRecord, ProvenanceStore, Attestation, heuristic, llm, for_insight, record_provenance,
  find_provenance, build_attestation,
}
use hkgov_rethink.Audit.Routes.{AuditListQuery, Times, list_audit}
use hkgov_rethink.Audit.Trail.{record_all, reproduces, build_attestation_lem}

abbrev plain_serde : Serde
plain_serde = record {
  f64_of = λ n. 0;
  is_nan = λ f. false;
  is_infinite = λ f. false;
  is_positive = λ f. true;
  json_text = λ v. text "v";
  value_text = λ v. text "w";
  float_text = λ f. text "f";
}

abbrev plain : External
plain = record {
  serde = plain_serde;
  sha = λ s. s;
  year_text = λ t. text "2026";
  long_date = λ t. text "May 1, 2026";
  is_alphanumeric = λ c. true;
  to_lowercase = λ s. s;
}

abbrev evidence : Text → EvidenceRef Json
evidence id = record { record_id = id; field = text "date"; value = null; context = none }

abbrev finding : Text → Insight Json
finding id = record {
  id = id;
  kind = text "trend";
  severity = warning;
  title = text "Prices";
  summary = text "up";
  source = hkma;
  dataset = text "rates";
  evidence = evidence (text "b") ∷ evidence (text "a") ∷ [];
  confidence = 80;
  generated_at = 10;
  producer = text "heuristic";
  experimental = true;
  first_seen = none;
  version = 1;
  evolution = none;
}

abbrev row : Text → NormalizedRecord
row id = record {
  source = hkma;
  dataset = text "rates";
  record_id = id;
  fields = [];
  fetched_at = 0;
}

abbrev cited : Citation
cited = build_citation plain (finding (text "a b")) [] (text "https://x/") none

cited_text :
    render plain cited apa
    ≡ text "HK City Pulse. (2026). Prices (experimental detector "
      ++ (0xe2 ∷ 0x80 ∷ 0x94 ∷ [])
      ++ text " not yet validated on real data). https://x/cite/a%20b"
unfolding render build_citation parse_signed decimal
cited_text = refl

evidence_hash-reproducibility_hash_example :
    (evidence_hash plain (evidence (text "b") ∷ []) (row (text "r") ∷ [])
      ≡ reproducibility_hash plain (evidence (text "b") ∷ []))
    ↔ (row (text "r") ∷ [] ≡ [])
evidence_hash-reproducibility_hash_example =
    evidence_hash-reproducibility_hash plain (evidence (text "b") ∷ []) (row (text "r") ∷ [])
      (λ e. e)

build_citation-permalink_example :
    (percent_decode (drop (length (prefix (text "https://x/"))) cited.permalink) ≡ text "a b")
    × All (λ c. is_link_char c ≡ true) (drop (length (prefix (text "https://x/"))) cited.permalink)
build_citation-permalink_example =
    build_citation-permalink plain (finding (text "a b")) [] (text "https://x/") none (omega arith)

abbrev trail : List ProvenanceRecord
trail =
    for_insight plain (text "1.0") (finding (text "b")) heuristic true
    ∷ for_insight plain (text "1.0") (record (finding (text "a")) { generated_at = 20 })
        (llm (text "m")) false
    ∷ []

abbrev trail_store : ProvenanceStore
trail_store = record_all trail []

build_attestation_lem_example :
    ((find_provenance (text "b") trail_store ≡ none)
      × (build_attestation (finding (text "b")) trail_store none ≡ none))
    ⊎ ((a : Attestation) × (build_attestation (finding (text "b")) trail_store none ≡ some a)
        × (find_provenance (text "b") trail_store ≡ some a.provenance)
        × (starts_with a.claim (reproduces (text "b")) ≡ a.provenance.deterministic))
build_attestation_lem_example = build_attestation_lem (finding (text "b")) trail_store none

abbrev clock : Times
clock = record { from_rfc3339 = λ s. none; from_timestamp = λ z. some 15 }

abbrev asked : AuditListQuery
asked = record {
  since = some (text "15");
  producer = none;
  deterministic = some (text "no");
  limit = 5;
}

-- A determinism flag that is neither true nor false filters nothing.
asked_page :
    list_audit clock asked trail_store
    ≡ ok (
        for_insight plain
          (text "1.0")
          (record (finding (text "a")) { generated_at = 20 })
          (llm (text "m"))
          false
        ∷ [])
unfolding list_audit sort_by insert_by record_provenance insert for_insight parse_signed trim
asked_page = refl
