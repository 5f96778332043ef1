-- ===== src/Analysis/Finding.antt =====
-- `Finding` of crates/agent/src/analysis.rs, and the insight that it is promoted to. `sip` is the
-- standard library's `DefaultHasher` on the bytes that are written to it, `clamp01` is
-- `clamp(0.0, 1.0)` of an `f64`.
use hkgov_rethink.Prelude.{
  ℕ, zero, suc, ◌+◌, ◌/◌, ◌%◌, Bool, true, false, List, [], ◌∷◌, ◌++◌, none, Text, text, text_key,
  same, ltb, if◌then◌else◌, concat,
}
use hkgov_rethink.Common.Sources.{DataSource, as_str}
use hkgov_rethink.Insights.Types.{Insight, EvidenceRef, InsightSeverity, info, warning, critical}
use hkgov_rethink.Audit.Json.{Json, Serde, canonical_json_string}

pub record Finding : Type 0 where
  pub kind : Text
  pub source : DataSource
  pub dataset : Text
  pub title : Text
  pub heuristic_summary : Text
  pub severity : Text
  pub confidence : ℕ
  pub evidence : List (EvidenceRef Json)
  pub deterministic : Bool

unfoldable pub stamp_deterministic : Finding → Finding
stamp_deterministic f = record f { deterministic = true }

unfoldable pub severity_enum : Finding → InsightSeverity
severity_enum f =
    if same f.severity (text "critical")
    then critical
    else if same f.severity (text "warning")
    then warning
    else info

-- `{:x}` of a number below 16, and the last `n` hexadecimal digits of a number.
abbrev pub lower_hex : ℕ → ℕ
lower_hex d = if ltb d 10 then 48 + d else 87 + d

abbrev pub hex_digits : ℕ → ℕ → Text → Text
hex_digits zero m rest = rest
hex_digits (suc n) m rest = hex_digits n (m / 16) (lower_hex (m % 16) ∷ rest)

-- What `str::hash` writes: the bytes and 0xff.
abbrev pub hashed : Text → Text
hashed s = s ++ 255 ∷ []

module _ (serde : Serde) (sip : Text → ℕ) where
  unfoldable pub fingerprint_bytes : List (EvidenceRef Json) → Text
  fingerprint_bytes [] = []
  fingerprint_bytes (e ∷ ev) =
      hashed e.record_id
      ++ (hashed e.field ++ (hashed (canonical_json_string serde e.value) ++ fingerprint_bytes ev))

  -- `{:016x}` of the 64-bit hash
  unfoldable pub fingerprint : List (EvidenceRef Json) → Text
  unfolding fingerprint_bytes
  fingerprint ev = hex_digits 16 (sip (fingerprint_bytes ev)) []

  unfoldable pub insight_id : Finding → Text
  unfolding fingerprint as_str
  insight_id f = concat (
      f.kind
      ∷ text ":"
      ∷ as_str f.source
      ∷ text ":"
      ∷ f.dataset
      ∷ text ":"
      ∷ fingerprint f.evidence
      ∷ [])

  -- `now` is the time of the call.
  unfoldable pub into_insight_experimental :
      (ℕ → ℕ) → Finding → Text → ℕ → Text → Bool → ℕ → Insight Json
  unfolding insight_id severity_enum
  into_insight_experimental clamp01 f summary confidence producer experimental now = record {
    id = insight_id f;
    kind = f.kind;
    severity = severity_enum f;
    title = f.title;
    summary = summary;
    source = f.source;
    dataset = f.dataset;
    evidence = f.evidence;
    confidence = clamp01 confidence;
    generated_at = now;
    producer = producer;
    experimental = experimental;
    first_seen = none;
    version = 1;
    evolution = none;
  }

  unfoldable pub into_insight : (ℕ → ℕ) → Finding → Text → ℕ → Text → ℕ → Insight Json
  unfolding into_insight_experimental
  into_insight clamp01 f summary confidence producer now =
      into_insight_experimental clamp01 f summary confidence producer false now
