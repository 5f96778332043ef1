-- ===== src/Insights/Types.antt =====
-- The data of crates/agent/src/insight.rs. `J` is `serde_json::Value`, which only travels along. An
-- `f64` is its bit pattern, and what the code does with one is a parameter.
use hkgov_rethink.Prelude.{
  ℕ, ◌≡◌, Bool, true, false, not, List, [], ◌∷◌, Text, text, Option, if◌then◌else◌, same, text_key,
}
use hkgov_rethink.Common.Sources.{DataSource}

pub data InsightSeverity : Type 0 where
  info warning critical : InsightSeverity

unfoldable pub display : InsightSeverity → Text
display info = text "info"
display warning = text "warning"
display critical = text "critical"

pub record EvidenceRef (J : Type 0) : Type 0 where
  pub record_id : Text
  pub field : Text
  pub value : J
  pub context : Option Text

pub data FieldChange : Type 0 where
  severity : InsightSeverity → InsightSeverity → FieldChange
  confidence : ℕ → ℕ → FieldChange
  title summary : Text → Text → FieldChange
  experimental : Bool → Bool → FieldChange
  producer : Text → Text → FieldChange

pub record EvolutionDiff : Type 0 where
  pub insight_id : Text
  pub from_version : ℕ
  pub to_version : ℕ
  pub from_generated_at : ℕ
  pub to_generated_at : ℕ
  pub changes : List FieldChange

pub record Insight (J : Type 0) : Type 0 where
  pub id : Text
  pub kind : Text
  pub severity : InsightSeverity
  pub title : Text
  pub summary : Text
  pub source : DataSource
  pub dataset : Text
  pub evidence : List (EvidenceRef J)
  pub confidence : ℕ
  pub generated_at : ℕ
  pub producer : Text
  pub experimental : Bool
  pub first_seen : Option ℕ
  pub version : ℕ
  pub evolution : Option EvolutionDiff

pub record InsightRevision (J : Type 0) : Type 0 where
  pub version : ℕ
  pub generated_at : ℕ
  pub snapshot : Insight J
  pub diff_from_previous : Option EvolutionDiff

-- The operations on `f64` that `diff_insights` uses, and its constant 0.01.
pub record Floats : Type 0 where
  pub sub : ℕ → ℕ → ℕ
  pub abs : ℕ → ℕ
  pub exceeds : ℕ → ℕ → Bool
  pub hundredth : ℕ

-- A value is within 0.01 of itself: x - x is 0, or NaN, which exceeds nothing.
pub record IsFloats (f : Floats) : Type 0 where
  pub self_close : (x : ℕ) → f.exceeds (f.abs (f.sub x x)) f.hundredth ≡ false

abbrev pub severity_eq : InsightSeverity → InsightSeverity → Bool
severity_eq info info = true
severity_eq warning warning = true
severity_eq critical critical = true
severity_eq _ _ = false

abbrev pub bool_eq : Bool → Bool → Bool
bool_eq true b = b
bool_eq false b = not b

abbrev pub push_if : Bool → FieldChange → List FieldChange → List FieldChange
push_if test c rest = if test then c ∷ rest else rest

module _ {J : Type 0} (f : Floats) where
  -- The changes in the order of the tests.
  unfoldable pub diff_insights : Insight J → Insight J → List FieldChange
  diff_insights old new =
      push_if (not (severity_eq old.severity new.severity))
        (FieldChange.severity old.severity new.severity)
        (push_if (f.exceeds (f.abs (f.sub old.confidence new.confidence)) f.hundredth)
          (FieldChange.confidence old.confidence new.confidence)
          (push_if (not (same old.title new.title)) (FieldChange.title old.title new.title) (
            push_if (not (same old.summary new.summary))
              (FieldChange.summary old.summary new.summary)
              (push_if (not (bool_eq old.experimental new.experimental))
                (FieldChange.experimental old.experimental new.experimental)
                (push_if (not (same old.producer new.producer))
                  (FieldChange.producer old.producer new.producer) [])))))
