-- ===== src/Silence/Composite.antt =====
-- `build_composite_index` of crates/agent/src/transparency.rs.
use hkgov_rethink.Prelude.{ℕ, List, [], ◌∷◌, map, Option, some, Text, ◌==◌, if◌then◌else◌}
use hkgov_rethink.Common.Sources.{DataSource}
use hkgov_rethink.Insights.Store.{InsightStore}
use hkgov_rethink.Insights.Store
use hkgov_rethink.Audit.Json.{Json}
use hkgov_rethink.Audit.Cite.{External}
use hkgov_rethink.Analysis.Periods.{◌>>=◌}
use hkgov_rethink.Silence.Index.{
  Floats, SilenceIndex, Insights, float_0, total, methodology_version,
}
use hkgov_rethink.Silence.Registry.{default_registry, build_index_from_registry}

pub record SourceBreakdown : Type 0 where
  pub source : DataSource
  pub label : Text
  pub score : ℕ
  pub total_events : ℕ
  pub weight : ℕ

pub record CompositeTransparencyIndex : Type 0 where
  pub score : ℕ
  pub sources : List SourceBreakdown
  pub period : Text
  pub computed_at : ℕ
  pub methodology_version : Text

module _ (f : Floats) (x : External) where
  unfoldable pub breakdown_of : DataSource → SilenceIndex → SourceBreakdown
  breakdown_of source idx = record {
    source = source;
    label = idx.label;
    score = idx.score;
    total_events = idx.total_events;
    weight = float_0;
  }

  unfoldable pub breakdowns : Insights → List DataSource → Text → ℕ → Option (List SourceBreakdown)
  unfolding build_index_from_registry default_registry breakdown_of
  breakdowns all [] period now = some []
  breakdowns all (source ∷ sources) period now = do
    idx ← build_index_from_registry f x all source period now default_registry
    rest ← breakdowns all sources period now
    some (breakdown_of source idx ∷ rest)

  unfoldable pub weigh : ℕ → SourceBreakdown → SourceBreakdown
  weigh total_weight b = record b {
    weight =
        if total_weight == 0
        then float_0
        else f.div (f.of_usize b.total_events) (f.of_usize total_weight);
  }

  unfoldable pub composite_score : ℕ → List SourceBreakdown → ℕ
  composite_score total_weight bs =
      if total_weight == 0
      then float_0
      else (f.div (f.sum (map (λ b. f.mul b.score (f.of_usize b.total_events)) bs))
          (f.of_usize total_weight))

  unfoldable pub build_composite_index :
      InsightStore Json → List DataSource → Text → ℕ → Option CompositeTransparencyIndex
  unfolding breakdowns weigh composite_score Store.snapshot methodology_version
  build_composite_index store sources period now = do
    bs ← breakdowns (Store.snapshot store).insights sources period now
    let total_weight = total (map (λ b. b.total_events) bs)
    some record {
      score = composite_score total_weight bs;
      sources = map (weigh total_weight) bs;
      period = period;
      computed_at = now;
      methodology_version = methodology_version x;
    }
