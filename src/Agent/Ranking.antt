-- ===== src/Agent/Ranking.antt =====
-- What the daily brief (crates/agent/src/brief.rs) shows of the insights that are held.
use hkgov_rethink.Prelude.{
  text, ℕ, suc, ◌≡◌, false, List, [], ◌∷◌, some, Ordering, compare, then_with,
}
use hkgov_rethink.Insights.Types.{Insight, InsightSeverity, info, warning, critical}
use hkgov_rethink.Agent.Brief.{BriefItem, ScoreFloats}

-- What the code relies on: `partial_cmp` orders the numbers that are not NaN by a rank.
pub record Ranks (f : ScoreFloats) : Type 0 where
  pub rank : ℕ → ℕ
  pub partial_rank :
      (a b : ℕ)
      → f.is_nan a ≡ false
      → f.is_nan b ≡ false
      → f.partial_cmp a b ≡ some (compare (rank a) (rank b))

-- A comparison of three numbers each, in the order of their weight, the greatest first.
abbrev Weights : Type 0
Weights = ℕ × (ℕ × ℕ)

abbrev by_weights : Weights → Weights → Ordering
by_weights (a, (b, c)) (x, (y, z)) = then_with (compare x a) (then_with (compare y b) (compare z c))

-- Critical outranks warning, and warning info.
abbrev pub gravity : InsightSeverity → ℕ
gravity info = 0
gravity warning = 1
gravity critical = 2

module _ {J : Type 0} (f : ScoreFloats) (num_seconds : ℕ → ℕ) (r : Ranks f) where
  abbrev IsNumber : ℕ × Insight J → Type 0
  IsNumber a = f.is_nan a.0 ≡ false

  abbrev weights : ℕ × Insight J → Weights
  weights a = (r.rank a.0, (gravity a.1.severity, a.1.generated_at))

  -- By score, then severity, then time, each descending.
  abbrev pub order : ℕ × Insight J → ℕ × Insight J → Ordering
  order a b = by_weights (weights a) (weights b)

  -- The items are the first of a ranking, numbered from 1.
  abbrev pub IsNumbered : ℕ → List (ℕ × Insight J) → List (BriefItem J) → Type 0
  IsNumbered n [] items = items ≡ []
  IsNumbered n (a ∷ ranked) [] = ⊥
  IsNumbered n (a ∷ ranked) (item ∷ items) =
      (item.rank ≡ n)
      × ((item.insight ≡ a.1)
          × ((item.score ≡ f.round (f.mul a.0 (f.literal (text "100.0"))))
              × IsNumbered (suc n) ranked items))
