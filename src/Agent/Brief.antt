-- ===== src/Agent/Brief.antt =====
-- `build_brief` of crates/agent/src/brief.rs. An `f64` is its bits, and what the code does with one
-- is a record of operations; a time and chrono's `num_seconds` are those of the insights.
use hkgov_rethink.Prelude.{
  ℕ, suc, ◌-◌, Bool, List, [], ◌∷◌, map, Option, none, some, Text, text, Ordering, compare,
  then_with, ltb, if◌then◌else◌, sort_by, take, min, max,
}
use hkgov_rethink.Insights.Types.{Insight, InsightSeverity, info, warning, critical}
use hkgov_rethink.Insights.Store.{InsightStore, list}

pub record BriefItem (J : Type 0) : Type 0 where
  pub rank : ℕ
  pub score : ℕ
  pub insight : Insight J

pub record Brief (J : Type 0) : Type 0 where
  pub generated_at : ℕ
  pub items : List (BriefItem J)

-- The operations on `f64`; `literal` is the value of a literal of the source.
pub record ScoreFloats : Type 0 where
  pub literal : Text → ℕ
  pub add : ℕ → ℕ → ℕ
  pub sub : ℕ → ℕ → ℕ
  pub mul : ℕ → ℕ → ℕ
  pub div : ℕ → ℕ → ℕ
  pub clamp : ℕ → ℕ → ℕ → ℕ
  pub greater : ℕ → ℕ → ℕ
  pub round : ℕ → ℕ
  pub from_int : ℕ → ℕ
  pub partial_cmp : ℕ → ℕ → Option Ordering
  pub is_nan : ℕ → Bool

abbrev pub severity_rank : InsightSeverity → ℕ
severity_rank critical = 3
severity_rank warning = 2
severity_rank info = 1

abbrev sev_weight : InsightSeverity → Text
sev_weight critical = text "1.0"
sev_weight warning = text "0.6"
sev_weight info = text "0.3"

-- `unwrap_or(Ordering::Equal)`
abbrev pub or_equal : Option Ordering → Ordering
or_equal none = Ordering.eq
or_equal (some o) = o

-- `clamp(1, 50)`
abbrev pub clamp_limit : ℕ → ℕ
clamp_limit limit = min (max limit 1) 50

module _ {A : Type 0} where
  -- `enumerate`, from a first index
  unfoldable pub enumerate : ℕ → List A → List (ℕ × A)
  enumerate n [] = []
  enumerate n (x ∷ xs) = (n, x) ∷ enumerate (suc n) xs

module _ (f : ScoreFloats) (num_seconds : ℕ → ℕ) where
  unfoldable pub recency_of : ℕ → ℕ → ℕ
  recency_of now generated_at =
      if ltb now generated_at
      then f.literal (text "1.0")
      else f.greater
          (f.sub (f.literal (text "1.0")) (
            f.div (f.from_int (num_seconds (now - generated_at))) (
              f.mul (f.mul (f.literal (text "7.0")) (f.literal (text "24.0")))
                (f.literal (text "3600.0")))))
          (f.literal (text "0.0"))

module _ {J : Type 0} (f : ScoreFloats) (num_seconds : ℕ → ℕ) where
  unfoldable pub score_insight : Insight J → ℕ → ℕ
  unfolding recency_of
  score_insight i now =
      let confidence = f.clamp (f.literal (text "0.0")) (f.literal (text "1.0")) i.confidence in
      let raw =
        f.add
          (f.add (f.mul (f.literal (sev_weight i.severity)) (f.literal (text "0.5")))
            (f.mul confidence (f.literal (text "0.25"))))
          (f.mul (recency_of f num_seconds now i.generated_at) (f.literal (text "0.25"))) in
      let discounted = if i.experimental then f.mul raw (f.literal (text "0.7")) else raw in
      f.clamp (f.literal (text "0.0")) (f.literal (text "1.0")) discounted

  -- The comparison of the sort: by score, severity and time, each descending.
  abbrev pub before : ℕ × Insight J → ℕ × Insight J → Ordering
  before a b = then_with (or_equal (f.partial_cmp b.0 a.0)) (
      then_with (compare (severity_rank b.1.severity) (severity_rank a.1.severity))
        (compare b.1.generated_at a.1.generated_at))

  abbrev pub scored : ℕ → Insight J → ℕ × Insight J
  scored now i = (score_insight i now, i)

  abbrev pub item_of : ℕ × (ℕ × Insight J) → BriefItem J
  item_of (idx, (score, i)) = record {
    rank = suc idx;
    score = f.round (f.mul score (f.literal (text "100.0")));
    insight = i;
  }

  unfoldable pub build_brief : InsightStore J → ℕ → ℕ → Brief J
  unfolding score_insight
  build_brief store limit now =
      let ranked = sort_by before (map (scored now) (list store 200)) in
      record {
        generated_at = now;
        items = map item_of (enumerate 0 (take (clamp_limit limit) ranked));
      }
