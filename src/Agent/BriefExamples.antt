-- ===== src/Agent/BriefExamples.antt =====
-- Witnesses and tests of the daily brief. An `f64` is a number of hundredths.
use hkgov_rethink.Prelude.{
  ℕ, ◌+◌, ◌-◌, ◌*◌, ◌/◌, ◌≡◌, refl, false, [], List, ◌∷◌, none, some, min, max, compare, sort_by,
  Text, text, text_key, same, if◌then◌else◌,
}
use hkgov_rethink.Common.Sources.{hkp}
use hkgov_rethink.Insights.Types.{Insight, info, critical}
use hkgov_rethink.Insights.Store.{InsightStore, list}
use hkgov_rethink.Agent.Brief.{ScoreFloats, enumerate, score_insight, build_brief}
use hkgov_rethink.Agent.Ranking.{Ranks}

abbrev literal : Text → ℕ
literal s =
    if same s (text "1.0")
    then 100
    else if same s (text "0.6")
    then 60
    else if same s (text "0.5")
    then 50
    else if same s (text "0.3")
    then 30
    else if same s (text "0.25")
    then 25
    else if same s (text "7.0")
    then 700
    else if same s (text "24.0")
    then 2400
    else if same s (text "3600.0")
    then 360000
    else if same s (text "100.0")
    then 10000
    else 0

abbrev cents : ScoreFloats
cents = record {
  literal = literal;
  add = λ a b. a + b;
  sub = λ a b. a - b;
  mul = λ a b. (a * b) / 100;
  div = λ a b. (a * 100) / b;
  clamp = λ low high x. min (max x low) high;
  greater = max;
  round = λ x. x;
  from_int = λ n. n * 100;
  partial_cmp = λ a b. some (compare a b);
  is_nan = λ x. false;
}

abbrev cents_ranks : Ranks cents
cents_ranks = record { rank = λ x. x; partial_rank = λ a b p q. refl }

abbrev rent : Insight ℕ
rent = record {
  id = text "i1";
  kind = text "trend";
  severity = info;
  title = text "Rent";
  summary = text "up";
  source = hkp;
  dataset = text "transactions";
  evidence = [];
  confidence = 80;
  generated_at = 90;
  producer = text "stats";
  experimental = false;
  first_seen = none;
  version = 1;
  evolution = none;
}

abbrev crash : Insight ℕ
crash = record rent { id = text "i0"; severity = critical; generated_at = 10 }

abbrev held : InsightStore ℕ
held = record { inner = (text "i0", crash) ∷ (text "i1", rent) ∷ []; history = [] }

abbrev seconds : ℕ → ℕ
seconds n = n

brief_first :
    (build_brief cents seconds held 1 100).items
    ≡ record { rank = 1; score = 9500; insight = crash } ∷ []
unfolding build_brief score_insight list enumerate sort_by
brief_first = refl
