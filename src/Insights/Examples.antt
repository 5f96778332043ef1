-- ===== src/Insights/Examples.antt =====
-- Witnesses and tests of the insight store. The values of the evidence are numbers, and so are the
-- confidences, in hundredths.
use hkgov_rethink.Prelude.{
  ℕ, ◌+◌, ◌-◌, ◌≡◌, refl, false, [], ◌∷◌, none, some, text, text_key, arith, ltb, get,
}
use hkgov_rethink.Common.Sources.{hkp}
use hkgov_rethink.Insights.Types.{Insight, Floats, IsFloats, info, critical, diff_insights}
use hkgov_rethink.Insights.Store.{InsightStore, upsert}
use hkgov_rethink.Insights.Evolution.{upsert_idem}

abbrev hundredths : Floats
hundredths = record {
  sub = λ a b. (a - b) + (b - a);
  abs = λ x. x;
  exceeds = λ a b. ltb b a;
  hundredth = 1;
}

hundredths-IsFloats : IsFloats hundredths
hundredths-IsFloats = record { self_close = λ x. ground arith }

abbrev prices : Insight ℕ
prices = record {
  id = text "i1";
  kind = text "trend";
  severity = info;
  title = text "Prices";
  summary = text "up";
  source = hkp;
  dataset = text "transactions";
  evidence = [];
  confidence = 80;
  generated_at = 10;
  producer = text "stats";
  experimental = false;
  first_seen = none;
  version = 1;
  evolution = none;
}

abbrev stored : Insight ℕ
stored = record prices { first_seen = some 10 }

abbrev risen : Insight ℕ
risen = record prices { severity = critical; generated_at = 20 }

abbrev other : Insight ℕ
other = record prices { id = text "i2" }

abbrev known : InsightStore ℕ
known = record { inner = (text "i1", stored) ∷ []; history = [] }

upsert-risen : (upsert hundredths known risen).1 ≡ 2
unfolding upsert diff_insights get
upsert-risen = refl

upsert_idem_example :
    upsert hundredths (upsert hundredths known risen).0 risen
    ≡ ((upsert hundredths known risen).0, (upsert hundredths known risen).1)
upsert_idem_example = upsert_idem hundredths hundredths-IsFloats known risen
