-- ===== src/Silence/Examples.antt =====
-- Witnesses and tests of the Silence Index. Floats are stood in for by natural numbers.
use hkgov_rethink.Prelude.{
  ◌&&◌, select, length, same, text_key, ◌+◌, ◌-◌, ◌*◌, ◌/◌, ◌≡◌, refl, true, false, List, [], ◌∷◌,
  Option, none, some, Text, text, map, get_elem?, leb, min, max, parse_signed, parse_unsigned,
}
use hkgov_rethink.Common.Sources.{hkma, source_key}
use hkgov_rethink.Insights.Types.{Insight, EvidenceRef, info}
use hkgov_rethink.Audit.Json.{Json, null}
use hkgov_rethink.Audit.Cite.{External}
use hkgov_rethink.Analysis.Gaps.{data_finding, detect_cross_source_gaps}
use hkgov_rethink.Silence.Period.{insight_in_period}
use hkgov_rethink.Silence.Index.{
  press_only_gap, data_only_gap, unattributed_jump, missing_data_day, float_1, float_2, float_3,
  float_5, Floats, SilenceIndex, total, weight, index_of, signals_of, build_index_from_insights,
  if_scored, sort_into,
}
use hkgov_rethink.Silence.Registry.{gap_kind, default_registry, build_index_from_registry}
use hkgov_rethink.Silence.Scope.{then_some, is_unattributed}
use hkgov_rethink.Silence.Equivalence.{resummed, build_index_from_registry-default_registry}
use hkgov_rethink.Silence.Detected.{
  IsDetected, gap, other, in_scope, said, build_index_from_insights-IsDetected,
}

abbrev naturals : Floats
naturals = record {
  of_usize = λ n. n;
  add = ◌+◌;
  sub = ◌-◌;
  mul = ◌*◌;
  div = ◌/◌;
  le = leb;
  clamp = λ x lo hi. min (max x lo) hi;
  sum = total;
}

abbrev plain : External
plain = record {
  serde = record {
    f64_of = λ n. 0;
    is_nan = λ f. false;
    is_infinite = λ f. false;
    is_positive = λ f. true;
    json_text = λ v. text "v";
    value_text = λ v. text "w";
    float_text = λ f. text "f";
  };
  sha = λ s. text "0123456789abcdef";
  year_text = λ t. text "2026";
  long_date = λ t. text "May 1, 2026";
  is_alphanumeric = λ c. true;
  to_lowercase = λ s. s;
}

abbrev insight : Text → Text → List (EvidenceRef Json) → Insight Json
insight id kind evidence = record {
  id = id;
  kind = kind;
  severity = info;
  title = text "t";
  summary = text "s";
  source = hkma;
  dataset = text "rates";
  evidence = evidence;
  confidence = 0;
  generated_at = 10;
  producer = text "heuristic";
  experimental = false;
  first_seen = none;
  version = 1;
  evolution = none;
}

abbrev at : Text → Text → EvidenceRef Json
at id context = record { record_id = id; field = text "f"; value = null; context = some context }

-- A gap of the data side as it is detected, and a jump that no gap covers.
abbrev gap_insight : Insight Json
gap_insight =
    insight (text "g") (text "cross_source_gap")
      (data_finding hkma (text "rates") (text "2026-05-04" ∷ [])).evidence

abbrev jump_insight : Insight Json
jump_insight =
    insight (text "j") (text "series_jump") (at (text "2026-06-01") (text "current period") ∷ [])

abbrev feed : List (Insight Json)
feed = gap_insight ∷ jump_insight ∷ []

abbrev built : Option SilenceIndex
built = build_index_from_insights naturals plain feed hkma (text "2026-Q2") 0

in_quarter : map (λ i. insight_in_period i (text "2026-Q2")) feed ≡ some true ∷ some true ∷ []
unfolding insight_in_period data_finding parse_signed parse_unsigned
in_quarter = refl

-- A record id that is cut inside a character by `[..4]` is a panic.
panics :
    insight_in_period
      (insight
        (text "x")
        (text "series_jump")
        (at (0xe4 ∷ 0xb8 ∷ 0xad ∷ 0xe7 ∷ 0x92 ∷ 0xb0 ∷ 0xe5 ∷ 0x8d ∷ 0x80 ∷ []) [] ∷ []))
      (text "2026-Q2")
    ≡ none
unfolding insight_in_period parse_signed parse_unsigned
panics = refl

feed_counts :
    then_some (λ (idx : SilenceIndex). map (λ s. s.count) idx.signals) built
    ≡ some (1 ∷ 0 ∷ 1 ∷ 0 ∷ [])
unfolding build_index_from_insights if_scored sort_into insight_in_period data_finding parse_signed
    parse_unsigned
feed_counts = refl

abbrev index_now : SilenceIndex
index_now = index_of naturals plain hkma (text "2026-Q2") 0 (
    signals_of naturals plain record {
      press_only = gap_insight ∷ [];
      data_only = [];
      unattributed_jumps = jump_insight ∷ [];
    })

built_now : built ≡ some index_now
unfolding build_index_from_insights if_scored sort_into insight_in_period data_finding parse_signed
    parse_unsigned
built_now = refl

found :
    get_elem? (detect_cross_source_gaps hkma (text "rates") (λ l. l) [] (text "2026-05-04" ∷ [])) 0
    ≡ some (data_finding hkma (text "rates") (text "2026-05-04" ∷ []))
unfolding detect_cross_source_gaps
found = refl

gap_detected : IsDetected gap_insight
gap_detected =
    gap hkma (text "rates") (λ l. l) [] (text "2026-05-04" ∷ []) 0
      (data_finding hkma (text "rates") (text "2026-05-04" ∷ [])) found refl

build_index_from_insights-IsDetected_example :
    map said index_now.signals
    ≡ (
      press_only_gap,
      (
        length (select (λ i. in_scope hkma (text "2026-Q2") i && same i.kind gap_kind) feed),
        float_3,
      ),
    )
      ∷ (data_only_gap, (0, float_1))
      ∷ (
        unattributed_jump,
        (
          length (select (λ i. in_scope hkma (text "2026-Q2") i && is_unattributed feed i) feed),
          float_5,
        ),
      )
      ∷ (missing_data_day, (0, float_2))
      ∷ []
build_index_from_insights-IsDetected_example =
    build_index_from_insights-IsDetected naturals plain hkma (text "2026-Q2") 0 feed
      (gap_detected, (other refl, tt)) built_now

build_index_from_registry-default_registry_example :
    build_index_from_registry naturals plain feed hkma (text "2026-Q2") 0 default_registry
    ≡ then_some (resummed naturals plain) built
unfolding weight
build_index_from_registry-default_registry_example =
    build_index_from_registry-default_registry naturals plain feed hkma (text "2026-Q2") 0
