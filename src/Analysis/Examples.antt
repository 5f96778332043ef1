-- ===== src/Analysis/Examples.antt =====
-- Witnesses and tests of the detectors.
use hkgov_rethink.Prelude.{
  ℕ, ◌%◌, ◌^◌, ◌<◌, ◌≡◌, ◌≢◌, refl, true, false, [], ◌∷◌, some, Text, text, reverse, get_elem?,
  decimal, parse_unsigned, arith,
}
use hkgov_rethink.Common.Sources.{hkma}
use hkgov_rethink.Common.Model.{quarterly}
use hkgov_rethink.Audit.Json.{Serde}
use hkgov_rethink.Analysis.Finding.{Finding, insight_id, fingerprint_bytes}
use hkgov_rethink.Analysis.Periods.{coerce_to_period, prior_year_period}
use hkgov_rethink.Analysis.Gaps.{press_finding, detect_cross_source_gaps}
use hkgov_rethink.Analysis.Order.{detect_cross_source_gaps-order}

a_quarter : coerce_to_period (text "2026-05-31") quarterly ≡ some (text "2026-Q2")
unfolding coerce_to_period parse_unsigned decimal
a_quarter = refl

-- A month of 0 wraps to the 86th quarter.
no_quarter : coerce_to_period (text "2026-00-31") quarterly ≡ some (text "2026-Q86")
unfolding coerce_to_period parse_unsigned decimal
no_quarter = refl

a_year_before : prior_year_period (text "2026-05|HKD") ≡ some (some (text "2025-05"))
unfolding prior_year_period parse_unsigned decimal
a_year_before = refl

abbrev plain : Serde
plain = record {
  f64_of = λ n. 0;
  is_nan = λ f. false;
  is_infinite = λ f. false;
  is_positive = λ f. true;
  json_text = λ v. text "v";
  value_text = λ v. text "w";
  float_text = λ f. text "f";
}

-- A hash that keeps the first byte.
abbrev first_byte : Text → ℕ
first_byte [] = 0
first_byte (c ∷ s) = c % 256

first_byte_bounded : (s : Text) → first_byte s < 16 ^ 16
first_byte_bounded [] = omega arith
first_byte_bounded (c ∷ s) = omega arith

orders_differ :
    first_byte (
      fingerprint_bytes plain first_byte
        (press_finding hkma (text "rates") (text "a" ∷ text "b" ∷ [])).evidence)
    ≢ first_byte (
        fingerprint_bytes plain first_byte
          (press_finding hkma (text "rates") (text "b" ∷ text "a" ∷ [])).evidence)
unfolding fingerprint_bytes press_finding
orders_differ e = absurd (omega (arith, e))

detect_cross_source_gaps-order_example :
    (f : Finding) × (g : Finding) × (get_elem?
        (detect_cross_source_gaps hkma
          (text "rates")
          (λ l. l)
          (text "a" ∷ text "b" ∷ [])
          (text "c" ∷ []))
        0
      ≡ some f)
    × (get_elem?
          (detect_cross_source_gaps hkma
            (text "rates")
            reverse
            (text "a" ∷ text "b" ∷ [])
            (text "c" ∷ []))
          0
        ≡ some g)
    × (insight_id plain first_byte f ≢ insight_id plain first_byte g)
detect_cross_source_gaps-order_example =
    detect_cross_source_gaps-order plain first_byte first_byte_bounded hkma (text "rates")
      (text "a") (text "b") (λ l. l) reverse (text "a" ∷ text "b" ∷ []) (text "c" ∷ []) refl refl
      refl refl orders_differ
