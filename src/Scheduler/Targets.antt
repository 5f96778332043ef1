-- ===== src/Scheduler/Targets.antt =====
-- `ScanTarget` of crates/common/src/config.rs, and its defaults. An `f64` is its bits.
use hkgov_rethink.Prelude.{
  ℕ, Bool, false, List, [], ◌∷◌, Option, none, some, Text, text, is_empty, if◌then◌else◌,
}
use hkgov_rethink.Common.Model.{
  Cadence, daily, weekly, monthly, quarterly, biannual, annual, unknown,
}

pub record CompanionRef : Type 0 where
  pub source : Text
  pub dataset : Text

pub data Comparison : Type 0 where
  period_over_period year_over_year : Comparison

pub record ScanTarget : Type 0 where
  pub source : Text
  pub dataset : Text
  pub detector : Text
  pub field : Option Text
  pub threshold : Option ℕ
  pub field_b : Option Text
  pub companion : Option CompanionRef
  pub cadence : Cadence
  pub comparison : Comparison
  pub companion_field : Option Text
  pub join_field : Option Text
  pub experimental : Bool
  pub direction : Option Text

abbrev pub interbank : Text
interbank = text "daily-figures-interbank-liquidity"

abbrev pub jump_target : Text → Text → Text → ℕ → Cadence → ScanTarget
jump_target source dataset field threshold cadence = record {
  source = source;
  dataset = dataset;
  detector = text "series_jump";
  field = some field;
  threshold = some threshold;
  field_b = none;
  companion = none;
  cadence = cadence;
  comparison = period_over_period;
  companion_field = none;
  join_field = none;
  experimental = false;
  direction = none;
}

-- 25, 15, 10 and 50 are given by their bits.
unfoldable pub default_scan_targets : List ScanTarget
default_scan_targets =
    jump_target (text "hkma") interbank (text "hibor_overnight") 0x4039000000000000 daily
    ∷ jump_target (text "hkma") interbank (text "closing_balance") 0x402e000000000000 daily
    ∷ jump_target (text "hkma") (text "capital-market-statistics") (text "eq_mkt_hs_index")
        0x4024000000000000 monthly
    ∷ jump_target (text "hkma") (text "residential-mortgage-survey") (text "delinquency_ratio")
        0x4049000000000000 monthly
    ∷ record {
      source = text "press";
      dataset = text "hkma-press-releases";
      detector = text "cross_source_gap";
      field = some (text "date");
      threshold = none;
      field_b = none;
      companion = some record { source = text "hkma"; dataset = interbank };
      cadence = unknown;
      comparison = period_over_period;
      companion_field = none;
      join_field = none;
      experimental = false;
      direction = none;
    }
    ∷ jump_target (text "immigration") (text "daily-passenger-traffic-totals")
        (text "mainland_visitors") 0x4039000000000000 daily
    ∷ jump_target (text "rvd") (text "price-indices-monthly") (text "all_classes")
        0x4024000000000000 monthly
    ∷ jump_target (text "landregistry") (text "monthly-transactions") (text "total_units")
        0x4039000000000000 monthly
    ∷ []

-- `settings.agent.scan`, or the defaults if it is empty.
unfoldable pub effective_scan : List ScanTarget → List ScanTarget
unfolding default_scan_targets
effective_scan scan = if is_empty scan then default_scan_targets else scan

-- `periods_per_year().round() as usize`, and at least 1
unfoldable pub periods : Cadence → ℕ
periods daily = 252
periods weekly = 52
periods monthly = 12
periods quarterly = 4
periods biannual = 2
periods annual = 1
periods unknown = 1
