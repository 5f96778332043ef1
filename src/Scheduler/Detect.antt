-- ===== src/Scheduler/Detect.antt =====
-- `run_one_target` of crates/agent/src/scheduler.rs and what it calls. The detectors that compute with
-- `f64` are an interface; `iterate` is the order in which a `HashSet` is iterated. What is only
-- logged is left out. `none` is a panic, in a period key.
use hkgov_rethink.Prelude.{
  ℕ, Bool, true, false, List, [], ◌∷◌, map, Option, none, some, Text, text, text_key, same, get,
  is_empty, if◌then◌else◌,
}
use hkgov_rethink.Common.Sources.{DataSource, parse}
use hkgov_rethink.Common.Model.{NormalizedRecord, RecordValue, Cadence}
use hkgov_rethink.Store.Cache.{Cache}
use hkgov_rethink.Store.Memory.{MemoryStore}
use hkgov_rethink.Analysis.Finding.{Finding}
use hkgov_rethink.Analysis.Periods.{◌>>=◌, coerce_to_period}
use hkgov_rethink.Analysis.Gaps.{detect_cross_source_gaps}
use hkgov_rethink.Scheduler.Targets.{ScanTarget, period_over_period, year_over_year, periods}
use hkgov_rethink.Scheduler.Collect.{collect_all_records}

-- A detector over the records of one dataset.
abbrev pub Detector : Type 0
Detector = DataSource → Text → List NormalizedRecord → List Finding

pub record Detectors : Type 0 where
  -- `> 0.0` and `as usize` of an `f64`
  pub positive : ℕ → Bool
  pub to_usize : ℕ → ℕ
  pub iterate : List Text → List Text
  pub series_jumps_cadenced : Text → ℕ → Cadence → Detector
  pub year_over_year : Text → ℕ → ℕ → Detector
  pub outliers : Text → ℕ → Detector
  pub seasonality : Text → ℕ → Detector
  pub correlation : Text → Text → ℕ → Detector
  -- The direction: above, or below.
  pub threshold_crossing : Text → ℕ → Bool → Detector
  pub trend_break : Text → ℕ → Detector
  pub proxy_divergence :
      Text → DataSource → Text → Text → List NormalizedRecord → Option Text → ℕ → ℕ → Detector
  pub benchmark_deviation : Text → Text → List NormalizedRecord → Option Text → ℕ → Detector

abbrev pub text_or : Text → Option Text → Text
text_or other none = other
text_or other (some s) = s

-- `fields.get(date_field)` where it is a text
unfoldable pub dates_of : Text → List NormalizedRecord → List Text
dates_of date_field [] = []
dates_of date_field (r ∷ rs) =
    let rest = dates_of date_field rs in
    elim (get date_field r.fields) [ some (RecordValue.str s) ↦ s ∷ rest | other ↦ rest ]

unfoldable pub coerce_all : Cadence → List Text → Option (List Text)
unfolding coerce_to_period
coerce_all cadence [] = some []
coerce_all cadence (d ∷ ds) = do
  p ← coerce_to_period d cadence
  ps ← coerce_all cadence ds
  some (p ∷ ps)

abbrev pub direction_of : Option Text → Bool
direction_of none = true
direction_of (some s) = if same s (text "below") then false else true

module _ {C : Type 0} (cache : Cache C) (ds : Detectors) (store : MemoryStore C) where
  abbrev pub all_records : DataSource → Text → List NormalizedRecord
  all_records source dataset =
      elim (collect_all_records cache store record { source = source; dataset = dataset }) [
        | some rs ↦ rs
        | none ↦ []
      ]

  -- `if threshold > 0.0 { threshold } else { other }`
  abbrev pub threshold_or : ℕ → ℕ → ℕ
  threshold_or threshold other = if ds.positive threshold then threshold else other

  abbrev pub threshold_of : ScanTarget → ℕ
  threshold_of target = elim target.threshold [ some t ↦ t | none ↦ 0 ]

  unfoldable pub run_cross_source_gap : DataSource → ScanTarget → Option (List Finding)
  unfolding dates_of coerce_all detect_cross_source_gaps parse
  run_cross_source_gap source target = elim target.companion [
    | none ↦ some []
    | some companion ↦ elim (parse companion.source) [
      | none ↦ some []
      | some comp_source ↦
          let press_dates =
            dates_of (text_or (text "date") target.field) (all_records source target.dataset) in
          let data_records = all_records comp_source companion.dataset in
          if is_empty press_dates then some [] else if is_empty data_records then some [] else (do
            press_periods ← coerce_all target.cadence press_dates
            data_periods ← coerce_all target.cadence (map (λ r. r.record_id) data_records)
            some (
                detect_cross_source_gaps comp_source companion.dataset ds.iterate press_periods
                  data_periods))
    ]
  ]

  unfoldable pub run_proxy_divergence : DataSource → ScanTarget → List Finding
  unfolding parse
  run_proxy_divergence source target = elim target.field [
    | none ↦ []
    | some field ↦ elim target.companion_field [
      | none ↦ []
      | some companion_field ↦ elim target.companion [
        | none ↦ []
        | some companion ↦ elim (parse companion.source) [
          | none ↦ []
          | some comp_source ↦
              ds.proxy_divergence field comp_source companion.dataset companion_field
                (all_records comp_source companion.dataset) target.join_field
                (threshold_or (threshold_of target) 0x4014000000000000) 0x3fe3333333333333 source
                target.dataset (all_records source target.dataset)
        ]
      ]
    ]
  ]

  unfoldable pub run_benchmark_deviation : DataSource → ScanTarget → List Finding
  unfolding parse
  run_benchmark_deviation source target = elim target.field [
    | none ↦ []
    | some field ↦ elim target.companion_field [
      | none ↦ []
      | some benchmark_field ↦ elim target.companion [
        | none ↦ []
        | some bench ↦ elim (parse bench.source) [
          | none ↦ []
          | some bench_source ↦
              ds.benchmark_deviation field benchmark_field (all_records bench_source bench.dataset)
                target.join_field (threshold_or (threshold_of target) 0x4024000000000000) source
                target.dataset (all_records source target.dataset)
        ]
      ]
    ]
  ]

  -- 15, the default percentage
  unfoldable pub run_year_over_year : ScanTarget → Text → ℕ → Detector
  unfolding periods
  run_year_over_year target field threshold =
      ds.year_over_year field (threshold_or threshold 0x402e000000000000) (periods target.cadence)

  unfoldable pub run_series_jump : ScanTarget → Text → ℕ → Detector
  unfolding run_year_over_year
  run_series_jump target field threshold = elim target.comparison [
    | year_over_year ↦ run_year_over_year target field threshold
    | period_over_period ↦
        ds.series_jumps_cadenced field (threshold_or threshold 0x4039000000000000) target.cadence
  ]

  abbrev pub no_findings : Detector
  no_findings source dataset records = []

  -- The dispatch on the detector's name, for those over one dataset.
  unfoldable pub dispatch : ScanTarget → Text → ℕ → Detector
  unfolding run_series_jump run_year_over_year
  dispatch target field threshold =
      let named = λ (name : Text). same target.detector name in
      if named (text "series_jump")
      then run_series_jump target field threshold
      else if named (text "year_over_year")
      then run_year_over_year target field threshold
      else if named (text "outlier")
      then ds.outliers field (threshold_or threshold 0x400c000000000000)
      else if named (text "seasonality")
      then ds.seasonality field (threshold_or threshold 0x3fe3333333333333)
      else if named (text "correlation")
      then elim target.field_b [
        | none ↦ no_findings
        | some field_b ↦ ds.correlation field field_b (threshold_or threshold 0x3fd3333333333333)
      ]
      else if named (text "threshold_crossing")
      then ds.threshold_crossing field threshold (direction_of target.direction)
      else if named (text "trend_break")
      then ds.trend_break field (if ds.positive threshold then ds.to_usize threshold else 3)
      else no_findings

  unfoldable pub run_one_target : DataSource → ScanTarget → Option (List Finding)
  unfolding run_cross_source_gap run_proxy_divergence run_benchmark_deviation dispatch
  run_one_target source target =
      if same target.detector (text "cross_source_gap")
      then run_cross_source_gap source target
      else if same target.detector (text "proxy_divergence")
      then some (run_proxy_divergence source target)
      else if same target.detector (text "benchmark_deviation")
      then some (run_benchmark_deviation source target)
      else (let records = all_records source target.dataset in
          if is_empty records then some [] else elim target.field [
            | none ↦ some []
            | some field ↦
                some (dispatch target field (threshold_of target) source target.dataset records)
          ])
