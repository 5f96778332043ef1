-- ===== src/Scheduler/Examples.antt =====
-- Witnesses and tests of a pass: one dataset of one record, in which the detector of jumps sees one
-- finding. The world counts the calls of the client.
use hkgov_rethink.Prelude.{ℕ, ◌+◌, ◌≡◌, refl, true, false, [], ◌∷◌, none, some, text, text_key, ok}
use hkgov_rethink.Common.Sources.{hkma, parse}
use hkgov_rethink.Common.Model.{NormalizedRecord, Cadence}
use hkgov_rethink.Store.Ids.{DatasetId}
use hkgov_rethink.Store.Cache.{Cache}
use hkgov_rethink.Store.Memory.{MemoryStore, get_page}
use hkgov_rethink.Audit.Provenance.{ProvenanceStore}
use hkgov_rethink.Analysis.Finding.{Finding}
use hkgov_rethink.Scheduler.Targets.{ScanTarget, Comparison, effective_scan}
use hkgov_rethink.Scheduler.Collect.{collect_all_records, collect_all_records_lem}
use hkgov_rethink.Scheduler.Detect.{Detectors, run_one_target}
use hkgov_rethink.Scheduler.Pass.{Framer, Build, PassState, scan_all, run_pass}
use hkgov_rethink.Scheduler.Honest.{IsTraced, run_pass-IsTraced}

abbrev row : NormalizedRecord
row = record {
  source = hkma;
  dataset = text "rates";
  record_id = text "2026-05";
  fields = [];
  fetched_at = 5;
}

-- A cache that holds the record under every id.
abbrev held : Cache (Unit {0})
held = record {
  lookup = λ d u. some record { records = row ∷ []; refreshed_at = 0 };
  store = λ d e u. u;
}

abbrev store : MemoryStore (Unit {0})
store = record { records = tt; registry = []; lineage = [] }

abbrev rates : DatasetId
rates = record { source = hkma; dataset = text "rates" }

collect_all_records_lem_example : collect_all_records held store rates ≡ some (row ∷ [])
collect_all_records_lem_example = collect_all_records_lem held store rates

abbrev jump : Finding
jump = record {
  kind = text "series_jump";
  source = hkma;
  dataset = text "rates";
  title = text "t";
  heuristic_summary = text "s";
  severity = text "warning";
  confidence = 1;
  evidence = [];
  deterministic = true;
}

abbrev detectors : Detectors
detectors = record {
  positive = λ t. true;
  to_usize = λ t. 3;
  iterate = λ l. l;
  series_jumps_cadenced = λ field t c source dataset rs. jump ∷ [];
  year_over_year = λ field t n source dataset rs. [];
  outliers = λ field t source dataset rs. [];
  seasonality = λ field t source dataset rs. [];
  correlation = λ field g t source dataset rs. [];
  threshold_crossing = λ field t above source dataset rs. [];
  trend_break = λ field n source dataset rs. [];
  proxy_divergence = λ field cs cd cf crs j t r source dataset rs. [];
  benchmark_deviation = λ field bf brs j t source dataset rs. [];
}

abbrev build : Build
build = record {
  external = record {
    serde = record {
      f64_of = λ n. 0;
      is_nan = λ f. false;
      is_infinite = λ f. false;
      is_positive = λ f. true;
      json_text = λ v. text "v";
      value_text = λ v. text "w";
      float_text = λ f. text "f";
    };
    sha = λ s. s;
    year_text = λ t. text "2026";
    long_date = λ t. text "May 1, 2026";
    is_alphanumeric = λ c. true;
    to_lowercase = λ s. s;
  };
  sip = λ s. 0;
  clamp01 = λ c. c;
  floats = record { sub = λ x y. 0; abs = λ x. x; exceeds = λ x y. false; hundredth = 1 };
  package_version = text "1.0";
}

abbrev client : Framer ℕ
client = record {
  name = text "llm";
  frame = λ f w. (ok record { summary = text "framed"; confidence = 2 }, w + 1);
  now = λ w. w;
}

abbrev target : ScanTarget
target = record {
  source = text "hkma";
  dataset = text "rates";
  detector = text "series_jump";
  field = some (text "f");
  threshold = none;
  field_b = none;
  companion = none;
  cadence = Cadence.daily;
  comparison = Comparison.period_over_period;
  companion_field = none;
  join_field = none;
  experimental = false;
  direction = none;
}

abbrev before : PassState ℕ
before = record {
  insights = record { inner = []; history = [] };
  provenance = some [];
  alerts = none;
  stored = [];
  world = 0;
}

scanned : scan_all build client held detectors store (target ∷ []) ≡ some ((jump, false) ∷ [])
unfolding scan_all run_one_target collect_all_records get_page parse
scanned = refl

run_pass-IsTraced_example :
    (s' : PassState ℕ) × (q : ProvenanceStore) × (run_pass build client held detectors store
        (target ∷ [])
        before
      ≡ some s')
    × IsTraced q s'
unfolding effective_scan
run_pass-IsTraced_example =
    run_pass-IsTraced build client held detectors store (target ∷ []) [] before ((jump, false) ∷ [])
      refl tt (scanned)
