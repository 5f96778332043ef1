-- ===== src/Silence/Index.antt =====
-- The index of crates/agent/src/silence.rs. An `f64` is its bits; its operations are a parameter, and
-- the weights and the half-saturation are given by their bits.
use hkgov_rethink.Prelude.{
  ℕ, zero, suc, ◌+◌, ◌-◌, u64_mod, ◌/◌, ◌%◌, Bool, true, false, not, ◌&&◌, List, [], ◌∷◌, ◌++◌, map,
  Option, none, some, Text, text, text_key, same, select, take, length, is_empty, concat,
  if◌then◌else◌,
}
use hkgov_rethink.Common.Sources.{
  DataSource, source_key, hkma, data_gov_hk, press, lands_d, immigration, land_registry, rvd,
  chung_sen, aa_property, hkp, midland,
}
use hkgov_rethink.Insights.Types.{Insight}
use hkgov_rethink.Insights.Store.{InsightStore, list}
use hkgov_rethink.Audit.Json.{Json}
use hkgov_rethink.Audit.Cite.{External}
use hkgov_rethink.Analysis.Periods.{◌>>=◌}
use hkgov_rethink.Silence.Period.{
  insight_in_period, evidence_says_press_only, has_same_period_press,
}

-- `usize as f64`, the arithmetic, `<=`, `clamp` and the iterator's `sum`.
pub record Floats : Type 0 where
  pub of_usize : ℕ → ℕ
  pub add : ℕ → ℕ → ℕ
  pub sub : ℕ → ℕ → ℕ
  pub mul : ℕ → ℕ → ℕ
  pub div : ℕ → ℕ → ℕ
  pub le : ℕ → ℕ → Bool
  pub clamp : ℕ → ℕ → ℕ → ℕ
  pub sum : List ℕ → ℕ

-- 0, 1, 2, 3, 5, 40 and 100
abbrev pub float_0 : ℕ
float_0 = 0

abbrev pub float_1 : ℕ
float_1 = 0x3ff0000000000000

abbrev pub float_2 : ℕ
float_2 = 0x4000000000000000

abbrev pub float_3 : ℕ
float_3 = 0x4008000000000000

abbrev pub float_5 : ℕ
float_5 = 0x4014000000000000

abbrev pub half_saturation : ℕ
half_saturation = 0x4044000000000000

abbrev pub float_100 : ℕ
float_100 = 0x4059000000000000

unfoldable pub source_label : DataSource → Text
source_label hkma = text "HKMA"
source_label immigration = text "Immigration"
source_label land_registry = text "Land Registry"
source_label rvd = text "R&VD"
source_label data_gov_hk = text "data.gov.hk"
source_label press = text "Press"
source_label lands_d = text "LandsD"
source_label chung_sen = text "Chung Sen"
source_label aa_property = text "AA Property"
source_label hkp = text "HKP"
source_label midland = text "Midland"

pub data SilenceSignalKind : Type 0 where
  press_only_gap data_only_gap unattributed_jump missing_data_day : SilenceSignalKind

unfoldable pub weight : SilenceSignalKind → ℕ
weight press_only_gap = float_3
weight data_only_gap = float_1
weight unattributed_jump = float_5
weight missing_data_day = float_2

pub record SilenceSignal : Type 0 where
  pub kind : SilenceSignalKind
  pub count : ℕ
  pub weight : ℕ
  pub contribution : ℕ
  pub evidence_ids : List Text

pub record SilenceIndex : Type 0 where
  pub label : Text
  pub methodology_version : Text
  pub source : DataSource
  pub period : Text
  pub score : ℕ
  pub raw_score : ℕ
  pub computed_at : ℕ
  pub signals : List SilenceSignal
  pub total_events : ℕ

-- `to_le_bytes` of the bits
abbrev pub le_bytes : ℕ → ℕ → Text
le_bytes zero bits = []
le_bytes (suc n) bits = bits % 256 ∷ le_bytes n (bits / 256)

-- The first three bytes of the digest, in hexadecimal digits.
unfoldable pub methodology_fingerprint : External → Text
methodology_fingerprint x = take 6 (
    x.sha (
      concat (
        text "silence-index-v1:"
        ∷ le_bytes 8 half_saturation
        ∷ le_bytes 8 (weight press_only_gap)
        ∷ le_bytes 8 (weight data_only_gap)
        ∷ le_bytes 8 (weight unattributed_jump)
        ∷ le_bytes 8 (weight missing_data_day)
        ∷ [])))

unfoldable pub methodology_version : External → Text
unfolding methodology_fingerprint
methodology_version x = text "1.0." ++ methodology_fingerprint x

abbrev pub total : List ℕ → ℕ
total [] = 0
total (n ∷ ns) = n + total ns

abbrev pub Insights : Type 0
Insights = List (Insight Json)

-- The three lists that the loop fills.
pub record Partition : Type 0 where
  pub press_only : Insights
  pub data_only : Insights
  pub unattributed_jumps : Insights

-- The `match` on the kind, for an insight that is scored.
unfoldable pub sort_into : Insights → Insight Json → Partition → Partition
unfolding evidence_says_press_only has_same_period_press
sort_into all i p =
    if same i.kind (text "cross_source_gap")
    then (if evidence_says_press_only i.evidence
        then record p { press_only = p.press_only ++ i ∷ [] }
        else record p { data_only = p.data_only ++ i ∷ [] })
    else (if same i.kind (text "series_jump") && not (has_same_period_press i all)
        then record p { unattributed_jumps = p.unattributed_jumps ++ i ∷ [] }
        else p)

-- The two `continue`s of the loop: another source, and another period. The test of the period, which
-- may panic, is made for the source's own insights only.
unfoldable pub if_scored : {A : Type 0} → Bool → Option Bool → Option A → Option A → Option A
if_scored false in_period skipped scored = skipped
if_scored true none skipped scored = none
if_scored true (some false) skipped scored = skipped
if_scored true (some true) skipped scored = scored

unfoldable pub partition_from :
    DataSource → Text → Insights → Insights → Partition → Option Partition
partition_from source period all [] p = some p
partition_from source period all (i ∷ is) p =
    let skipped = partition_from source period all is p in
    let scored = partition_from source period all is (sort_into all i p) in
    if_scored (same i.source source) (insight_in_period i period) skipped scored

module _ (f : Floats) where
  unfoldable pub make_signal :
      SilenceSignalKind → ℕ → (Insight Json → Text) → Insights → SilenceSignal
  unfolding weight
  make_signal kind count id_fn backing = record {
    kind = kind;
    count = count;
    weight = weight kind;
    contribution = f.mul (f.of_usize count) (weight kind);
    evidence_ids = select (λ s. not (is_empty s)) (map id_fn backing);
  }

  unfoldable pub squash : ℕ → ℕ
  squash raw =
      if f.le raw float_0
      then float_0
      else (f.clamp
          (f.mul float_100
            (f.sub float_1 (f.div float_1 (f.add float_1 (f.div raw half_saturation)))))
          float_0 float_100)

  module _ (x : External) where
    unfoldable pub index_of : DataSource → Text → ℕ → List SilenceSignal → SilenceIndex
    unfolding source_label methodology_version squash
    index_of source period now signals =
        let raw_score = f.sum (map (λ s. s.contribution) signals) in
        record {
          label = source_label source ++ text " Silence Index";
          methodology_version = methodology_version x;
          source = source;
          period = period;
          score = squash raw_score;
          raw_score = raw_score;
          computed_at = now;
          signals = signals;
          total_events = total (map (λ s. s.count) signals);
        }

    -- The rows in the order of v1.
    unfoldable pub signals_of : Partition → List SilenceSignal
    unfolding make_signal
    signals_of p =
        make_signal press_only_gap (length p.press_only) (λ i. i.id) p.press_only
        ∷ make_signal data_only_gap (length p.data_only) (λ i. i.id) p.data_only
        ∷ make_signal unattributed_jump (length p.unattributed_jumps) (λ i. i.id)
            p.unattributed_jumps
        ∷ make_signal missing_data_day (length p.data_only) (λ i. []) []
        ∷ []

    unfoldable pub build_index_from_insights :
        Insights → DataSource → Text → ℕ → Option SilenceIndex
    unfolding partition_from signals_of index_of
    build_index_from_insights insights source period now = do
      p ←
          partition_from source period insights insights
            record { press_only = []; data_only = []; unattributed_jumps = [] }
      some (index_of source period now (signals_of p))

    -- `list(usize::MAX)`, which is the whole feed.
    unfoldable pub build_index : InsightStore Json → DataSource → Text → ℕ → Option SilenceIndex
    unfolding build_index_from_insights list
    build_index store source period now =
        build_index_from_insights (list store (u64_mod - 1)) source period now

unfoldable pub delta : Floats → SilenceIndex → SilenceIndex → ℕ
delta f idx prior = f.sub idx.score prior.score
