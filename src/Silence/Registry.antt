-- ===== src/Silence/Registry.antt =====
-- The registry of signals of crates/agent/src/transparency.rs, and the index that is built from it.
use hkgov_rethink.Prelude.{
  ℕ, Bool, true, false, not, List, [], ◌∷◌, ◌++◌, map, Option, none, some, Text, text, text_key,
  same, any, contains, select, length, is_empty, if◌then◌else◌, Map, get, insert, values,
}
use hkgov_rethink.Common.Sources.{DataSource, source_key}
use hkgov_rethink.Insights.Types.{Insight, EvidenceRef}
use hkgov_rethink.Audit.Json.{Json}
use hkgov_rethink.Audit.Cite.{External, context_of}
use hkgov_rethink.Analysis.Periods.{◌>>=◌}
use hkgov_rethink.Silence.Period.{
  insight_in_period, evidence_says_press_only, has_same_period_press,
}
use hkgov_rethink.Silence.Index.{
  Floats, SilenceSignal, SilenceSignalKind, SilenceIndex, Insights, press_only_gap, data_only_gap,
  unattributed_jump, missing_data_day, weight, index_of, if_scored,
}

-- The trait's methods.
pub record TransparencySignal : Type 0 where
  pub detector_kind : Text
  pub weight : ℕ
  pub label : SilenceSignalKind
  pub includes : Insight Json → Insights → Bool
  pub missing_data_days : Insights → ℕ

abbrev pub TransparencySignalRegistry : Type 0
TransparencySignalRegistry = Map Text TransparencySignal

unfoldable pub register :
    TransparencySignal → TransparencySignalRegistry → TransparencySignalRegistry
register signal reg = insert signal.detector_kind signal reg

unfoldable pub find_signal : Text → TransparencySignalRegistry → Option TransparencySignal
find_signal detector_kind reg = get detector_kind reg

-- Sorted by the kind.
unfoldable pub all_signals : TransparencySignalRegistry → List TransparencySignal
all_signals reg = values reg

abbrev pub gap_kind : Text
gap_kind = text "cross_source_gap"

abbrev pub says_press : Insight Json → Bool
says_press i = any (λ (e : EvidenceRef Json). contains (context_of e) (text "press")) i.evidence

unfoldable pub press_only_signal : TransparencySignal
unfolding weight
press_only_signal = record {
  detector_kind = gap_kind;
  weight = weight press_only_gap;
  label = press_only_gap;
  includes = λ i all. says_press i;
  missing_data_days = λ is. 0;
}

unfoldable pub data_only_signal : TransparencySignal
unfolding weight press_only_signal
data_only_signal = record {
  detector_kind = gap_kind;
  weight = weight data_only_gap;
  label = data_only_gap;
  includes = λ i all. not (press_only_signal.includes i all);
  missing_data_days = length;
}

unfoldable pub unattributed_jump_signal : TransparencySignal
unfolding weight has_same_period_press
unattributed_jump_signal = record {
  detector_kind = text "series_jump";
  weight = weight unattributed_jump;
  label = unattributed_jump;
  includes = λ i all. not (has_same_period_press i all);
  missing_data_days = λ is. 0;
}

-- The second signal of a kind takes the place of the first.
unfoldable pub default_registry : TransparencySignalRegistry
unfolding register press_only_signal data_only_signal unattributed_jump_signal
default_registry =
    register unattributed_jump_signal (register data_only_signal (register press_only_signal []))

-- `Clone` forgets what was registered.
unfoldable pub clone : TransparencySignalRegistry → TransparencySignalRegistry
unfolding default_registry
clone reg = default_registry

abbrev pub or_empty : Option Insights → Insights
or_empty none = []
or_empty (some v) = v

abbrev pub entry_or : Text → Map Text Insights → Insights
entry_or kind m = or_empty (get kind m)

-- `by_kind`, as the loop fills it.
unfoldable pub kinds_from :
    DataSource → Text → Insights → Map Text Insights → Option (Map Text Insights)
kinds_from source period [] m = some m
kinds_from source period (i ∷ is) m =
    let skipped = kinds_from source period is m in
    let filed = kinds_from source period is (insert i.kind (entry_or i.kind m ++ i ∷ []) m) in
    if_scored (same i.source source) (insight_in_period i period) skipped filed

abbrev pub is_missing : SilenceSignalKind → Bool
is_missing missing_data_day = true
is_missing _ = false

-- `kind_weight` agrees with the weight of silence.rs.
unfoldable pub kind_weight : SilenceSignalKind → ℕ
unfolding weight
kind_weight k = weight k

module _ (f : Floats) where
  unfoldable pub make_signal_with_weight : SilenceSignalKind → ℕ → ℕ → Insights → SilenceSignal
  make_signal_with_weight kind count weight backing = record {
    kind = kind;
    count = count;
    weight = weight;
    contribution = f.mul (f.of_usize count) weight;
    evidence_ids = select (λ s. not (is_empty s)) (map (λ i. i.id) backing);
  }

  unfoldable pub make_signal : SilenceSignalKind → ℕ → Insights → SilenceSignal
  unfolding make_signal_with_weight kind_weight
  make_signal kind count backing = make_signal_with_weight kind count (kind_weight kind) backing

  -- The rows of the registered signals, but for the kind that is handled before them.
  unfoldable pub registered_rows :
      Insights → Map Text Insights → List TransparencySignal → List SilenceSignal
  unfolding make_signal
  registered_rows insights by_kind [] = []
  registered_rows insights by_kind (s ∷ ss) =
      let rest = registered_rows insights by_kind ss in
      let included = select (λ i. s.includes i insights) (entry_or s.detector_kind by_kind) in
      if same s.detector_kind gap_kind
      then rest
      else if is_missing s.label
      then rest
      else make_signal s.label (length included) included ∷ rest

  unfoldable pub gap_rows : Map Text Insights → List SilenceSignal
  unfolding make_signal make_signal_with_weight evidence_says_press_only
  gap_rows by_kind =
      let gaps = entry_or gap_kind by_kind in
      let press_only = select (λ i. evidence_says_press_only i.evidence) gaps in
      let data_only = select (λ i. not (evidence_says_press_only i.evidence)) gaps in
      make_signal press_only_gap (length press_only) press_only
      ∷ make_signal data_only_gap (length data_only) data_only
      ∷ make_signal_with_weight missing_data_day (length data_only) (weight missing_data_day) []
      ∷ []

  module _ (x : External) where
    unfoldable pub build_index_from_registry :
        Insights → DataSource → Text → ℕ → TransparencySignalRegistry → Option SilenceIndex
    unfolding kinds_from gap_rows registered_rows all_signals index_of
    build_index_from_registry insights source period now registry = do
      by_kind ← kinds_from source period insights []
      some (
          index_of f x source period now
            (gap_rows by_kind ++ registered_rows insights by_kind (all_signals registry)))
