-- ===== src/Analysis/Gaps.antt =====
-- `detect_cross_source_gaps` of crates/agent/src/analysis.rs. `iterate` is the order in which a
-- `HashSet` of these dates is iterated. 0.6 and 0.5 are given by their bits.
use hkgov_rethink.Prelude.{
  Bool, true, not, List, [], ◌∷◌, ◌++◌, map, some, Text, text, text_key, same, concat, decimal, any,
  select, take, length, is_empty, if◌then◌else◌,
}
use hkgov_rethink.Common.Sources.{DataSource, as_str}
use hkgov_rethink.Insights.Types.{EvidenceRef}
use hkgov_rethink.Audit.Json.{Json}
use hkgov_rethink.Analysis.Finding.{Finding}

-- `set.contains(d)`
abbrev pub has : List Text → Text → Bool
has dates d = any (same d) dates

abbrev pub press_context : Text
press_context = text "press release date without matching data"

abbrev pub data_context : Text
data_context = text "data date without matching press release"

unfoldable pub gap_evidence : Text → Text → EvidenceRef Json
gap_evidence context d = record {
  record_id = d;
  field = text "date";
  value = Json.string d;
  context = some context;
}

abbrev pub unless_empty : List Text → (List Text → Finding) → List Finding
unless_empty dates f = if is_empty dates then [] else f dates ∷ []

module _ (source : DataSource) (dataset : Text) where
  unfoldable pub press_finding : List Text → Finding
  unfolding gap_evidence as_str
  press_finding press_only = record {
    kind = text "cross_source_gap";
    source = source;
    dataset = dataset;
    title = concat (
        decimal (length press_only)
        ∷ text " press date(s) with no matching "
        ∷ as_str source
        ∷ text " data row"
        ∷ []);
    heuristic_summary = concat (
        text "On "
        ∷ decimal (length press_only)
        ∷ text " date(s) a "
        ∷ as_str source
        ∷ text
            " press release was issued but no corresponding statistical data row was published. These are candidate points where the official narrative and the published data diverge."
        ∷ []);
    severity = text "info";
    confidence = 0x3fe3333333333333;
    evidence = map (gap_evidence press_context) (take 10 press_only);
    deterministic = true;
  }

  unfoldable pub data_finding : List Text → Finding
  unfolding gap_evidence as_str
  data_finding data_only = record {
    kind = text "cross_source_gap";
    source = source;
    dataset = dataset;
    title = concat (
        decimal (length data_only)
        ∷ text " data date(s) with no matching "
        ∷ as_str source
        ∷ text " press release"
        ∷ []);
    heuristic_summary = concat (
        text "On "
        ∷ decimal (length data_only)
        ∷ text " date(s) "
        ∷ as_str source
        ∷ text
            " statistical data was published but no press release accompanied it. These are candidate points where the numbers moved without an official explanation."
        ∷ []);
    severity = text "info";
    confidence = 0x3fe0000000000000;
    evidence = map (gap_evidence data_context) (take 10 data_only);
    deterministic = true;
  }

  unfoldable pub detect_cross_source_gaps :
      (List Text → List Text) → List Text → List Text → List Finding
  unfolding press_finding data_finding
  detect_cross_source_gaps iterate press_dates data_dates =
      unless_empty (select (λ d. not (has data_dates d)) (iterate press_dates)) press_finding
      ++ unless_empty (select (λ d. not (has press_dates d)) (iterate data_dates)) data_finding
