-- ===== src/Audit/Cite.antt =====
-- crates/agent/src/cite.rs: the citation of an insight, and the hash of its evidence.
use hkgov_rethink.Prelude.{
  ℕ, ◌+◌, ◌/◌, ◌%◌, Bool, true, false, ◌&&◌, ◌||◌, List, [], ◌∷◌, ◌++◌, map, reverse, Option, none,
  some, Text, text, text_key, same, contains, concat, join, Map, sort_by, select, take, pair_key,
  ltb, leb, ◌==◌, if◌then◌else◌, ℤ, pos, parse_signed, show_ℤ,
}
use hkgov_rethink.Common.Sources.{DataSource}
use hkgov_rethink.Common.Model.{RecordValue, NormalizedRecord}
use hkgov_rethink.Insights.Types.{Insight, EvidenceRef}
use hkgov_rethink.Audit.Json.{
  Json, Serde, as_f64, canonical_json_string, canonical_record_value_string,
}

-- What the code takes from libraries: `serde_json`, SHA-256 in hexadecimal digits, `chrono`'s year and
-- long date of a time, and Unicode's tables for one character.
pub record External : Type 0 where
  pub serde : Serde
  pub sha : Text → Text
  pub year_text : ℕ → Text
  pub long_date : ℕ → Text
  pub is_alphanumeric : Text → Bool
  pub to_lowercase : Text → Text

abbrev pub cite_version : Text
cite_version = text "1.0"

pub data CitationFormat : Type 0 where
  bibtex ris apa chicago markdown : CitationFormat

unfoldable pub all : List CitationFormat
all = bibtex ∷ ris ∷ apa ∷ chicago ∷ markdown ∷ []

pub record ReproducibilityManifest : Type 0 where
  pub cite_version : Text
  pub detector : Text
  pub source : DataSource
  pub dataset : Text
  pub threshold : Option ℕ
  pub data_sha256 : Text
  pub runtime_version : Option Text
  pub generated_at : ℕ

pub record Citation : Type 0 where
  pub permalink : Text
  pub insight_id : Text
  pub cite_version : Text
  pub title : Text
  pub publisher : Text
  pub year : ℤ
  pub generated_at : ℕ
  pub manifest : ReproducibilityManifest
  pub experimental : Bool

-- `as_deref().unwrap_or("")`
abbrev pub context_of : EvidenceRef Json → Text
context_of e = elim e.context [ none ↦ [] | some s ↦ s ]

-- The characters of a text, each as its bytes in UTF-8.
abbrev pub continues : Text → Bool
continues [] = false
continues (b ∷ s) = leb 128 b && ltb b 192

abbrev pub attach : ℕ → Bool → List Text → List Text
attach b true (c ∷ cs) = (b ∷ c) ∷ cs
attach b _ cs = (b ∷ []) ∷ cs

abbrev pub chars : Text → List Text
chars [] = []
chars (b ∷ s) = attach b (continues s) (chars s)

unfoldable pub short_hash : Text → Text
short_hash full = concat (take 12 (chars full))

abbrev pub is_ascii_alphanumeric : ℕ → Bool
is_ascii_alphanumeric b =
    (leb b'0' b && leb b b'9') || (leb b'A' b && leb b b'Z') || (leb b'a' b && leb b b'z')

abbrev pub is_unreserved : ℕ → Bool
is_unreserved b = is_ascii_alphanumeric b || b == b'-' || b == b'_' || b == b'.' || b == b'~'

-- `{:X}` of a number below 16
abbrev pub upper_hex : ℕ → ℕ
upper_hex d = if ltb d 10 then 48 + d else 55 + d

unfoldable pub url_encode : Text → Text
url_encode [] = []
url_encode (b ∷ s) =
    if is_unreserved b
    then b ∷ url_encode s
    else b'%' ∷ upper_hex (b / 16) ∷ upper_hex (b % 16) ∷ url_encode s

abbrev pub drop_slashes : Text → Text
drop_slashes [] = []
drop_slashes (b ∷ s) = if b == b'/' then drop_slashes s else b ∷ s

-- `trim_end_matches('/')`
unfoldable pub trim_end_slashes : Text → Text
trim_end_slashes s = reverse (drop_slashes (reverse s))

unfoldable pub is_synthetic_evidence_id : Text → Bool
is_synthetic_evidence_id id =
    same id (text "series") || same id (text "threshold") || same id (text "joined_history")

abbrev pub Row : Type 0
Row = Text × (Text × Text)

module _ (x : External) where
  unfoldable pub derive_threshold : List (EvidenceRef Json) → Option ℕ
  derive_threshold [] = none
  derive_threshold (e ∷ es) =
      let rest = derive_threshold es in
      if contains (context_of e) (text "threshold")
      then elim (as_f64 x.serde e.value) [ some f ↦ some f | none ↦ rest ]
      else rest

  abbrev pub row : EvidenceRef Json → Row
  row e = (e.record_id, (e.field, canonical_json_string x.serde e.value))

  abbrev pub row_bytes : List Row → Text
  row_bytes [] = []
  row_bytes ((rid, (field, val)) ∷ rows) = rid ++ 0 ∷ (field ++ 0 ∷ (val ++ 0 ∷ row_bytes rows))

  -- What the evidence adds to the hasher: the rows in the order of tuples.
  unfoldable pub evidence_bytes : List (EvidenceRef Json) → Text
  evidence_bytes evidence = row_bytes (sort_by {A = Row} pair_key.cmp (map row evidence))

  unfoldable pub reproducibility_hash : List (EvidenceRef Json) → Text
  unfolding evidence_bytes
  reproducibility_hash evidence = x.sha (evidence_bytes evidence)

  abbrev pub field_pairs : Map Text RecordValue → List (Text × Text)
  field_pairs [] = []
  field_pairs ((k, v) ∷ fs) = (k, canonical_record_value_string x.serde v) ∷ field_pairs fs

  abbrev pub assignment : Text × Text → Text
  assignment (k, v) = k ++ b'=' ∷ v

  unfoldable pub canonical_record_values : NormalizedRecord → Text
  canonical_record_values rec =
      join (text ";")
        (map assignment (sort_by {A = Text × Text} pair_key.cmp (field_pairs rec.fields)))

  abbrev pub record_row : NormalizedRecord → Text × Text
  record_row r = (r.record_id, canonical_record_values r)

  abbrev pub record_row_bytes : List (Text × Text) → Text
  record_row_bytes [] = []
  record_row_bytes ((rid, vals) ∷ rows) = rid ++ 1 ∷ (vals ++ 1 ∷ record_row_bytes rows)

  unfoldable pub record_bytes : List NormalizedRecord → Text
  record_bytes records =
      record_row_bytes (sort_by {A = Text × Text} pair_key.cmp (map record_row records))

  unfoldable pub evidence_hash : List (EvidenceRef Json) → List NormalizedRecord → Text
  unfolding evidence_bytes record_bytes
  evidence_hash evidence records = x.sha (evidence_bytes evidence ++ record_bytes records)

  -- `parse().unwrap_or(1970)` of the year as an `i32`.
  abbrev pub year_of : ℕ → ℤ
  year_of at = elim (parse_signed 2147483647 (x.year_text at)) [ some y ↦ y | none ↦ pos 1970 ]

  unfoldable pub build_citation :
      Insight Json → List NormalizedRecord → Text → Option Text → Citation
  unfolding trim_end_slashes url_encode evidence_hash derive_threshold
  build_citation insight records base_url runtime_version = record {
    permalink = trim_end_slashes base_url ++ (text "/cite/" ++ url_encode insight.id);
    insight_id = insight.id;
    cite_version = cite_version;
    title = insight.title;
    publisher = text "HK City Pulse";
    year = year_of insight.generated_at;
    generated_at = insight.generated_at;
    manifest = record {
      cite_version = cite_version;
      detector = insight.kind;
      source = insight.source;
      dataset = insight.dataset;
      threshold = derive_threshold insight.evidence;
      data_sha256 = evidence_hash insight.evidence records;
      runtime_version = runtime_version;
      generated_at = insight.generated_at;
    };
    experimental = insight.experimental;
  }

  unfoldable pub citation_key : Citation → Text
  citation_key c =
      let id_hash = select x.is_alphanumeric (chars c.insight_id) in
      text "hkp" ++ (show_ℤ c.year ++ x.to_lowercase (concat (take 16 id_hash)))
