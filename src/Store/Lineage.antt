-- ===== src/Store/Lineage.antt =====
-- `lineage_from` and `content_hash` of crates/store/src/lineage.rs. SHA-256 in hexadecimal digits is
-- the parameter `sha`; `show_float` is `canonical_f64`, which shows the bits of an `f64` by
-- `serde_json`, with names of its own for NaN and the infinities.
use hkgov_rethink.Prelude.{
  ℕ, ◌-◌, ◌^◌, Bool, true, false, List, [], ◌∷◌, ◌++◌, Text, text, text_cmp, Map, Ordering, decimal,
  ltb, if◌then◌else◌, length,
}
use hkgov_rethink.Common.Model.{RecordValue, null, bool, int, float, str, NormalizedRecord}
use hkgov_rethink.Store.Ids.{DatasetId, DatasetLineage, UpstreamFormat}

-- The decimal of an `i64` that is given by its bits.
abbrev pub show_int : ℕ → Text
show_int n = if ltb n (2 ^ 63) then decimal n else text "-" ++ decimal (2 ^ 64 - n)

abbrev pub show_bool : Bool → Text
show_bool true = text "true"
show_bool false = text "false"

-- `sort_by`, which is stable: a record goes before those that do not come before it.
unfoldable pub insert_record : NormalizedRecord → List NormalizedRecord → List NormalizedRecord
insert_record r [] = r ∷ []
insert_record r (s ∷ rs) = elim (text_cmp r.record_id s.record_id) [
  | Ordering.gt ↦ s ∷ insert_record r rs
  | Ordering.lt ↦ r ∷ s ∷ rs
  | Ordering.eq ↦ r ∷ s ∷ rs
]

unfoldable pub sort_records : List NormalizedRecord → List NormalizedRecord
unfolding insert_record
sort_records [] = []
sort_records (r ∷ rs) = insert_record r (sort_records rs)

module _ (sha : Text → Text) (show_float : ℕ → Text) where
  unfoldable pub canonical_record_value : RecordValue → Text
  canonical_record_value null = text "null"
  canonical_record_value (bool b) = show_bool b
  canonical_record_value (int n) = show_int n
  canonical_record_value (float f) = show_float f
  canonical_record_value (str s) = s

  -- What the fields of a record add to the hasher.
  unfoldable pub field_bytes : Map Text RecordValue → Text
  field_bytes [] = []
  field_bytes ((k, v) ∷ fs) = k ++ 0 ∷ canonical_record_value v ++ 0 ∷ field_bytes fs

  unfoldable pub record_bytes : List NormalizedRecord → Text
  unfolding field_bytes
  record_bytes [] = []
  record_bytes (r ∷ rs) = r.record_id ++ 1 ∷ field_bytes r.fields ++ 1 ∷ record_bytes rs

  unfoldable pub content_hash : List NormalizedRecord → Text
  unfolding sort_records record_bytes
  content_hash records = sha (record_bytes (sort_records records))

  unfoldable pub lineage_from :
      DatasetId → Text → UpstreamFormat → Text → List NormalizedRecord → ℕ → DatasetLineage
  lineage_from d url format version records now = record {
    source = d.source;
    dataset = d.dataset;
    upstream_url = url;
    upstream_format = format;
    schema_version = version;
    content_sha256 = content_hash records;
    last_fetched_at = now;
    record_count_at_fetch = length records;
  }
