-- ===== src/Ingest.antt =====
-- The ingest of crates/ingest/src/lib.rs: one refresh of a dataset, on schedule or on demand. What
-- the connector's `fetch` returned is an argument, and so are its URL and format and the time; the
-- memory store's `put_dataset` never fails.
pub mod Caps
pub mod Limited
pub mod Refresh
mod Examples
use hkgov_rethink.Prelude.{
  ℕ, Bool, true, false, List, [], ◌∷◌, ◌++◌, map, Option, none, some, Text, text, Map, values, any,
  length, ltb, Result, ok, err, if◌then◌else◌,
}
use hkgov_rethink.Common.Errors.{Error}
use hkgov_rethink.Common.Sources.{DataSource, as_str}
use hkgov_rethink.Common.Model.{
  RecordValue, null, bool, int, float, str, NormalizedRecord, cap_str, max_field_bytes,
}
use hkgov_rethink.Store.Ids.{DatasetId, DatasetLineage, UpstreamFormat}
use hkgov_rethink.Store.Cache.{Cache}
use hkgov_rethink.Store.Memory.{MemoryStore, put_dataset, record_lineage}
use hkgov_rethink.Store.Lineage.{lineage_from}

-- What a connector says of a dataset, and what its `fetch` returned.
pub record Fetched : Type 0 where
  pub upstream_url : Option Text
  pub upstream_format : UpstreamFormat
  pub outcome : Result (List NormalizedRecord) Error

abbrev pub is_oversized : RecordValue → Bool
is_oversized (str s) = ltb max_field_bytes (length s)
is_oversized _ = false

abbrev pub is_dirty : NormalizedRecord → Bool
is_dirty r = any is_oversized (values r.fields)

abbrev pub cap_fields : Map Text RecordValue → Map Text RecordValue
cap_fields fs = map (λ (e : Text × RecordValue). (e.0, cap_str max_field_bytes e.1)) fs

abbrev pub cap_record : NormalizedRecord → NormalizedRecord
cap_record r = record r { fields = cap_fields r.fields }

unfoldable pub sanitize_records : List NormalizedRecord → List NormalizedRecord
sanitize_records records = if any is_dirty records then map cap_record records else records

module _ (sha : Text → Text) (show_float : ℕ → Text) where
  abbrev pub url_or : DatasetId → Option Text → Text
  url_or d none = text "unknown:" ++ (as_str d.source ++ (text "/" ++ d.dataset))
  url_or d (some url) = url

  unfoldable pub build_lineage : DatasetId → Fetched → List NormalizedRecord → ℕ → DatasetLineage
  build_lineage d f records now =
      lineage_from sha show_float d (url_or d f.upstream_url) f.upstream_format (text "1") records
        now

  module _ {C : Type 0} (cache : Cache C) where
    -- The records that came, sanitized, published, and their lineage recorded after that.
    unfoldable pub publish :
        ℕ → ℕ → DatasetId → Fetched → List NormalizedRecord → MemoryStore C → MemoryStore C
    unfolding build_lineage
    publish t u d f records s =
        let clean = sanitize_records records in
        record_lineage cache (build_lineage d f clean t) (put_dataset cache u d clean s)

    -- `t` is the time of the lineage, `u` that of the publication. An error is logged.
    unfoldable pub refresh_once : ℕ → ℕ → DatasetId → Fetched → MemoryStore C → MemoryStore C
    unfolding publish
    refresh_once t u d f s = elim f.outcome [ ok records ↦ publish t u d f records s | err e ↦ s ]

    unfoldable pub fetch_once :
        ℕ → ℕ → DatasetId → Fetched → MemoryStore C → MemoryStore C × Result ℕ Error
    unfolding publish
    fetch_once t u d f s = elim f.outcome [
      | ok records ↦ (publish t u d f records s, ok (length (sanitize_records records)))
      | err e ↦ (s, err e)
    ]
