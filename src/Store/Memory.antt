-- ===== src/Store/Memory.antt =====
-- `MemoryStore` of crates/store/src/memory.rs.
use hkgov_rethink.Prelude.{
  ℕ, Bool, true, Text, text, List, [], ◌++◌, map, Option, none, some, Map, get, insert, length,
  take, drop, select, any, same, Result, ok, err, text_key, min, max,
}
use hkgov_rethink.Common.Errors.{Error, store_unavailable}
use hkgov_rethink.Common.Sources.{DataSource, as_str, source_key}
use hkgov_rethink.Common.Model.{NormalizedRecord, Category, Cadence, DatasetMeta}
use hkgov_rethink.Store.Ids.{DatasetId, DatasetLineage, id_key}
use hkgov_rethink.Store.Cache.{Cache, CacheEntry}

pub record RegisteredMeta : Type 0 where
  pub title : Text
  pub description : Option Text
  pub refresh_interval_secs : ℕ
  pub category : Category
  pub tags : List Text
  pub cadence : Cadence
  pub last_record_count : ℕ
  pub last_refreshed_at : Option ℕ

pub record RecordPage : Type 0 where
  pub source : DataSource
  pub dataset : Text
  pub total : ℕ
  pub offset : ℕ
  pub limit : ℕ
  pub records : List NormalizedRecord

pub record MemoryStore (C : Type 0) : Type 0 where
  pub records : C
  pub registry : Map DatasetId RegisteredMeta
  pub lineage : Map DatasetId DatasetLineage

-- `HashSet` of the wanted ids: whether it has a record's id.
abbrev pub wanted : List Text → NormalizedRecord → Bool
wanted ids r = any (same r.record_id) ids

-- `clamp(1, 500)`
abbrev pub clamp_limit : ℕ → ℕ
clamp_limit n = min (max n 1) 500

-- The error of a lookup by ids on a cold cache.
unfoldable pub cold_error : DatasetId → Error
cold_error d = store_unavailable (
    text "records for "
    ++ (as_str d.source
        ++ (text "/"
            ++ (d.dataset
                ++ text " are not cached (refresh in progress or cache cold); retry shortly"))))

abbrev pub count_of : Option RegisteredMeta → ℕ
count_of none = 0
count_of (some m) = m.last_record_count

abbrev pub last_of : Option RegisteredMeta → Option ℕ
last_of none = none
last_of (some m) = m.last_refreshed_at

-- The catalogue entry, with the live count if the cache has the dataset and the kept one if not.
unfoldable pub describe : DatasetId → RegisteredMeta → Option CacheEntry → DatasetMeta
describe d m entry = record {
  source = d.source;
  dataset = d.dataset;
  title = m.title;
  description = m.description;
  category = m.category;
  tags = m.tags;
  cadence = m.cadence;
  refresh_interval_secs = m.refresh_interval_secs;
  last_refreshed_at = elim entry [ some e ↦ some e.refreshed_at | none ↦ m.last_refreshed_at ];
  record_count = elim entry [ some e ↦ length e.records | none ↦ m.last_record_count ];
}

-- The page of a dataset's records; a cold cache gives an empty one.
unfoldable pub page_of : DatasetId → ℕ → ℕ → Option CacheEntry → RecordPage
page_of d offset limit none = record {
  source = d.source;
  dataset = d.dataset;
  total = 0;
  offset = offset;
  limit = limit;
  records = [];
}
page_of d offset limit (some e) = record {
  source = d.source;
  dataset = d.dataset;
  total = length e.records;
  offset = offset;
  limit = limit;
  records = take limit (drop offset e.records);
}

module _ {C : Type 0} (cache : Cache C) where
  open cache use {lookup, store}

  -- Registering again keeps the count and the time of the last refresh.
  unfoldable pub register :
      DatasetId
      → Text
      → Option Text
      → ℕ
      → Category
      → List Text
      → Cadence
      → MemoryStore C
      → MemoryStore C
  register d title description interval category tags cadence s =
      let old = get d s.registry in
      record s {
        registry =
            insert d
              (record {
                title = title;
                description = description;
                refresh_interval_secs = interval;
                category = category;
                tags = tags;
                cadence = cadence;
                last_record_count = count_of old;
                last_refreshed_at = last_of old;
              })
              s.registry;
      }

  -- `get_mut`: only a dataset that is registered has its count kept.
  unfoldable pub put_dataset : ℕ → DatasetId → List NormalizedRecord → MemoryStore C → MemoryStore C
  put_dataset now d records s = record s {
    records = store d (record { records = records; refreshed_at = now }) s.records;
    registry = elim (get d s.registry) [
      | none ↦ s.registry
      | some m ↦
          insert d (record m { last_record_count = length records; last_refreshed_at = some now })
            s.registry
    ];
  }

  unfoldable pub get_page : DatasetId → ℕ → ℕ → MemoryStore C → RecordPage
  unfolding page_of
  get_page d offset limit s = page_of d offset (clamp_limit limit) (lookup d s.records)

  unfoldable pub get_by_ids :
      DatasetId → List Text → MemoryStore C → Result (List NormalizedRecord) Error
  get_by_ids d ids s = elim (lookup d s.records) [
    | none ↦ err (cold_error d)
    | some e ↦ ok (select (wanted ids) e.records)
  ]

  unfoldable pub meta : DatasetId → MemoryStore C → Option DatasetMeta
  unfolding describe
  meta d s = elim (get d s.registry) [
    | none ↦ none
    | some m ↦ some (describe d m (lookup d s.records))
  ]

  -- `source.is_none_or(|s| s == id.source)`
  abbrev pub matches_source : Option DataSource → DatasetId × RegisteredMeta → Bool
  matches_source none e = true
  matches_source (some x) e = same x e.0.source

  unfoldable pub list : Option DataSource → MemoryStore C → List DatasetMeta
  unfolding describe
  list source s =
      map (λ (e : DatasetId × RegisteredMeta). describe e.0 e.1 (lookup e.0 s.records))
        (select (matches_source source) s.registry)

  unfoldable pub record_lineage : DatasetLineage → MemoryStore C → MemoryStore C
  record_lineage l s = record s {
    lineage = insert (record { source = l.source; dataset = l.dataset }) l s.lineage;
  }

  unfoldable pub lineage : DatasetId → MemoryStore C → Option DatasetLineage
  lineage d s = get d s.lineage
