-- ===== src/Store/Examples.antt =====
-- Witnesses and tests of the memory store, over a cache that evicts nothing.
use hkgov_rethink.Prelude.{
  ℕ, ◌≡◌, ◌≢◌, inl, inr, refl, false, List, [], ◌∷◌, none, some, Text, text, text_key, Result, ok,
  arith, get, insert, get-insert, get-insert_self, Map, same, same_iff, take, drop, select,
  Bool-cases,
}
use hkgov_rethink.Common.Errors.{Error}
use hkgov_rethink.Common.Sources.{hkp}
use hkgov_rethink.Common.Model.{NormalizedRecord, property, daily, DatasetMeta}
use hkgov_rethink.Store.Ids.{DatasetId, id_key}
use hkgov_rethink.Store.Cache.{Cache, CacheEntry, IsCache}
use hkgov_rethink.Store.Memory.{MemoryStore, RecordPage, RegisteredMeta, wanted, put_dataset, meta}
use hkgov_rethink.Store.Catalog.{meta-put_dataset}
use hkgov_rethink.Store.ById.{default_get_by_ids, default_get_by_ids_lem}

abbrev lasting : Cache (Map DatasetId CacheEntry)
lasting = record { lookup = λ d m. get d m; store = λ d e m. insert d e m }

other_key : (d d' : DatasetId) → d' ≢ d → same d' d ≡ false
other_key d d' ne = elim (Bool-cases (same d' d)) [
  | inl e ↦ absurd (ne ((same_iff d' d).0 e))
  | inr e ↦ e
]

lasting-IsCache : IsCache lasting
lasting-IsCache = record {
  lookup_stored = λ d e m. inl (get-insert_self d e m);
  lookup_other = λ d d' e m ne. inl (rw (get-insert d d' e m, other_key d d' ne));
}

abbrev deals : DatasetId
deals = record { source = hkp; dataset = text "transactions" }

abbrev deal : Text → NormalizedRecord
deal id = record {
  source = hkp;
  dataset = text "transactions";
  record_id = id;
  fields = [];
  fetched_at = 5;
}

abbrev three : List NormalizedRecord
three = deal (text "a") ∷ deal (text "b") ∷ deal (text "c") ∷ []

abbrev registered : RegisteredMeta
registered = record {
  title = text "Deals";
  description = none;
  refresh_interval_secs = 3600;
  category = property;
  tags = [];
  cadence = daily;
  last_record_count = 3;
  last_refreshed_at = some 40;
}

abbrev entry : CacheEntry
entry = record { records = three; refreshed_at = 40 }

abbrev warm : MemoryStore (Map DatasetId CacheEntry)
warm = record { records = (deals, entry) ∷ []; registry = (deals, registered) ∷ []; lineage = [] }

meta-put_dataset_example :
    (x : DatasetMeta) × (meta lasting deals
        (record (put_dataset lasting 90 deals (deal (text "d") ∷ []) warm) { records = [] })
      ≡ some x)
    × (x.record_count ≡ 1)
    × (x.last_refreshed_at ≡ some 90)
    × (x.title ≡ text "Deals")
unfolding get
meta-put_dataset_example =
    meta-put_dataset lasting lasting-IsCache 90 deals (deal (text "d") ∷ []) warm registered [] refl
      (λ d. inr refl)

abbrev described : DatasetMeta
described = record {
  source = hkp;
  dataset = text "transactions";
  title = text "Deals";
  description = none;
  category = property;
  tags = [];
  cadence = daily;
  refresh_interval_secs = 3600;
  last_refreshed_at = some 40;
  record_count = 3;
}

-- A store that serves `three`.
abbrev serve : ℕ → ℕ → Result RecordPage Error
serve o l = ok (record {
  source = hkp;
  dataset = text "transactions";
  total = 3;
  offset = o;
  limit = l;
  records = take l (drop o three);
})

default_get_by_ids_lem_example :
    default_get_by_ids serve (text "c" ∷ text "a" ∷ []) 4
    ≡ some (ok (select (wanted (text "c" ∷ text "a" ∷ [])) three))
default_get_by_ids_lem_example =
    default_get_by_ids_lem serve (text "c" ∷ text "a" ∷ []) three
      (λ o. (
        record {
          source = hkp;
          dataset = text "transactions";
          total = 3;
          offset = o;
          limit = 500;
          records = take 500 (drop o three);
        },
        refl,
        refl,
      ))
      (omega arith)
