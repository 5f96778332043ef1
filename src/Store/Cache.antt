-- ===== src/Store/Cache.antt =====
-- What crates/store/src/memory.rs uses of moka's `Cache`, for the entries of memory.rs: a `get` may
-- miss what was inserted (the cache evicts by size and by age whenever it likes), but never returns
-- anything else than the last entry inserted under the key.
use hkgov_rethink.Prelude.{ℕ, ◌≡◌, ◌⊎◌, ◌≢◌, List, Option, none, some}
use hkgov_rethink.Common.Model.{NormalizedRecord}
use hkgov_rethink.Store.Ids.{DatasetId}

pub record CacheEntry : Type 0 where
  pub records : List NormalizedRecord
  pub refreshed_at : ℕ

pub record Cache (C : Type 0) : Type 0 where
  pub lookup : DatasetId → C → Option CacheEntry
  pub store : DatasetId → CacheEntry → C → C

pub record IsCache {C : Type 0} (c : Cache C) : Type 0 where
  pub lookup_stored :
      (d : DatasetId) (e : CacheEntry) (m : C)
      → (c.lookup d (c.store d e m) ≡ some e) ⊎ (c.lookup d (c.store d e m) ≡ none)
  pub lookup_other :
      (d d' : DatasetId) (e : CacheEntry) (m : C)
      → d' ≢ d
      → (c.lookup d' (c.store d e m) ≡ c.lookup d' m) ⊎ (c.lookup d' (c.store d e m) ≡ none)

-- The cache at two moments with no insertion in between: entries are kept or evicted.
abbrev pub Ages : {C : Type 0} → Cache C → C → C → Type 0
Ages c m m' = (d : DatasetId) → (c.lookup d m' ≡ c.lookup d m) ⊎ (c.lookup d m' ≡ none)
