-- ===== src/Store/Catalog.antt =====
-- What the catalogue says of a dataset after a refresh and after a registration
-- (`put_dataset`, `register`, `meta`, `list` of crates/store/src/memory.rs).
use hkgov_rethink.Prelude.{
  ℕ, ◌≡◌, ◌∙◌, ◌⊎◌, inl, inr, refl, Text, List, [], ◌∷◌, Option, none, some, Map, get, length, All,
  All-map, All-of_select, arith, get-insert_self, IsSorted, Option-cases, IsSorted-found,
  insert-IsSorted, select,
}
use hkgov_rethink.Common.Sources.{DataSource}
use hkgov_rethink.Common.Model.{NormalizedRecord, Category, Cadence, DatasetMeta}
use hkgov_rethink.Store.Ids.{DatasetId, id_key}
use hkgov_rethink.Store.Cache.{Cache, IsCache, CacheEntry, Ages}
use hkgov_rethink.Store.Memory.{
  MemoryStore, RegisteredMeta, describe, register, put_dataset, meta, list, matches_source,
  count_of, last_of,
}

meta_found :
    {C : Type 0} (c : Cache C) (s : MemoryStore C) (d : DatasetId) (m : RegisteredMeta)
    → get d s.registry ≡ some m
    → meta c d s ≡ some (describe d m (c.lookup d s.records))
unfolding meta
meta_found c s d m e = rw (e, meta)

module _ {C : Type 0} (c : Cache C) (laws : IsCache c) where
  -- What is left of the refresh's cache entry.
  left_after :
      (now : ℕ) (d : DatasetId) (records : List NormalizedRecord) (s : MemoryStore C) (later : C)
      → Ages c (put_dataset c now d records s).records later
      → (c.lookup d later ≡ some (record { records = records; refreshed_at = now }))
        ⊎ (c.lookup d later ≡ none)
  unfolding put_dataset
  left_after now d records s later ages =
      let e : CacheEntry = record { records = records; refreshed_at = now } in
      let stored = laws.lookup_stored d e s.records in
      let aged = ages d in ground (arith, stored, aged)

  -- Whatever the cache evicts after a refresh of a registered dataset, at once or later, the
  -- catalogue reports the number of records and the time of that refresh, both together, and the
  -- registered title.
  pub meta-put_dataset :
      (now : ℕ) (d : DatasetId) (records : List NormalizedRecord) (s : MemoryStore C)
      (m : RegisteredMeta) (later : C)
      → get d s.registry ≡ some m
      → Ages c (put_dataset c now d records s).records later
      → (x : DatasetMeta) × (meta c d (record (put_dataset c now d records s) { records = later })
          ≡ some x)
        × (x.record_count ≡ length records)
        × (x.last_refreshed_at ≡ some now)
        × (x.title ≡ m.title)
  unfolding put_dataset describe
  meta-put_dataset now d records s m later known ages =
      let kept = record m { last_record_count = length records; last_refreshed_at = some now } in
      let found : get d (put_dataset c now d records s).registry ≡ some kept =
        rw (known, put_dataset) (get-insert_self d kept s.registry) in
      let left = left_after now d records s later ages in
      (
        describe d kept (c.lookup d later),
        meta_found c _ d kept found,
        ground (arith, left),
        ground (arith, left),
        refl,
      )

module _ {C : Type 0} (c : Cache C) (s : MemoryStore C) (d : DatasetId) where
  -- Registering a dataset again (at every boot) changes its description, and not its count nor the
  -- time of its last refresh.
  pub meta-register :
      (title : Text) (description : Option Text) (interval : ℕ) (category : Category)
      (tags : List Text) (cadence : Cadence) {x : DatasetMeta}
      → meta c d s ≡ some x
      → meta c d (register c d title description interval category tags cadence s)
        ≡ some (record x {
          title = title;
          description = description;
          refresh_interval_secs = interval;
          category = category;
          tags = tags;
          cadence = cadence;
        })
  unfolding meta register describe
  meta-register title description interval category tags cadence h =
      elim (Option-cases (get d s.registry)) [
        | inl absent ↦ ground arith
        | inr (m, e) ↦
            let m' : RegisteredMeta = record {
              title = title;
              description = description;
              refresh_interval_secs = interval;
              category = category;
              tags = tags;
              cadence = cadence;
              last_record_count = count_of (get d s.registry);
              last_refreshed_at = last_of (get d s.registry);
            } in
            meta_found c (register c d title description interval category tags cadence s) d m'
              (get-insert_self d m' s.registry)
            ∙ ground arith
      ]

-- The dataset that a catalogue entry is about.
abbrev pub id_of : DatasetMeta → DatasetId
id_of x = record { source = x.source; dataset = x.dataset }

module _ {C : Type 0} (c : Cache C) (s : MemoryStore C) where
  meta-describe :
      (es : Map DatasetId RegisteredMeta)
      → All (λ e. get e.0 s.registry ≡ some e.1) es
      → All
          (λ e.
            meta c (id_of (describe e.0 e.1 (c.lookup e.0 s.records))) s
            ≡ some (describe e.0 e.1 (c.lookup e.0 s.records)))
          es
  unfolding describe
  meta-describe [] a = tt
  meta-describe ((d, m) ∷ es) a = (meta_found c s d m a.0, meta-describe es a.1)

  -- With a sorted registry, the catalogue's list and its single entries agree: every entry that `list` returns, with or
  -- without a source to filter by, is what `meta` returns for its dataset.
  pub list-meta :
      (source : Option DataSource)
      → IsSorted s.registry
      → All (λ x. meta c (id_of x) s ≡ some x) (list c source s)
  unfolding list
  list-meta source sorted =
      All-map (λ x. meta c (id_of x) s ≡ some x) _ (select (matches_source c source) s.registry)
        (All-of_select _ (matches_source c source) s.registry
          (meta-describe s.registry (IsSorted-found s.registry sorted)))

  -- Registering keeps the registry sorted, each dataset once.
  pub register-IsSorted :
      (d : DatasetId) (title : Text) (description : Option Text) (interval : ℕ)
      (category : Category) (tags : List Text) (cadence : Cadence)
      → IsSorted s.registry
      → IsSorted (register c d title description interval category tags cadence s).registry
  unfolding register
  register-IsSorted d title description interval category tags cadence sorted =
      insert-IsSorted d _ s.registry sorted
