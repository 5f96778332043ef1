-- ===== src/Ingest/Refresh.antt =====
-- What a refresh (crates/ingest/src/lib.rs) leaves in the memory store, on schedule or on demand.
use hkgov_rethink.Prelude.{
  ℕ, ◌≡◌, refl, ap, ◌∙◌, List, some, Text, get, get-insert_self, length, length-map, drop, All,
  All-take, All-drop, ok, err, inl, inr,
}
use hkgov_rethink.Common.Errors.{Error}
use hkgov_rethink.Common.Model.{NormalizedRecord, DatasetMeta}
use hkgov_rethink.Store.Ids.{DatasetId, DatasetLineage, id_key}
use hkgov_rethink.Store.Cache.{Cache, IsCache}
use hkgov_rethink.Store.Memory.{
  MemoryStore, RegisteredMeta, put_dataset, record_lineage, get_page, page_of, meta, lineage,
  clamp_limit,
}
use hkgov_rethink.Store.Lineage.{content_hash, lineage_from}
use hkgov_rethink.Store.Catalog.{meta-put_dataset}
use hkgov_rethink.Ingest.{
  Fetched, cap_record, sanitize_records, build_lineage, publish, refresh_once, fetch_once,
}
use hkgov_rethink.Ingest.Caps.{IsCapped, sanitize_records_lem}

length-sanitize_records : (rs : List NormalizedRecord) → length (sanitize_records rs) ≡ length rs
length-sanitize_records rs = ap length (sanitize_records_lem rs).0 ∙ length-map cap_record rs

module _ (sha : Text → Text) (show_float : ℕ → Text) {C : Type 0} (c : Cache C) (laws : IsCache c)
    (t u : ℕ) (d : DatasetId) (f : Fetched) (s : MemoryStore C) where
  page-IsCapped :
      (records : List NormalizedRecord) (offset limit : ℕ)
      → All IsCapped
          (get_page c d offset limit (publish sha show_float c t u d f records s)).records
  unfolding publish put_dataset record_lineage get_page page_of
  page-IsCapped records offset limit =
      let clean = sanitize_records records in
      elim (laws.lookup_stored d (record { records = clean; refreshed_at = u }) s.records) [
        | inl warm ↦
            rw (warm, page_of)
              (All-take IsCapped (clamp_limit limit) (drop offset clean)
                (All-drop IsCapped offset clean (sanitize_records_lem records).1))
        | inr cold ↦ rw (cold, page_of) tt
      ]

  lineage_published :
      (records : List NormalizedRecord)
      → lineage c d (publish sha show_float c t u d f records s)
        ≡ some (build_lineage sha show_float d f (sanitize_records records) t)
  unfolding publish record_lineage lineage build_lineage lineage_from put_dataset
  lineage_published records = get-insert_self d _ s.lineage

  meta_published :
      (records : List NormalizedRecord) (m : RegisteredMeta)
      → get d s.registry ≡ some m
      → (x : DatasetMeta) × (meta c d (publish sha show_float c t u d f records s) ≡ some x)
        × (x.record_count ≡ length records)
        × (x.last_refreshed_at ≡ some u)
  unfolding publish record_lineage meta
  meta_published records m known =
      let clean = sanitize_records records in
      let (x, found, number, time, title) =
        meta-put_dataset c laws u d clean s m (put_dataset c u d clean s).records known
          (λ k. inl refl) in
      (x, found, number ∙ length-sanitize_records records, time)

  -- A refresh of a registered dataset whose fetch returned records leaves the same store on
  -- schedule and on demand. On demand it reports their number. The catalogue has that number and
  -- the time, the lineage has that number and the hash of what was published, and on no page of
  -- the dataset does a record have a field whose value is a text longer than 4096 bytes, whatever
  -- the upstream sent. Nothing is said of the lengths of the records' ids and of the fields'
  -- names.
  pub refresh_lem :
      (records : List NormalizedRecord) (m : RegisteredMeta) (offset limit : ℕ)
      → f.outcome ≡ ok records
      → get d s.registry ≡ some m
      → let s' = refresh_once sha show_float c t u d f s in
        (fetch_once sha show_float c t u d f s ≡ (s', ok (length records)))
        × ((x : DatasetMeta) × (meta c d s' ≡ some x)
            × (x.record_count ≡ length records)
            × (x.last_refreshed_at ≡ some u))
        × ((l : DatasetLineage) × (lineage c d s' ≡ some l)
            × (l.record_count_at_fetch ≡ length records)
            × (l.content_sha256 ≡ content_hash sha show_float (sanitize_records records)))
        × All IsCapped (get_page c d offset limit s').records
  unfolding refresh_once fetch_once build_lineage lineage_from
  refresh_lem records m offset limit came known = rw came (
    ap (λ n. (publish sha show_float c t u d f records s, ok n)) (length-sanitize_records records),
    meta_published records m known,
    (
      build_lineage sha show_float d f (sanitize_records records) t,
      lineage_published records,
      length-sanitize_records records,
      refl,
    ),
    page-IsCapped records offset limit,
  )

  -- A fetch that failed leaves the store as it was, on schedule and on demand, and on demand the error
  -- is passed on.
  pub refresh_failed :
      (e : Error)
      → f.outcome ≡ err e
      → (refresh_once sha show_float c t u d f s ≡ s)
        × (fetch_once sha show_float c t u d f s ≡ (s, err e))
  unfolding refresh_once fetch_once
  refresh_failed e failed = rw failed (refl, refl)
