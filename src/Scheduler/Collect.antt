-- ===== src/Scheduler/Collect.antt =====
-- `collect_all_records` and `data_available` of crates/agent/src/scheduler.rs. The store does not
-- change while a dataset is paged through, and its pages are never an error.
use hkgov_rethink.Prelude.{
  ℕ, zero, suc, ◌+◌, ◌*◌, ◌≤◌, ◌<◌, ◌≡◌, refl, sym, ap, ◌∙◌, Bool, true, List, [], ◌∷◌, ◌++◌,
  Option, none, some, length, take, drop, length-take, length-drop, take_all, take_further,
  drop_nil, ◌/◌, is_empty, ltb, ◌==◌, if◌then◌else◌, Bool-cases, inl, inr, ltb→lt, ltb→le, arith,
}
use hkgov_rethink.Common.Model.{NormalizedRecord}
use hkgov_rethink.Store.Ids.{DatasetId}
use hkgov_rethink.Store.Cache.{Cache, CacheEntry}
use hkgov_rethink.Store.Memory.{MemoryStore, page_of, get_page, meta}

abbrev pub records_of : Option CacheEntry → List NormalizedRecord
records_of none = []
records_of (some e) = e.records

module _ {C : Type 0} (c : Cache C) (s : MemoryStore C) (d : DatasetId) where
  -- `none` means that the fuel ran out.
  unfoldable pub collect_from : ℕ → ℕ → List NormalizedRecord → Option (List NormalizedRecord)
  collect_from zero offset all = none
  collect_from (suc n) offset all =
      let records = (get_page c d offset 500 s).records in
      let more = collect_from n (offset + length records) (all ++ records) in
      if is_empty records
      then some all
      else if ltb (length records) 500
      then some (all ++ records)
      else more

  -- The records of the dataset, if the cache has it.
  abbrev pub cached : List NormalizedRecord
  cached = records_of (c.lookup d s.records)

  -- A page is counted for every 500 records that are cached, and one more.
  unfoldable pub collect_all_records : Option (List NormalizedRecord)
  unfolding collect_from
  collect_all_records = collect_from (length cached / 500 + 1) 0 []

  unfoldable pub data_available : ℕ → Bool
  data_available collected =
      if ltb 0 collected
      then true
      else elim (meta c d s) [ some m ↦ m.record_count == 0 | none ↦ true ]

  page_of-records :
      (offset : ℕ) (entry : Option CacheEntry)
      → (page_of d offset 500 entry).records ≡ take 500 (drop offset (records_of entry))
  unfolding page_of
  page_of-records offset none = ap (take 500) (sym (drop_nil {A = NormalizedRecord} offset))
  page_of-records offset (some e) = refl

  page-cached : (offset : ℕ) → (get_page c d offset 500 s).records ≡ take 500 (drop offset cached)
  unfolding get_page
  page-cached offset = page_of-records offset (c.lookup d s.records)

  -- One turn of the loop, by what the page holds.
  collect_turn :
      (records all : List NormalizedRecord) (more : Option (List NormalizedRecord))
      (whole : List NormalizedRecord)
      → (length records ≤ 0 → all ≡ whole)
      → (length records < 500 → all ++ records ≡ whole)
      → (500 ≤ length records → more ≡ some whole)
      → (if is_empty records
          then some all
          else if ltb (length records) 500
          then some (all ++ records)
          else more)
        ≡ some whole
  collect_turn [] all more whole h k l = ap some (h (omega arith))
  collect_turn (r ∷ rs) all more whole h k l = elim (Bool-cases (ltb (length (r ∷ rs)) 500)) [
    | inl short ↦ rw short (ap some (k (ltb→lt _ _ short)))
    | inr full ↦ rw full (l (ltb→le _ _ full))
  ]

  collect_from-cached :
      (n offset : ℕ)
      → offset ≤ length cached
      → length cached < offset + 500 * n
      → collect_from n offset (take offset cached) ≡ some cached
  unfolding collect_from
  collect_from-cached zero offset h k = absurd (omega arith)
  collect_from-cached (suc n) offset h k =
      let page = take 500 (drop offset cached) in
      let size = length-take 500 (drop offset cached) in
      let left = length-drop offset cached in
      let further = take_further offset 500 cached in
      rw (page-cached offset) (
        collect_turn page (take offset cached) _ cached
          (λ empty. take_all offset cached (omega (arith, size, left)))
          (λ short. further ∙ take_all (offset + 500) cached (omega (arith, size, left)))
          (λ full.
            let e : length page ≡ 500 = omega (arith, size) in
            rw (e, further)
              (collect_from-cached n (offset + 500) (omega (arith, size, left)) (omega arith))))

  -- Paging through a dataset ends, and collects every record that is cached, each once and in order.
  pub collect_all_records_lem : collect_all_records ≡ some cached
  unfolding collect_all_records
  collect_all_records_lem =
      collect_from-cached (length cached / 500 + 1) 0 (omega arith) (omega arith)
