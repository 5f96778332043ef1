-- ===== src/Store/Paging.antt =====
-- `get_page` of crates/store/src/memory.rs: its pages are bounded, and together they are the dataset.
use hkgov_rethink.Prelude.{
  ℕ, zero, suc, ◌+◌, ◌*◌, ◌≡◌, ◌≤◌, ◌<◌, ◌∙◌, List, [], ◌++◌, some, length, take, drop, length-take,
  length-drop, take_all, take_further, arith, max, Option-cases, inl, inr, ◌⊎◌, dec_lt,
}
use hkgov_rethink.Common.Model.{NormalizedRecord}
use hkgov_rethink.Store.Ids.{DatasetId}
use hkgov_rethink.Store.Cache.{Cache, CacheEntry}
use hkgov_rethink.Store.Memory.{MemoryStore, page_of, get_page, clamp_limit}

module _ {C : Type 0} (c : Cache C) (s : MemoryStore C) (d : DatasetId) where
  -- A page holds at most the limit that it states, which is from 1 to 500 whatever was asked; a
  -- dataset that is not cached gives an empty page, and no error.
  pub get_page_bounds :
      (offset limit : ℕ)
      → (length (get_page c d offset limit s).records ≤ (get_page c d offset limit s).limit)
        × (1 ≤ (get_page c d offset limit s).limit)
        × ((get_page c d offset limit s).limit ≤ 500)
        × ((get_page c d offset limit s).limit ≤ max limit 1)
        × (length (get_page c d offset limit s).records + offset
            ≤ max (get_page c d offset limit s).total offset)
  unfolding get_page page_of
  get_page_bounds offset limit = elim (Option-cases (c.lookup d s.records)) [
    | inl cold ↦ rw cold (omega arith, omega arith, omega arith, omega arith, omega arith)
    | inr (e, warm) ↦
        let taken = length-take (clamp_limit limit) (drop offset e.records) in
        let dropped = length-drop offset e.records in
        rw warm (omega arith, omega arith, omega arith, omega arith, omega arith)
  ]

  -- The records of the first `n` pages of size `limit`.
  abbrev pub pages : ℕ → ℕ → List NormalizedRecord
  pages limit zero = []
  pages limit (suc n) = pages limit n ++ (get_page c d (n * limit) limit s).records

  pages-take :
      (e : CacheEntry) (limit n : ℕ)
      → c.lookup d s.records ≡ some e
      → 1 ≤ limit
      → limit ≤ 500
      → pages limit n ≡ take (n * limit) e.records
  unfolding get_page page_of
  pages-take e limit zero warm low high = let none_yet : 0 * limit ≡ 0 = omega arith in rw none_yet
  pages-take e limit (suc n) warm low high =
      let clamped : clamp_limit limit ≡ limit = omega arith in
      let total : suc n * limit ≡ n * limit + limit = omega arith in
      rw (total, warm, clamped, pages-take e limit n warm low high)
        (take_further (n * limit) limit e.records)

  -- The first `n` pages of a cached dataset, read with a limit from 1 to 500 at its multiples, are
  -- its first `n * limit` records in order, and all of them unless its total is larger than that.
  pub pages_lem :
      (e : CacheEntry) (limit n : ℕ)
      → c.lookup d s.records ≡ some e
      → 1 ≤ limit
      → limit ≤ 500
      → (pages limit n ≡ take (n * limit) e.records)
        × ((n * limit < (get_page c d 0 limit s).total) ⊎ (pages limit n ≡ e.records))
  unfolding get_page page_of
  pages_lem e limit n warm low high =
      let parts = pages-take e limit n warm low high in
      elim (dec_lt (n * limit) (length e.records)) [
        | yes more ↦ (parts, inl (rw warm more))
        | no enough ↦ (parts, inr (parts ∙ take_all (n * limit) e.records (omega arith)))
      ]
