-- ===== src/Store/ById.antt =====
-- The default `get_by_ids` of the `RecordStore` trait (crates/store/src/lib.rs), over any store's
-- `get_page`, and its agreement with the override of memory.rs.
use hkgov_rethink.Prelude.{
  ℕ, zero, suc, ◌+◌, ◌-◌, ◌≡◌, ◌≤◌, ◌<◌, refl, sym, ap, ◌∙◌, List, [], ◌++◌, Option, none, some,
  length, take, drop, arith, Text, Result, ok, err, select, leb, ltb, ◌||◌, if◌then◌else◌,
  select-append, take_further, take-append-drop, length-append, nil_of_length, append-nil,
  length-take, length-drop, take_all, Bool-cases, inl, inr, ltb→lt, leb→le, ltb→le,
}
use hkgov_rethink.Common.Errors.{Error}
use hkgov_rethink.Common.Model.{NormalizedRecord}
use hkgov_rethink.Store.Ids.{DatasetId}
use hkgov_rethink.Store.Cache.{Cache, CacheEntry}
use hkgov_rethink.Store.Memory.{MemoryStore, RecordPage, wanted, page_of, get_page, get_by_ids}

-- `page` is the store's `get_page` of the dataset.
module _ (page : ℕ → ℕ → Result RecordPage Error) (ids : List Text) where
  -- The loop from an offset, with what was collected; `none` means that the fuel ran out.
  collect : ℕ → ℕ → List NormalizedRecord → Option (Result (List NormalizedRecord) Error)
  collect zero offset out = none
  collect (suc fuel) offset out = elim (page offset 500) [
    | err e ↦ some (err e)
    | ok p ↦
        let got = length p.records in
        let out' = out ++ select (wanted ids) p.records in
        let rest = collect fuel (offset + got) out' in
        if ltb got 500 || leb (length ids) (length out') then some (ok out') else rest
  ]

  unfoldable pub default_get_by_ids : ℕ → Option (Result (List NormalizedRecord) Error)
  unfolding collect
  default_get_by_ids fuel = collect fuel 0 []

module _ (page : ℕ → ℕ → Result RecordPage Error) (ids : List Text) (all : List NormalizedRecord)
    (serves : (o : ℕ)
      → (p : RecordPage) × (page o 500 ≡ ok p) × (p.records ≡ take 500 (drop o all)))
    (enough : length (select (wanted ids) all) ≤ length ids) where
  -- What was collected before an offset and on the page there.
  collected :
      (o : ℕ)
      → select (wanted ids) (take o all) ++ select (wanted ids) (take 500 (drop o all))
        ≡ select (wanted ids) (take (o + 500) all)
  collected o =
      sym (select-append (wanted ids) (take o all) (take 500 (drop o all)))
      ∙ ap (select (wanted ids)) (take_further o 500 all)

  -- When as many records were found as there are ids, the rest of the dataset has none.
  found_all :
      (n : ℕ)
      → length ids ≤ length (select (wanted ids) (take n all))
      → select (wanted ids) (take n all) ≡ select (wanted ids) all
  found_all n h =
      let split = ap (select (wanted ids)) (take-append-drop n all) in
      let parts = select-append (wanted ids) (take n all) (drop n all) in
      let sizes =
        length-append (select (wanted ids) (take n all)) (select (wanted ids) (drop n all)) in
      let whole = sym parts ∙ split in
      let rest =
        nil_of_length (select (wanted ids) (drop n all)) (omega (arith, ap length whole)) in
      sym (append-nil (select (wanted ids) (take n all)))
      ∙ ap (◌++◌ (select (wanted ids) (take n all))) (sym rest)
      ∙ whole

  collect_lem :
      (fuel o : ℕ) (out : List NormalizedRecord)
      → length all - o < fuel
      → out ≡ select (wanted ids) (take o all)
      → collect page ids fuel o out ≡ some (ok (select (wanted ids) all))
  unfolding collect
  collect_lem zero o out h e = absurd (omega arith)
  collect_lem (suc fuel) o out h e =
      let (p, served, records) = serves o in
      let now =
        ap (λ (xs : List NormalizedRecord). xs ++ select (wanted ids) p.records) e
        ∙ ap
            (λ (xs : List NormalizedRecord).
              select (wanted ids) (take o all) ++ select (wanted ids) xs)
            records
        ∙ collected o in
      let size = ap length records ∙ length-take 500 (drop o all) in
      let behind = length-drop o all in
      elim (Bool-cases (ltb (length p.records) 500)) [
        | inl last ↦
            rw (served, collect, last)
              (ap (λ (xs : List NormalizedRecord). some (ok xs))
                (now
                  ∙ ap (select (wanted ids))
                      (take_all (o + 500) all (omega (arith, ltb→lt _ _ last)))))
        | inr full ↦
            elim (Bool-cases (leb (length ids) (length (out ++ select (wanted ids) p.records)))) [
              | inl plenty ↦
                  let many = leb→le _ _ plenty in
                  rw (served, collect, full, plenty)
                    (ap (λ (xs : List NormalizedRecord). some (ok xs))
                      (now ∙ found_all (o + 500) (omega (arith, many, ap length now))))
              | inr few ↦
                  let got : length p.records ≡ 500 = omega (arith, ltb→le _ _ full) in
                  rw (served, collect, full, few)
                    (collect_lem fuel (o + length p.records) (out ++ select (wanted ids) p.records)
                      (omega (arith)) (rw got now))
            ]
      ]

-- Over a store that serves a dataset in pages of 500, with at most as many records of the wanted
-- ids as there are ids, the default `get_by_ids` ends within `length all + 1` rounds and returns
-- every record of the dataset whose id is wanted, in the dataset's order.
pub default_get_by_ids_lem :
    (page : ℕ → ℕ → Result RecordPage Error) (ids : List Text) (all : List NormalizedRecord)
    → ((o : ℕ) → (p : RecordPage) × (page o 500 ≡ ok p) × (p.records ≡ take 500 (drop o all)))
    → length (select (wanted ids) all) ≤ length ids
    → default_get_by_ids page ids (suc (length all)) ≡ some (ok (select (wanted ids) all))
unfolding default_get_by_ids
default_get_by_ids_lem page ids all serves enough =
    collect_lem page ids all serves enough (suc (length all)) 0 [] (omega arith) refl

get_by_ids-warm :
    {C : Type 0} (c : Cache C) (s : MemoryStore C) (d : DatasetId) (ids : List Text)
    (e : CacheEntry)
    → c.lookup d s.records ≡ some e
    → get_by_ids c d ids s ≡ ok (select (wanted ids) e.records)
unfolding get_by_ids
get_by_ids-warm c s d ids e warm = rw (warm, get_by_ids)

get_page-warm :
    {C : Type 0} (c : Cache C) (s : MemoryStore C) (d : DatasetId) (o : ℕ) (e : CacheEntry)
    → c.lookup d s.records ≡ some e
    → (get_page c d o 500 s).records ≡ take 500 (drop o e.records)
unfolding get_page page_of
get_page-warm c s d o e warm = rw (warm, get_page)

-- So on a cached dataset of the memory store, with at most as many records of the wanted ids as
-- there are ids, the default and the override of memory.rs return the same.
pub get_by_ids-default :
    {C : Type 0} (c : Cache C) (s : MemoryStore C) (d : DatasetId) (ids : List Text)
    (e : CacheEntry)
    → c.lookup d s.records ≡ some e
    → length (select (wanted ids) e.records) ≤ length ids
    → default_get_by_ids (λ o l. ok (get_page c d o l s)) ids (suc (length e.records))
      ≡ some (get_by_ids c d ids s)
get_by_ids-default c s d ids e warm enough =
    default_get_by_ids_lem (λ o l. ok (get_page c d o l s)) ids e.records
      (λ o. (get_page c d o 500 s, refl, get_page-warm c s d o e warm)) enough
    ∙ ap some (sym (get_by_ids-warm c s d ids e warm))
