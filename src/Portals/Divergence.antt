-- ===== src/Portals/Divergence.antt =====
-- `detect_portal_divergence` of crates/connectors/src/property_canon.rs.
use hkgov_rethink.Prelude.{
  ℕ, Bool, true, ◌&&◌, ◌||◌, List, [], ◌∷◌, ◌++◌, Option, none, some, Text, text, text_key,
  pair_key, ltb, length, any, same, sort_by, if◌then◌else◌, not, select, Ordering,
}
use hkgov_rethink.Common.Sources.{DataSource}
use hkgov_rethink.Portals.Canon.{CanonicalListing, PriceFloats}
use hkgov_rethink.Portals.Median.{median, or_equal}

pub record PortalDivergenceFinding : Type 0 where
  pub source_a : DataSource
  pub source_b : DataSource
  pub region : Option Text
  pub month : Option Text
  pub median_a : ℕ
  pub median_b : ℕ
  pub pct_divergence : ℕ
  pub count_a : ℕ
  pub count_b : ℕ

pub data JoinKey : Type 0 where
  region_and_month month region : JoinKey

abbrev pub min_listings_for_median : ℕ
min_listings_for_median = 3

abbrev pub Bucket : Type 0
Bucket = Option Text × Option Text

abbrev pub Buckets : Type 0
Buckets = List (Bucket × List ℕ)

abbrev pub same_option : Option Text → Option Text → Bool
same_option none none = true
same_option (some a) (some b) = same a b
same_option _ _ = not true

abbrev pub same_bucket : Bucket → Bucket → Bool
same_bucket (r, m) (r', m') = same_option r r' && same_option m m'

-- The `HashMap` of the buckets; the order of the first listings stands for its order.
unfoldable pub push : Bucket → ℕ → Buckets → Buckets
push k p [] = (k, p ∷ []) ∷ []
push k p ((j, ps) ∷ bs) =
    let rest = push k p bs in if same_bucket k j then (j, ps ++ p ∷ []) ∷ bs else (j, ps) ∷ rest

unfoldable pub find_bucket : Bucket → Buckets → Option (List ℕ)
find_bucket k [] = none
find_bucket k ((j, ps) ∷ bs) = if same_bucket k j then some ps else find_bucket k bs

unfoldable pub key_of : JoinKey → CanonicalListing → Bucket
key_of region_and_month l = (l.region, l.tx_date_month)
key_of month l = (none, l.tx_date_month)
key_of region l = (l.region, none)

unfoldable pub keys_of : Buckets → List Bucket
keys_of [] = []
keys_of ((k, ps) ∷ bs) = k ∷ keys_of bs

module _ (f : PriceFloats) where
  -- What a listing adds: nothing without a positive and finite price.
  unfoldable pub add_listing : JoinKey → CanonicalListing → Option ℕ → Buckets → Buckets
  unfolding push key_of
  add_listing join l none bs = bs
  add_listing join l (some up) bs =
      if f.at_most_zero up || not (f.is_finite up) then bs else push (key_of join l) up bs

  unfoldable pub buckets_from : JoinKey → List CanonicalListing → Buckets → Buckets
  unfolding add_listing
  buckets_from join [] bs = bs
  buckets_from join (l ∷ ls) bs = buckets_from join ls (add_listing join l l.unit_price_net bs)

  unfoldable pub bucket_by_join : List CanonicalListing → JoinKey → Buckets
  unfolding buckets_from
  bucket_by_join ls join = buckets_from join ls []

  unfoldable pub percent : ℕ → ℕ → ℕ
  percent a b = f.mul (f.div (f.abs (f.sub a b)) (f.least a b)) (f.literal (text "100.0"))

  -- The comparison of two buckets.
  unfoldable pub compare_medians :
      DataSource → DataSource → Bucket → ℕ → List ℕ → List ℕ → List PortalDivergenceFinding
  unfolding percent
  compare_medians sa sb k max va vb =
      let ma = median f va in
      let mb = median f vb in
      if ltb (length va) min_listings_for_median || ltb (length vb) min_listings_for_median
      then []
      else if f.at_most_zero ma || f.at_most_zero mb
      then []
      else if f.at_least (percent ma mb) max
      then record {
        source_a = sa;
        source_b = sb;
        region = k.0;
        month = k.1;
        median_a = ma;
        median_b = mb;
        pct_divergence = percent ma mb;
        count_a = length va;
        count_b = length vb;
      }
        ∷ []
      else []

  abbrev pub both :
      (List ℕ → List ℕ → List PortalDivergenceFinding)
      → Option (List ℕ)
      → Option (List ℕ)
      → List PortalDivergenceFinding
  both g (some va) (some vb) = g va vb
  both g _ _ = []

  unfoldable pub compare_buckets :
      DataSource → DataSource → ℕ → Buckets → Buckets → List Bucket → List PortalDivergenceFinding
  unfolding find_bucket compare_medians
  compare_buckets sa sb max ba bb [] = []
  compare_buckets sa sb max ba bb (k ∷ ks) =
      both (compare_medians sa sb k max) (find_bucket k ba) (find_bucket k bb)
      ++ compare_buckets sa sb max ba bb ks

  abbrev pub worst_first : PortalDivergenceFinding → PortalDivergenceFinding → Ordering
  worst_first a b = or_equal (f.partial_cmp b.pct_divergence a.pct_divergence)

  unfoldable pub union_keys : Buckets → Buckets → List Bucket
  unfolding keys_of
  union_keys ba bb = keys_of ba ++ select (λ k. not (any (same_bucket k) (keys_of ba))) (keys_of bb)

  unfoldable pub detect_portal_divergence :
      DataSource
      → List CanonicalListing
      → DataSource
      → List CanonicalListing
      → JoinKey
      → ℕ
      → List PortalDivergenceFinding
  unfolding bucket_by_join union_keys compare_buckets
  detect_portal_divergence sa la sb lb join max =
      let ba = bucket_by_join la join in
      let bb = bucket_by_join lb join in
      sort_by worst_first (compare_buckets sa sb max ba bb (union_keys ba bb))
