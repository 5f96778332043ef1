-- ===== src/Portals/Examples.antt =====
-- Witnesses and tests of the portals. Prices are whole numbers.
use hkgov_rethink.Prelude.{
  ℕ, ◌+◌, ◌-◌, ◌*◌, ◌/◌, ◌≡◌, refl, true, not, List, [], ◌∷◌, none, some, Text, text, text_key,
  compare, min, leb, ◌==◌, length, decimal, sort_by, same, if◌then◌else◌,
}
use mathlib.Core.List.{Permᴰ}
use hkgov_rethink.Common.Sources.{DataSource, hkp, midland}
use hkgov_rethink.Common.Model.{NormalizedRecord, str, float}
use hkgov_rethink.Portals.Canon.{CanonicalListing, PriceFloats, project_midland}
use hkgov_rethink.Portals.Median.{median, OrdersBits}
use hkgov_rethink.Portals.Composite.{
  build_composite, add_portals, add_portal, prices_of, filter_map, median_or_none,
}
use hkgov_rethink.Portals.Divergence.{
  region_and_month, detect_portal_divergence, bucket_by_join, buckets_from, add_listing, push,
  key_of, find_bucket, union_keys, compare_buckets, compare_medians, percent, keys_of,
}
use hkgov_rethink.Portals.Shuffle.{build_composite-Shuffled}
use hkgov_rethink.Portals.Undated.{detect_portal_divergence-project_midland}

abbrev literal : Text → ℕ
literal s = if same s (text "100.0") then 100 else 2

abbrev whole : PriceFloats
whole = record {
  positive = λ p. not (p == 0);
  at_most_zero = λ p. p == 0;
  is_finite = λ p. true;
  at_least = λ p q. leb q p;
  partial_cmp = λ a b. some (compare a b);
  add = λ a b. a + b;
  sub = λ a b. (a - b) + (b - a);
  mul = λ a b. a * b;
  div = λ a b. a / b;
  abs = λ a. a;
  least = min;
  literal = literal;
  from_i64 = λ n. n;
  show = decimal;
}

abbrev whole_order : OrdersBits whole
whole_order = record { by_bits = λ a b p q. refl }

abbrev flat : ℕ → CanonicalListing
flat price = record {
  source = hkp;
  source_record_id = decimal price;
  region = some (text "kln");
  estate = none;
  price_hkd = none;
  build_area_sqft = none;
  net_area_sqft = none;
  unit_price_net = some price;
  is_primary = none;
  tx_date_month = some (text "2026-06");
  tx_type = none;
}

abbrev forward : List (DataSource × List CanonicalListing)
forward = (hkp, flat 30 ∷ flat 10 ∷ []) ∷ []

abbrev backward : List (DataSource × List CanonicalListing)
backward = (hkp, flat 10 ∷ flat 30 ∷ []) ∷ []

forward_median :
    (build_composite whole none (some (text "2026-06")) forward).composite_median_unit_price
    ≡ some 20
unfolding build_composite add_portals add_portal prices_of filter_map median_or_none median sort_by
forward_median = refl

build_composite-Shuffled_example :
    build_composite whole none (some (text "2026-06")) forward
    ≡ build_composite whole none (some (text "2026-06")) backward
build_composite-Shuffled_example =
    build_composite-Shuffled whole whole_order none (some (text "2026-06")) forward backward
      (refl, (Permᴰ.swap refl refl, tt))

abbrev midland_sale : NormalizedRecord
midland_sale = record {
  source = midland;
  dataset = text "transactions";
  record_id = text "m1";
  fields =
      (text "price_per_net_sqft", float 900)
      ∷ (text "region", str (text "Kowloon"))
      ∷ (text "sale_price_hkd", float 5000)
      ∷ [];
  fetched_at = 1;
}

abbrev midland_sales : List NormalizedRecord
midland_sales = midland_sale ∷ midland_sale ∷ midland_sale ∷ []

abbrev flats : List CanonicalListing
flats = flat 30 ∷ flat 10 ∷ flat 20 ∷ []

-- Two portals that both have months are compared: 20 against 80 is 300 per cent.
abbrev dear : List CanonicalListing
dear = flat 80 ∷ flat 90 ∷ flat 70 ∷ []

dear_found : length (detect_portal_divergence whole hkp flats midland dear region_and_month 10) ≡ 1
unfolding detect_portal_divergence bucket_by_join buckets_from add_listing push key_of find_bucket
    union_keys compare_buckets compare_medians percent keys_of median sort_by
dear_found = refl

detect_portal_divergence-project_midland_example :
    detect_portal_divergence whole hkp flats midland
      (filter_map (project_midland whole) midland_sales)
      region_and_month
      10
    ≡ []
detect_portal_divergence-project_midland_example =
    detect_portal_divergence-project_midland whole hkp flats midland_sales region_and_month 10 tt
      (refl, (refl, (refl, tt)))
