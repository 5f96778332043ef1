-- ===== src/Portals/Composite.antt =====
-- `build_composite` of crates/connectors/src/property_canon.rs.
use hkgov_rethink.Prelude.{
  ℕ, ◌+◌, Bool, true, false, not, ◌&&◌, List, [], ◌∷◌, ◌++◌, Option, none, some, Text, text_key,
  same, length, select,
}
use hkgov_rethink.Common.Sources.{DataSource}
use hkgov_rethink.Portals.Canon.{CanonicalListing, PriceFloats, is_none}
use hkgov_rethink.Portals.Median.{median}

pub record PortalContribution : Type 0 where
  pub source : DataSource
  pub median_unit_price : Option ℕ
  pub listing_count : ℕ

pub record PortalComposite : Type 0 where
  pub region : Option Text
  pub month : Option Text
  pub composite_median_unit_price : Option ℕ
  pub by_portal : List PortalContribution
  pub total_listings : ℕ

-- `wanted.is_none() || field == wanted`
abbrev pub matches : Option Text → Option Text → Bool
matches none field = true
matches (some w) none = false
matches (some w) (some t) = same t w

-- `filter_map`, and what it makes of the result at the front.
abbrev pub keep : {B : Type 0} → Option B → List B → List B
keep none bs = bs
keep (some b) bs = b ∷ bs

unfoldable pub filter_map : {A B : Type 0} → (A → Option B) → List A → List B
filter_map g [] = []
filter_map g (x ∷ xs) = keep (g x) (filter_map g xs)

-- The loop's variables: the contributions, the medians and the total.
abbrev pub Sums : Type 0
Sums = List PortalContribution × (List ℕ × ℕ)

abbrev pub push_some : List ℕ → Option ℕ → List ℕ
push_some ms none = ms
push_some ms (some m) = ms ++ m ∷ []

module _ (f : PriceFloats) where
  unfoldable pub prices_of : Option Text → Option Text → List CanonicalListing → List ℕ
  unfolding filter_map
  prices_of region month listings =
      select (λ p. f.positive p && f.is_finite p)
        (filter_map (λ l. l.unit_price_net)
          (select (λ l. not (is_none l.unit_price_net))
            (select (λ l. matches month l.tx_date_month)
              (select (λ l. matches region l.region) listings))))

  unfoldable pub median_or_none : List ℕ → Option ℕ
  median_or_none [] = none
  median_or_none (p ∷ ps) = some (median f (p ∷ ps))

  unfoldable pub add_portal : DataSource → List ℕ → Sums → Sums
  unfolding median_or_none
  add_portal source prices (contributions, (medians, total)) = (
    contributions
        ++ record {
          source = source;
          median_unit_price = median_or_none prices;
          listing_count = length prices;
        }
          ∷ [],
    (push_some medians (median_or_none prices), total + length prices),
  )

  unfoldable pub add_portals :
      Option Text → Option Text → List (DataSource × List CanonicalListing) → Sums → Sums
  unfolding prices_of add_portal
  add_portals region month [] sums = sums
  add_portals region month ((source, listings) ∷ ps) sums =
      add_portals region month ps (add_portal source (prices_of region month listings) sums)

  unfoldable pub build_composite :
      Option Text → Option Text → List (DataSource × List CanonicalListing) → PortalComposite
  unfolding add_portals
  build_composite region month portals =
      let (contributions, (medians, total)) = add_portals region month portals ([], ([], 0)) in
      record {
        region = region;
        month = month;
        composite_median_unit_price = median_or_none medians;
        by_portal = contributions;
        total_listings = total;
      }
