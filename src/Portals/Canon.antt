-- ===== src/Portals/Canon.antt =====
-- `CanonicalListing` and `project` of crates/connectors/src/property_canon.rs. An `f64` is its bits,
-- and what the code does with one is a record of operations.
use hkgov_rethink.Prelude.{
  Ordering, ℕ, Bool, true, false, ◌&&◌, ◌||◌, [], ◌∷◌, Option, none, some, Text, text, text_key,
  same, get, to_ascii_lowercase, if◌then◌else◌,
}
use mathlib.Core.Option
use hkgov_rethink.Common.Sources.{DataSource, midland, chung_sen}
use hkgov_rethink.Common.Model.{RecordValue, null, bool, int, float, str, NormalizedRecord}
use hkgov_rethink.Store.Lineage.{show_int, show_bool}

pub record CanonicalListing : Type 0 where
  pub source : DataSource
  pub source_record_id : Text
  pub region : Option Text
  pub estate : Option Text
  pub price_hkd : Option ℕ
  pub build_area_sqft : Option ℕ
  pub net_area_sqft : Option ℕ
  pub unit_price_net : Option ℕ
  pub is_primary : Option Bool
  pub tx_date_month : Option Text
  pub tx_type : Option Text

-- `positive` is `> 0.0`, `at_most_zero` is `<= 0.0`, `from_i64` the cast of an `i64`, `show` the format `{}`.
pub record PriceFloats : Type 0 where
  pub positive : ℕ → Bool
  pub at_most_zero : ℕ → Bool
  pub is_finite : ℕ → Bool
  pub at_least : ℕ → ℕ → Bool
  pub partial_cmp : ℕ → ℕ → Option Ordering
  pub add : ℕ → ℕ → ℕ
  pub sub : ℕ → ℕ → ℕ
  pub mul : ℕ → ℕ → ℕ
  pub div : ℕ → ℕ → ℕ
  pub abs : ℕ → ℕ
  pub least : ℕ → ℕ → ℕ
  pub literal : Text → ℕ
  pub from_i64 : ℕ → ℕ
  pub show : ℕ → Text

abbrev pub is_none : {A : Type 0} → Option A → Bool
is_none none = true
is_none (some a) = false

abbrev pub or_else : {A : Type 0} → Option A → Option A → Option A
or_else none o = o
or_else (some a) o = some a

abbrev bool_of : Option RecordValue → Option Bool
bool_of (some (bool b)) = some b
bool_of _ = none

unfoldable pub bool_field : NormalizedRecord → Text → Option Bool
bool_field r name = bool_of (get name r.fields)

-- The regions in Chinese, as UTF-8.
abbrev hk_zh : Text
hk_zh = 0xe9 ∷ 0xa6 ∷ 0x99 ∷ 0xe6 ∷ 0xb8 ∷ 0xaf ∷ []

abbrev kln_zh : Text
kln_zh = 0xe4 ∷ 0xb9 ∷ 0x9d ∷ 0xe9 ∷ 0xbe ∷ 0x8d ∷ []

abbrev kln_simplified : Text
kln_simplified = 0xe4 ∷ 0xb9 ∷ 0x9d ∷ 0xe9 ∷ 0xbe ∷ 0x99 ∷ []

abbrev nt_zh : Text
nt_zh = 0xe6 ∷ 0x96 ∷ 0xb0 ∷ 0xe7 ∷ 0x95 ∷ 0x8c ∷ []

unfoldable pub normalize_region : Text → Text
normalize_region s =
    let lower = to_ascii_lowercase s in
    if same lower (text "hk") || same lower (text "hong kong") || same lower hk_zh
    then text "hk"
    else if same lower (text "kln")
        || same lower (text "kowloon")
        || same lower kln_zh
        || same lower kln_simplified
    then text "kln"
    else if same lower (text "nt") || same lower (text "new territories") || same lower nt_zh
    then text "nt"
    else lower

module _ (f : PriceFloats) where
  unfoldable pub f64_of : Option RecordValue → Option ℕ
  f64_of (some (float x)) = some x
  f64_of (some (int n)) = some (f.from_i64 n)
  f64_of _ = none

  unfoldable pub f64_field : NormalizedRecord → Text → Option ℕ
  unfolding f64_of
  f64_field r name = f64_of (get name r.fields)

  unfoldable pub str_of : Option RecordValue → Option Text
  str_of none = none
  str_of (some null) = none
  str_of (some (str s)) = some s
  str_of (some (int n)) = some (show_int n)
  str_of (some (float x)) = some (f.show x)
  str_of (some (bool b)) = some (show_bool b)

  unfoldable pub str_field : NormalizedRecord → Text → Option Text
  unfolding str_of
  str_field r name = str_of (get name r.fields)

  unfoldable pub derive_unit_price : Option ℕ → Option ℕ → Option ℕ
  derive_unit_price (some p) (some a) = if f.positive a then some (f.div p a) else none
  derive_unit_price _ _ = none

  -- No price and no area: not a listing.
  abbrev pub no_signal : Option ℕ → Option ℕ → Option ℕ → Bool
  no_signal price build net = is_none price && is_none build && is_none net

  unfoldable pub project_midland : NormalizedRecord → Option CanonicalListing
  unfolding f64_field str_field derive_unit_price normalize_region
  project_midland r =
      let price = f64_field r (text "sale_price_hkd") in
      let build = f64_field r (text "build_area_sqft") in
      let net = f64_field r (text "net_area_sqft") in
      if no_signal price build net
      then none
      else some record {
        source = midland;
        source_record_id = r.record_id;
        region = Option.map normalize_region (str_field r (text "region"));
        estate = str_field r (text "estate_name");
        price_hkd = price;
        build_area_sqft = build;
        net_area_sqft = net;
        unit_price_net =
            or_else (f64_field r (text "price_per_net_sqft")) (derive_unit_price price net);
        is_primary = none;
        tx_date_month = none;
        tx_type = str_field r (text "tx_type");
      }

  unfoldable pub project_chungsen : NormalizedRecord → Option CanonicalListing
  unfolding f64_field derive_unit_price
  project_chungsen r =
      let price_10k = f64_field r (text "price_10k") in
      let build = f64_field r (text "build_area_sqft") in
      let net = f64_field r (text "saleable_area_sqft") in
      let price = Option.map (λ p. f.mul p (f.literal (text "10000.0"))) price_10k in
      if no_signal price_10k build net
      then none
      else some record {
        source = chung_sen;
        source_record_id = r.record_id;
        region = none;
        estate = none;
        price_hkd = price;
        build_area_sqft = build;
        net_area_sqft = net;
        unit_price_net = derive_unit_price price net;
        is_primary = none;
        tx_date_month = none;
        tx_type = none;
      }
