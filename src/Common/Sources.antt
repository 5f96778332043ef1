-- ===== src/Common/Sources.antt =====
-- `DataSource` of crates/common/src/model.rs: its names, and their parser with its aliases.
use hkgov_rethink.Prelude.{
  ℕ, zero, suc, ◌≡◌, refl, sym, ap, ◌∙◌, ◌||◌, [], ◌∷◌, Option, none, some, Text, text,
  to_ascii_lowercase, same, text_key, if◌then◌else◌, Key, compare, Ordering, nat_key,
}

pub data DataSource : Type 0 where
  hkma data_gov_hk press lands_d immigration land_registry rvd chung_sen : DataSource
  aa_property hkp midland : DataSource

unfoldable pub as_str : DataSource → Text
as_str hkma = text "hkma"
as_str data_gov_hk = text "datagovhk"
as_str press = text "press"
as_str lands_d = text "landsd"
as_str immigration = text "immigration"
as_str land_registry = text "landregistry"
as_str rvd = text "rvd"
as_str chung_sen = text "chungsen"
as_str aa_property = text "aaproperty"
as_str hkp = text "hkp"
as_str midland = text "midland"

-- The three aliases that are not ASCII, as UTF-8.
abbrev aa_property_zh : Text
aa_property_zh = 0xe7 ∷ 0x92 ∷ 0xb0 ∷ 0xe4 ∷ 0xba ∷ 0x9e ∷ []

abbrev hkp_zh : Text
hkp_zh = 0xe9 ∷ 0xa6 ∷ 0x99 ∷ 0xe6 ∷ 0xb8 ∷ 0xaf ∷ 0xe7 ∷ 0xbd ∷ 0xae ∷ 0xe6 ∷ 0xa5 ∷ 0xad ∷ []

abbrev midland_zh : Text
midland_zh = 0xe7 ∷ 0xbe ∷ 0x8e ∷ 0xe8 ∷ 0x81 ∷ 0xaf ∷ []

unfoldable pub parse : Text → Option DataSource
parse given =
    let s = to_ascii_lowercase given in
    if same s (text "hkma")
    then some hkma
    else if same s (text "datagovhk") || same s (text "data.gov.hk")
    then some data_gov_hk
    else if same s (text "press") || same s (text "isd") || same s (text "info.gov.hk")
    then some press
    else if same s (text "landsd") || same s (text "csdi")
    then some lands_d
    else if same s (text "immigration") || same s (text "immd")
    then some immigration
    else if same s (text "landregistry") || same s (text "lr") || same s (text "landreg")
    then some land_registry
    else if same s (text "rvd") || same s (text "rating") || same s (text "valuation")
    then some rvd
    else if same s (text "chungsen") || same s (text "cs-property") || same s (text "csgroup")
    then some chung_sen
    else if same s (text "aaproperty") || same s (text "aa-property") || same s aa_property_zh
    then some aa_property
    else if same s (text "hkp") || same s (text "hkproperty") || same s hkp_zh
    then some hkp
    else if same s (text "midland") || same s (text "midland-realty") || same s midland_zh
    then some midland
    else none

-- Every source's name parses back to the source.
pub parse-as_str : (d : DataSource) → parse (as_str d) ≡ some d
unfolding parse as_str
parse-as_str hkma = refl
parse-as_str _ = refl

-- The derived order of the variants' positions, which stands for `HashMap`'s own order.
abbrev pub position : DataSource → ℕ
position hkma = 0
position data_gov_hk = 1
position press = 2
position lands_d = 3
position immigration = 4
position land_registry = 5
position rvd = 6
position chung_sen = 7
position aa_property = 8
position hkp = 9
position midland = 10

at : ℕ → DataSource
at zero = hkma
at (suc zero) = data_gov_hk
at (suc (suc zero)) = press
at (suc (suc (suc zero))) = lands_d
at (suc (suc (suc (suc zero)))) = immigration
at (suc (suc (suc (suc (suc zero))))) = land_registry
at (suc (suc (suc (suc (suc (suc zero)))))) = rvd
at (suc (suc (suc (suc (suc (suc (suc zero))))))) = chung_sen
at (suc (suc (suc (suc (suc (suc (suc (suc zero)))))))) = aa_property
at (suc (suc (suc (suc (suc (suc (suc (suc (suc zero))))))))) = hkp
at _ = midland

at-position : (d : DataSource) → at (position d) ≡ d
unfolding at
at-position hkma = refl
at-position _ = refl

pub source_eq : (a b : DataSource) → compare (position a) (position b) ≡ Ordering.eq → a ≡ b
source_eq a b h =
    sym (at-position a) ∙ ap at (nat_key.cmp_eq (position a) (position b) h) ∙ at-position b

instance abbrev pub source_key : Key DataSource
source_key = record {
  cmp = λ a b. compare (position a) (position b);
  cmp_self = λ a. nat_key.cmp_self (position a);
  cmp_eq = source_eq;
  cmp_flip = λ a b. nat_key.cmp_flip (position a) (position b);
  cmp_back = λ a b. nat_key.cmp_back (position a) (position b);
  cmp_trans = λ a b c. nat_key.cmp_trans (position a) (position b) (position c);
}
