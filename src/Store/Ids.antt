-- ===== src/Store/Ids.antt =====
-- `DatasetId` of crates/store/src/lib.rs as a key, and the lineage record of lineage.rs.
use hkgov_rethink.Prelude.{
  ℕ, ◌≡◌, Text, Key, compare, Ordering, then_with, text_key, text_cmp, nat_key, arith,
}
use hkgov_rethink.Common.Sources.{DataSource, position, source_key, source_eq}

pub record DatasetId : Type 0 where
  pub source : DataSource
  pub dataset : Text

abbrev pub id_cmp : DatasetId → DatasetId → Ordering
id_cmp a b =
    then_with (compare (position a.source) (position b.source)) (text_cmp a.dataset b.dataset)

pub id_self : (a : DatasetId) → id_cmp a a ≡ Ordering.eq
id_self a = ground (arith, text_key.cmp_self a.dataset)

pub id_eq : (a b : DatasetId) → id_cmp a b ≡ Ordering.eq → a ≡ b
id_eq a b h = ground (arith, source_eq a.source b.source, text_key.cmp_eq a.dataset b.dataset)

pub id_flip : (a b : DatasetId) → id_cmp a b ≡ Ordering.lt → id_cmp b a ≡ Ordering.gt
id_flip a b h = ground (arith, text_key.cmp_flip a.dataset b.dataset)

pub id_back : (a b : DatasetId) → id_cmp a b ≡ Ordering.gt → id_cmp b a ≡ Ordering.lt
id_back a b h = ground (arith, text_key.cmp_back a.dataset b.dataset)

pub id_trans :
    (a b c : DatasetId)
    → id_cmp a b ≡ Ordering.lt
    → id_cmp b c ≡ Ordering.lt
    → id_cmp a c ≡ Ordering.lt
id_trans a b c h k = ground (arith, text_key.cmp_trans a.dataset b.dataset c.dataset)

instance abbrev pub id_key : Key DatasetId
id_key = record {
  cmp = id_cmp;
  cmp_self = id_self;
  cmp_eq = id_eq;
  cmp_flip = id_flip;
  cmp_back = id_back;
  cmp_trans = id_trans;
}

pub data UpstreamFormat : Type 0 where
  hkma_json json_array json_api csv html_next_data html_table feed unknown : UpstreamFormat

pub record DatasetLineage : Type 0 where
  pub source : DataSource
  pub dataset : Text
  pub upstream_url : Text
  pub upstream_format : UpstreamFormat
  pub schema_version : Text
  pub content_sha256 : Text
  pub last_fetched_at : ℕ
  pub record_count_at_fetch : ℕ
