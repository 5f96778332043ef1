-- ===== src/Common/Model.antt =====
-- The record model of crates/common/src/model.rs. An `f64` is its bit pattern; a time is a count
-- of nanoseconds; an `i64` is kept as its bit pattern too, since nothing here computes with it.
use hkgov_rethink.Prelude.{
  ℕ, zero, suc, Bool, true, false, ◌||◌, List, Option, Text, Map, leb, ltb, ◌==◌, if◌then◌else◌,
  take, length, get_elem?, none, some,
}
use hkgov_rethink.Common.Sources.{DataSource}

pub data RecordValue : Type 0 where
  null : RecordValue
  bool : Bool → RecordValue
  int : ℕ → RecordValue
  float : ℕ → RecordValue
  str : Text → RecordValue

pub record NormalizedRecord : Type 0 where
  pub source : DataSource
  pub dataset : Text
  pub record_id : Text
  pub fields : Map Text RecordValue
  pub fetched_at : ℕ

pub data Category : Type 0 where
  monetary fiscal property trade population livability government other : Category

-- `Cadence` of crates/common/src/config.rs.
pub data Cadence : Type 0 where
  daily weekly monthly quarterly biannual annual unknown : Cadence

pub record DatasetMeta : Type 0 where
  pub source : DataSource
  pub dataset : Text
  pub title : Text
  pub description : Option Text
  pub category : Category
  pub tags : List Text
  pub cadence : Cadence
  pub refresh_interval_secs : ℕ
  pub last_refreshed_at : Option ℕ
  pub record_count : ℕ

-- `str::is_char_boundary`: the ends, and any byte that does not continue a character.
unfoldable pub is_char_boundary : Text → ℕ → Bool
is_char_boundary s i =
    if i == 0 || i == length s
    then true
    else elim (get_elem? s i) [ none ↦ false | some b ↦ ltb b 128 || leb 192 b ]

-- `while !s.is_char_boundary(end) { end -= 1; }`; position 0 is a boundary.
unfoldable pub floor_boundary : Text → ℕ → ℕ
unfolding is_char_boundary
floor_boundary s zero = zero
floor_boundary s (suc e) = if is_char_boundary s (suc e) then suc e else floor_boundary s e

unfoldable pub cap_str : ℕ → RecordValue → RecordValue
unfolding floor_boundary
cap_str n (str s) = if leb (length s) n then str s else str (take (floor_boundary s n) s)
cap_str n null = null
cap_str n v = v

abbrev pub max_field_bytes : ℕ
max_field_bytes = 4096
