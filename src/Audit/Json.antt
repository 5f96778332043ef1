-- ===== src/Audit/Json.antt =====
-- `serde_json::Value`, and its canonical text in crates/agent/src/cite.rs. Numbers are a `u64`, an
-- `i64` or an `f64`, the last two by their bits. The rest of `serde_json` is a record of functions.
use hkgov_rethink.Prelude.{
  ℕ, Ordering, Bool, List, [], ◌∷◌, Option, none, some, Text, text, text_cmp, text_key, Map,
  sort_by, insert_entries, if◌then◌else◌,
}
use hkgov_rethink.Common.Model.{RecordValue}

pub data Number : Type 0 where
  pos_int neg_int float : ℕ → Number

mutual
  pub data Json : Type 0 where
    null : Json
    bool : Bool → Json
    number : Number → Json
    string : Text → Json
    array : Items → Json
    object : Members → Json

  pub data Items : Type 0 where
    no_items : Items
    item : Json → Items → Items

  -- `serde_json::Map`, which keeps its keys sorted.
  pub data Members : Type 0 where
    no_members : Members
    member : Text → Json → Members → Members

-- `Number::as_f64`, the tests of an `f64`, and `to_string` of a value, of a record's value and of a
-- finite `f64`, each with the fallback that the source has for an error.
pub record Serde : Type 0 where
  pub f64_of : Number → ℕ
  pub is_nan : ℕ → Bool
  pub is_infinite : ℕ → Bool
  pub is_positive : ℕ → Bool
  pub json_text : Json → Text
  pub value_text : RecordValue → Text
  pub float_text : ℕ → Text

abbrev pub quoted_nan : Text
quoted_nan = text "\"__nan__\""

abbrev pub quoted_inf : Text
quoted_inf = text "\"__inf__\""

abbrev pub quoted_ninf : Text
quoted_ninf = text "\"__ninf__\""

abbrev pub key_cmp : Text × Json → Text × Json → Ordering
key_cmp (a, v) (b, w) = text_cmp a b

abbrev pub members_of : Map Text Json → Members
members_of [] = no_members
members_of ((k, v) ∷ m) = member k v (members_of m)

unfoldable mutual
  unfolding sort_by

  pub canonicalize : Json → Json
  canonicalize null = null
  canonicalize (bool b) = bool b
  canonicalize (number n) = number n
  canonicalize (string s) = string s
  canonicalize (array items) = array (canonical_items items)
  canonicalize (object members) =
      object (members_of (insert_entries [] (sort_by key_cmp (canonical_members members))))

  pub canonical_items : Items → Items
  canonical_items no_items = no_items
  canonical_items (item v items) = item (canonicalize v) (canonical_items items)

  pub canonical_members : Members → List (Text × Json)
  canonical_members no_members = []
  canonical_members (member k v members) = (k, canonicalize v) ∷ canonical_members members

module _ (s : Serde) where
  -- `Value::as_f64`
  unfoldable pub as_f64 : Json → Option ℕ
  as_f64 (number n) = some (s.f64_of n)
  as_f64 _ = none

  abbrev pub tagged_or : Text → ℕ → Text
  tagged_or plain f =
      if s.is_nan f
      then quoted_nan
      else if s.is_infinite f
      then if s.is_positive f then quoted_inf else quoted_ninf
      else plain

  unfoldable pub canonical_value_to_string : Json → Text
  canonical_value_to_string (number n) = tagged_or (s.json_text (number n)) (s.f64_of n)
  canonical_value_to_string v = s.json_text v

  unfoldable pub canonical_json_string : Json → Text
  unfolding canonical_value_to_string canonicalize
  canonical_json_string v = canonical_value_to_string (canonicalize v)

  unfoldable pub canonical_f64 : ℕ → Text
  canonical_f64 f = tagged_or (s.float_text f) f

  unfoldable pub canonical_record_value_string : RecordValue → Text
  unfolding canonical_f64
  canonical_record_value_string (RecordValue.float f) = canonical_f64 f
  canonical_record_value_string v = s.value_text v
