-- ===== src/Ingest/Caps.antt =====
-- `sanitize_records` of crates/ingest/src/lib.rs: what it does, and the bound that it sets.
use hkgov_rethink.Prelude.{
  ◌≡◌, ◌≤◌, refl, sym, ap, false, List, [], ◌∷◌, map, Text, Map, values, any, length, leb, All,
  arith, Bool-cases, inl, inr, length-take, le→leb, ltb→le,
}
use mathlib.Core.Path.{subst}
use hkgov_rethink.Common.Model.{
  RecordValue, null, bool, int, float, str, NormalizedRecord, cap_str, max_field_bytes,
  floor_boundary,
}
use hkgov_rethink.Common.Truncation.{floor_boundary-IsCut}
use hkgov_rethink.Ingest.{is_oversized, is_dirty, cap_fields, cap_record, sanitize_records}

-- A text of at most 4096 bytes, or any other value.
abbrev pub IsBounded : RecordValue → Type 0
IsBounded (str s) = length s ≤ max_field_bytes
IsBounded _ = Unit

-- Every value of the record's fields is bounded.
abbrev pub IsCapped : NormalizedRecord → Type 0
IsCapped r = All (λ (e : Text × RecordValue). IsBounded e.1) r.fields

cap_str-IsBounded : (v : RecordValue) → IsBounded (cap_str max_field_bytes v)
unfolding cap_str
cap_str-IsBounded null = tt
cap_str-IsBounded (bool b) = tt
cap_str-IsBounded (int n) = tt
cap_str-IsBounded (float f) = tt
cap_str-IsBounded (str s) = elim (Bool-cases (leb (length s) max_field_bytes)) [
  | inl short ↦ rw short (ground arith)
  | inr long ↦ rw long (
      omega (
        arith,
        length-take (floor_boundary s max_field_bytes) s,
        (floor_boundary-IsCut s max_field_bytes).0,
      ))
]

cap_str_small : (v : RecordValue) → is_oversized v ≡ false → cap_str max_field_bytes v ≡ v
unfolding cap_str
cap_str_small null h = refl
cap_str_small (bool b) h = refl
cap_str_small (int n) h = refl
cap_str_small (float f) h = refl
cap_str_small (str s) h =
    rw (le→leb (length s) max_field_bytes (ltb→le max_field_bytes (length s) h))

cap_fields_clean :
    (fs : Map Text RecordValue) → any is_oversized (values fs) ≡ false → cap_fields fs ≡ fs
cap_fields_clean [] h = refl
cap_fields_clean ((k, v) ∷ fs) h =
    let small : is_oversized v ≡ false = ground arith in
    let rest : any is_oversized (values fs) ≡ false = ground arith in
    rw (cap_str_small v small, cap_fields_clean fs rest)

cap_all_clean : (rs : List NormalizedRecord) → any is_dirty rs ≡ false → map cap_record rs ≡ rs
cap_all_clean [] h = refl
cap_all_clean (r ∷ rs) h =
    let clean : is_dirty r ≡ false = ground arith in
    let rest : any is_dirty rs ≡ false = ground arith in
    let whole : cap_record r ≡ r =
      ap (λ fs. record r { fields = fs }) (cap_fields_clean r.fields clean) in
    rw (whole, cap_all_clean rs rest)

cap_fields-IsBounded :
    (fs : Map Text RecordValue) → All (λ (e : Text × RecordValue). IsBounded e.1) (cap_fields fs)
cap_fields-IsBounded [] = tt
cap_fields-IsBounded ((k, v) ∷ fs) = (cap_str-IsBounded v, cap_fields-IsBounded fs)

cap-All-IsCapped : (rs : List NormalizedRecord) → All IsCapped (map cap_record rs)
cap-All-IsCapped [] = tt
cap-All-IsCapped (r ∷ rs) = (cap_fields-IsBounded r.fields, cap-All-IsCapped rs)

-- The fast path of the sanitizer changes nothing: whether or not a field is oversized, the result is
-- that of capping every field of every record, and no field's value in it is a text longer than 4096
-- bytes.
pub sanitize_records_lem :
    (rs : List NormalizedRecord)
    → (sanitize_records rs ≡ map cap_record rs) × All IsCapped (sanitize_records rs)
unfolding sanitize_records
sanitize_records_lem rs = elim (Bool-cases (any is_dirty rs)) [
  | inl dirty ↦ rw dirty (refl, cap-All-IsCapped rs)
  | inr clean ↦
      let same = cap_all_clean rs clean in
      rw clean (sym same, subst (All IsCapped) same (cap-All-IsCapped rs))
]
