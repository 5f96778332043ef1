-- ===== src/Analysis/Periods.antt =====
-- The period keys of crates/agent/src/analysis.rs. `none` is a panic: a slice of a text that ends
-- inside a character. `m - 1` on a `u8` wraps, as in a release build.
use hkgov_rethink.Prelude.{
  ℕ, ◌+◌, ◌-◌, ◌/◌, ◌%◌, Bool, ◌&&◌, [], ◌∷◌, ◌++◌, Option, none, some, Text, text, decimal, take,
  drop, length, leb, ltb, ◌==◌, if◌then◌else◌, parse_unsigned,
}
use hkgov_rethink.Common.Model.{
  Cadence, daily, weekly, monthly, quarterly, biannual, annual, unknown, is_char_boundary,
}

infixl 5 ◌>>=◌
abbrev pub ◌>>=◌ {ℓ κ} : {A : Type ℓ} {B : Type κ} → Option A → (A → Option B) → Option B
none >>= f = none
some a >>= f = f a

-- `&s[a..b]`, for `a` and `b` within the text
unfoldable pub slice : Text → ℕ → ℕ → Option Text
unfolding is_char_boundary
slice s a b =
    if is_char_boundary s a && is_char_boundary s b then some (take (b - a) (drop a s)) else none

unfoldable pub quarter_of : ℕ → ℕ
quarter_of m = (m + 255) % 256 / 3 + 1

unfoldable pub coerce_to_period : Text → Cadence → Option Text
unfolding slice quarter_of
coerce_to_period date monthly = if leb 7 (length date) then slice date 0 7 else some date
coerce_to_period date quarterly =
    if leb 7 (length date)
    then (do
      month ← slice date 5 7
      elim (parse_unsigned 255 month) [
        | none ↦ some date
        | some m ↦ do year ← slice date 0 4; some (year ++ (text "-Q" ++ decimal (quarter_of m)))
      ])
    else some date
coerce_to_period date biannual = if leb 4 (length date) then slice date 0 4 else some date
coerce_to_period date annual = if leb 4 (length date) then slice date 0 4 else some date
coerce_to_period date daily = some date
coerce_to_period date weekly = some date
coerce_to_period date unknown = some date

-- `id.split('|').next().unwrap_or(id)`
unfoldable pub split_period_suffix : Text → Text
split_period_suffix [] = []
split_period_suffix (c ∷ s) = if c == b'|' then [] else c ∷ split_period_suffix s

-- The year before the one that `year` reads as, if there is one.
unfoldable pub year_before : Text → Option ℕ
year_before year = elim (parse_unsigned 4294967295 year) [
  | none ↦ none
  | some y ↦ if ltb 0 y then some (y - 1) else none
]

-- `YYYY-rest` of the year before.
abbrev pub with_year : Text → ℕ → Option (Option Text)
with_year p y = do rest ← slice p 5 (length p); some (some (decimal y ++ (text "-" ++ rest)))

abbrev pub annual_key : Text → Option (Option Text)
annual_key p =
    if length p == 4
    then elim (year_before p) [ some y ↦ some (some (decimal y)) | none ↦ some none ]
    else some none

abbrev pub dated_key : Bool → Text → Option (Option Text) → Option (Option Text)
dated_key test p other =
    if test
    then (do year ← slice p 0 4; elim (year_before year) [ some y ↦ with_year p y | none ↦ other ])
    else other

-- The outer `none` is a panic, the inner one the source's.
unfoldable pub prior_year_period : Text → Option (Option Text)
unfolding split_period_suffix slice year_before
prior_year_period period =
    let p = split_period_suffix period in
    dated_key (leb 10 (length p)) p (dated_key (length p == 7) p (annual_key p))
