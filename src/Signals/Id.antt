-- ===== src/Signals/Id.antt =====
-- `signal_id` of crates/agent/src/signal.rs. `sip` is the standard library's `DefaultHasher` on the
-- bytes that are written to it: a text and 0xff, an enum's tag as eight bytes, an array after its
-- length.
use hkgov_rethink.Prelude.{
  ℕ, zero, suc, ◌/◌, ◌%◌, [], ◌∷◌, ◌++◌, Option, none, some, Text, text, concat,
}
use hkgov_rethink.Common.Model.{
  Cadence, daily, weekly, monthly, quarterly, biannual, annual, unknown,
}
use hkgov_rethink.Scheduler.Targets.{
  ScanTarget, CompanionRef, Comparison, period_over_period, year_over_year,
}
use hkgov_rethink.Analysis.Finding.{hashed, hex_digits}

abbrev pub cadence_slug : Cadence → Text
cadence_slug daily = text "daily"
cadence_slug weekly = text "weekly"
cadence_slug monthly = text "monthly"
cadence_slug quarterly = text "quarterly"
cadence_slug biannual = text "biannual"
cadence_slug annual = text "annual"
cadence_slug unknown = text "unknown"

abbrev pub comparison_slug : Comparison → Text
comparison_slug period_over_period = text "period_over_period"
comparison_slug year_over_year = text "year_over_year"

-- `to_le_bytes` of so many bytes.
unfoldable pub le_bytes : ℕ → ℕ → Text
le_bytes zero m = []
le_bytes (suc n) m = m % 256 ∷ le_bytes n (m / 256)

unfoldable pub hashed_text : Option Text → Text
unfolding le_bytes
hashed_text none = le_bytes 8 0
hashed_text (some s) = le_bytes 8 1 ++ hashed s

unfoldable pub hashed_threshold : Option ℕ → Text
unfolding le_bytes
hashed_threshold none = le_bytes 8 0
hashed_threshold (some t) = le_bytes 8 1 ++ (le_bytes 8 8 ++ le_bytes 8 t)

unfoldable pub hashed_companion : Option CompanionRef → Text
hashed_companion none = 0 ∷ []
hashed_companion (some c) = 1 ∷ hashed c.source ++ hashed c.dataset

unfoldable pub signal_bytes : Text → ScanTarget → Text
unfolding hashed_text hashed_threshold hashed_companion
signal_bytes owner t = concat (
    hashed owner
    ∷ hashed t.source
    ∷ hashed t.dataset
    ∷ hashed t.detector
    ∷ hashed_text t.field
    ∷ hashed_threshold t.threshold
    ∷ hashed_text t.direction
    ∷ hashed (cadence_slug t.cadence)
    ∷ hashed (comparison_slug t.comparison)
    ∷ hashed_text t.field_b
    ∷ hashed_companion t.companion
    ∷ hashed_text t.companion_field
    ∷ hashed_text t.join_field
    ∷ [])

-- `{:016x}` of the 64-bit hash
unfoldable pub signal_id : (Text → ℕ) → Text → ScanTarget → Text
unfolding signal_bytes
signal_id sip owner compiled =
    text "sig:" ++ (owner ++ (text ":" ++ hex_digits 16 (sip (signal_bytes owner compiled)) []))
