-- ===== src/Common/Examples.antt =====
-- Witnesses and tests of the common types.
use hkgov_rethink.Prelude.{◌≡◌, refl, Text, text, [], ◌∷◌}
use hkgov_rethink.Common.Errors.{Error, not_found}
use hkgov_rethink.Common.Model.{cap_str, str}

abbrev missing : Error
missing = not_found (text "dataset")

-- An `a` and a character of three bytes.
abbrev wide : Text
wide = 97 ∷ 226 ∷ 130 ∷ 172 ∷ []

cap_str-wide : cap_str 3 (str wide) ≡ str (97 ∷ [])
unfolding cap_str
cap_str-wide = refl
