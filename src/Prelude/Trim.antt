-- ===== src/Prelude/Trim.antt =====
-- `str::trim`: the white space of Unicode, in UTF-8, off both ends.
use Prim.Native.Nat.{ℕ, zero, suc}
use mathlib.Core.Bool.{Bool, ◌&&◌, ◌||◌}
use mathlib.Core.List.{[], ◌∷◌, reverse}
use hkgov_rethink.Prelude.Tests.{◌==◌, leb, if◌then◌else◌}
use hkgov_rethink.Prelude.Lists.{length, drop}
use hkgov_rethink.Prelude.Texts.{Text}

-- The white space characters of one, two and three bytes.
abbrev is_space1 : ℕ → Bool
is_space1 a = (leb 9 a && leb a 13) || a == 32

abbrev is_space2 : ℕ → ℕ → Bool
is_space2 a b = a == 194 && (b == 133 || b == 160)

abbrev is_space3 : ℕ → ℕ → ℕ → Bool
is_space3 a b c =
    (a == 225 && b == 154 && c == 128)
    || (a == 226 && b == 128 && ((leb 128 c && leb c 138) || c == 168 || c == 169 || c == 175))
    || (a == 226 && b == 129 && c == 159)
    || (a == 227 && b == 128 && c == 128)

-- The length of the white space character that a text begins with, or 0.
leading : Text → ℕ
leading [] = 0
leading (a ∷ []) = if is_space1 a then 1 else 0
leading (a ∷ b ∷ []) = if is_space1 a then 1 else if is_space2 a b then 2 else 0
leading (a ∷ b ∷ c ∷ s) =
    if is_space1 a then 1 else if is_space2 a b then 2 else if is_space3 a b c then 3 else 0

-- The same for the end of a text, which is given from the end.
trailing : Text → ℕ
trailing [] = 0
trailing (a ∷ []) = if is_space1 a then 1 else 0
trailing (a ∷ b ∷ []) = if is_space1 a then 1 else if is_space2 b a then 2 else 0
trailing (a ∷ b ∷ c ∷ s) =
    if is_space1 a then 1 else if is_space2 b a then 2 else if is_space3 c b a then 3 else 0

-- Characters off the front, as often as there is one; a text has no more of them than bytes.
strip : (Text → ℕ) → ℕ → Text → Text
strip f zero s = s
strip f (suc fuel) s = let rest = strip f fuel (drop (f s) s) in if f s == 0 then s else rest

unfoldable pub trim : Text → Text
unfolding leading trailing strip
trim s =
    let front = strip leading (length s) s in
    reverse (strip trailing (length front) (reverse front))
