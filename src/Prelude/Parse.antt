-- ===== src/Prelude/Parse.antt =====
-- `str::parse` at Rust's integers: an optional sign and decimal digits, no others, within the range.
use Prim.Native.Nat.{ℕ, ◌+◌, ◌-◌, ◌*◌}
use mathlib.Core.Bool.{Bool, ◌&&◌}
use mathlib.Core.List.{[], ◌∷◌}
use mathlib.Core.Option.{Option, none, some}
use hkgov_rethink.Prelude.Tests.{◌==◌, leb, if◌then◌else◌}
use hkgov_rethink.Prelude.Texts.{Text}
use hkgov_rethink.Prelude.Int.{ℤ, pos, neg_ℕ}

abbrev pub is_digit : ℕ → Bool
is_digit c = leb b'0' c && leb c b'9'

-- The digits behind those that make `acc`.
abbrev pub digits_from : ℕ → Text → Option ℕ
digits_from acc [] = some acc
digits_from acc (c ∷ s) =
    let rest = digits_from (acc * 10 + (c - 48)) s in if is_digit c then rest else none

abbrev pub digits : Text → Option ℕ
digits [] = none
digits (c ∷ s) = digits_from 0 (c ∷ s)

abbrev pub at_most : ℕ → Option ℕ → Option ℕ
at_most largest none = none
at_most largest (some n) = if leb n largest then some n else none

-- For an unsigned type with this largest value.
unfoldable pub parse_unsigned : ℕ → Text → Option ℕ
parse_unsigned largest [] = none
parse_unsigned largest (c ∷ s) = at_most largest (digits (if c == b'+' then s else c ∷ s))

abbrev pub as_signed : (ℕ → ℤ) → Option ℕ → Option ℤ
as_signed f none = none
as_signed f (some n) = some (f n)

-- For a signed type with this largest value, and the smallest one below its opposite.
unfoldable pub parse_signed : ℕ → Text → Option ℤ
parse_signed largest [] = none
parse_signed largest (c ∷ s) =
    if c == b'-'
    then as_signed neg_ℕ (at_most (largest + 1) (digits s))
    else as_signed pos (at_most largest (digits (if c == b'+' then s else c ∷ s)))
