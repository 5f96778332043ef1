-- ===== src/Prelude/Decimal.antt =====
-- `to_string` of an unsigned number, as `format!("{n}")` writes it, and that no two numbers share it.
use Prim.Native.Nat.{ℕ, zero, suc, ◌+◌, ◌*◌, ◌/◌, ◌%◌, ◌-◌, ◌<◌}
use mathlib.Core.Path.{◌≡◌, sym, ap, ◌∙◌}
use mathlib.Core.Logic.{inl, inr}
use mathlib.Core.List.{[], ◌∷◌}
use native.Mathlib.Omega.{arith}
use hkgov_rethink.Prelude.Tests.{ltb, if◌then◌else◌, Bool-cases}
use hkgov_rethink.Prelude.Texts.{Text}

-- The digits in front of those already written; a number below the fuel has fewer digits than it.
decimal_from : ℕ → ℕ → Text → Text
decimal_from zero n rest = rest
decimal_from (suc f) n rest =
    let more = decimal_from f (n / 10) ((48 + n % 10) ∷ rest) in
    if ltb n 10 then (48 + n) ∷ rest else more

unfoldable pub decimal : ℕ → Text
unfolding decimal_from
decimal n = decimal_from (suc n) n []

-- The number that digits stand for, after those already read.
abbrev value_from : ℕ → Text → ℕ
value_from acc [] = acc
value_from acc (c ∷ s) = value_from (acc * 10 + (c - 48)) s

value-decimal_from :
    (f n : ℕ) (rest : Text) → n < f → value_from 0 (decimal_from f n rest) ≡ value_from n rest
unfolding decimal_from
value-decimal_from zero n rest h = absurd (omega arith)
value-decimal_from (suc f) n rest h = elim (Bool-cases (ltb n 10)) [
  | inl small ↦
      rw small
        (ap (λ (k : ℕ). value_from k rest) (let e : 0 * 10 + (48 + n - 48) ≡ n = omega arith in e))
  | inr large ↦ rw large (
      value-decimal_from f (n / 10) ((48 + n % 10) ∷ rest) (ground arith)
      ∙ ap (λ (k : ℕ). value_from k rest)
          (let e : n / 10 * 10 + (48 + n % 10 - 48) ≡ n = omega arith in e))
]

value-decimal : (n : ℕ) → value_from 0 (decimal n) ≡ n
unfolding decimal
value-decimal n = value-decimal_from (suc n) n [] (omega arith)

pub decimal-injective : (m n : ℕ) → decimal m ≡ decimal n → m ≡ n
decimal-injective m n e = sym (value-decimal m) ∙ ap (value_from 0) e ∙ value-decimal n
