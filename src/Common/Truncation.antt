-- ===== src/Common/Truncation.antt =====
-- What `RecordValue::cap_str` (crates/common/src/model.rs) keeps of a text that is too long.
use hkgov_rethink.Prelude.{
  ℕ, zero, suc, ◌≡◌, refl, ◌≤◌, ◌<◌, true, false, Text, take, length, length-take, arith, inl, inr,
  dec_le, ◌⊎◌, le→leb, lt→leb, Bool-cases,
}
use hkgov_rethink.Common.Model.{str, is_char_boundary, floor_boundary, cap_str}

-- The cut is at most the cap, on a boundary, and no boundary lies between it and the cap.
abbrev pub IsCut : Text → ℕ → ℕ → Type 0
IsCut s n e =
    (e ≤ n)
    × (is_char_boundary s e ≡ true)
    × ((i : ℕ) → e < i → i ≤ n → is_char_boundary s i ≡ false)

zero_boundary : (s : Text) → is_char_boundary s 0 ≡ true
unfolding is_char_boundary
zero_boundary s = refl

-- Past a position that is no boundary the cut is that of the position below.
IsCut-suc :
    (s : Text) (n e : ℕ) → is_char_boundary s (suc n) ≡ false → IsCut s n e → IsCut s (suc n) e
IsCut-suc s n e here (below, boundary, gap) = (omega arith, boundary, beyond)
  where
    beyond : (i : ℕ) → e < i → i ≤ suc n → is_char_boundary s i ≡ false
    beyond i h k = elim (dec_le i n) [
      | yes inside ↦ gap i h inside
      | no past ↦ let top : i ≡ suc n = omega arith in rw top here
    ]

pub floor_boundary-IsCut : (s : Text) (n : ℕ) → IsCut s n (floor_boundary s n)
unfolding floor_boundary
floor_boundary-IsCut s zero = (omega arith, zero_boundary s, λ i h k. absurd (omega arith))
floor_boundary-IsCut s (suc n) = elim (Bool-cases (is_char_boundary s (suc n))) [
  | inl here ↦ rw here (omega arith, here, λ i h k. absurd (omega arith))
  | inr not_here ↦
      rw not_here (IsCut-suc s n (floor_boundary s n) not_here (floor_boundary-IsCut s n))
]

-- A text within the cap is kept as it is. A longer one is cut to its longest prefix within the cap
-- that ends on a character boundary, so that the result is within the cap.
pub cap_str_lem :
    (n : ℕ) (s : Text)
    → ((length s ≤ n) × (cap_str n (str s) ≡ str s))
      ⊎ ((n < length s)
          × ((e : ℕ) × IsCut s n e
              × (cap_str n (str s) ≡ str (take e s))
              × (length (take e s) ≡ e)))
unfolding cap_str
cap_str_lem n s = elim (dec_le (length s) n) [
  | yes short ↦ inl (short, rw (le→leb _ _ short))
  | no long ↦ inr (
    omega arith,
    (
      floor_boundary s n,
      floor_boundary-IsCut s n,
      rw (lt→leb n (length s) (omega arith)),
      omega (arith, length-take (floor_boundary s n) s, (floor_boundary-IsCut s n).0),
    ),
  )
]
