-- ===== src/Portals/Median.antt =====
-- `median` of crates/connectors/src/property_canon.rs, of prices that are positive and finite.
use hkgov_rethink.Prelude.{
  ℕ, zero, suc, ◌-◌, ◌/◌, ◌%◌, ◌≡◌, refl, sym, ap, ◌∙◌, arith, true, ◌&&◌, text, List, [], ◌∷◌,
  Option, none, some, Ordering, compare, ◌==◌, if◌then◌else◌, length, sort_by, sort_by-agree,
  sort_by-eq_of_Permᴰ, length-Permᴰ, All, nat_key,
}
use mathlib.Core.List.{Permᴰ}
use hkgov_rethink.Portals.Canon.{PriceFloats}

-- The element at an index, which is in range wherever the code takes it.
abbrev pub element : List ℕ → ℕ → ℕ
element [] i = 0
element (x ∷ xs) zero = x
element (x ∷ xs) (suc i) = element xs i

-- `unwrap_or(Ordering::Equal)`
abbrev pub or_equal : Option Ordering → Ordering
or_equal none = Ordering.eq
or_equal (some o) = o

-- A price that the code keeps.
abbrev pub IsPrice : PriceFloats → ℕ → Type 0
IsPrice f p = (f.positive p && f.is_finite p) ≡ true

-- What the code relies on: positive finite numbers are ordered as their bits are.
pub record OrdersBits (f : PriceFloats) : Type 0 where
  pub by_bits : (a b : ℕ) → IsPrice f a → IsPrice f b → f.partial_cmp a b ≡ some (compare a b)

module _ (f : PriceFloats) where
  abbrev pub ascending : ℕ → ℕ → Ordering
  ascending a b = or_equal (f.partial_cmp a b)

  -- The middle of a sorted list.
  abbrev pub middle : List ℕ → ℕ
  middle sorted =
      let n = length sorted in
      if n % 2 == 1
      then element sorted (n / 2)
      else f.div (f.add (element sorted (n / 2 - 1)) (element sorted (n / 2)))
          (f.literal (text "2.0"))

  -- 0 is `0.0`.
  unfoldable pub median : List ℕ → ℕ
  median [] = 0
  median (x ∷ xs) = middle (sort_by ascending (x ∷ xs))

  ascending-compare :
      (o : OrdersBits f) (a b : ℕ) → IsPrice f a → IsPrice f b → ascending a b ≡ compare a b
  ascending-compare o a b p q = ap or_equal (o.by_bits a b p q)

  -- The order of the prices does not matter.
  pub median-Permᴰ :
      (o : OrdersBits f) (xs ys : List ℕ)
      → All (IsPrice f) xs
      → All (IsPrice f) ys
      → Permᴰ xs ys
      → median xs ≡ median ys
  unfolding median
  median-Permᴰ o [] [] a b p = refl
  median-Permᴰ o [] (y ∷ ys) a b p = ground (arith, length-Permᴰ p)
  median-Permᴰ o (x ∷ xs) [] a b p = ground (arith, length-Permᴰ p)
  median-Permᴰ o (x ∷ xs) (y ∷ ys) a b p = ap middle (
      sort_by-agree (IsPrice f) ascending compare (ascending-compare o) (x ∷ xs) a
      ∙ (sort_by-eq_of_Permᴰ p
          ∙ sym (sort_by-agree (IsPrice f) ascending compare (ascending-compare o) (y ∷ ys) b)))
