-- ===== src/Portals/Shuffle.antt =====
-- The composite of crates/connectors/src/property_canon.rs does not depend on the order in which a
-- portal lists its listings.
use hkgov_rethink.Prelude.{
  ℕ, ◌≡◌, refl, ap, ◌∙◌, ◌&&◌, not, List, [], ◌∷◌, Option, none, some, Text, select, All,
  All-select, select-Permᴰ, length-Permᴰ, arith,
}
use mathlib.Core.List.{Permᴰ}
use mathlib.Core.List.Permᴰ
use hkgov_rethink.Common.Sources.{DataSource}
use hkgov_rethink.Portals.Canon.{CanonicalListing, PriceFloats, is_none}
use hkgov_rethink.Portals.Median.{IsPrice, OrdersBits, median-Permᴰ}
use hkgov_rethink.Portals.Composite.{
  keep, filter_map, matches, prices_of, median_or_none, Sums, add_portal, add_portals,
  build_composite,
}

module _ {A B : Type 0} (g : A → Option B) where
  kept_cons : (o : Option B) {xs ys : List B} → Permᴰ xs ys → Permᴰ (keep o xs) (keep o ys)
  kept_cons none h = h
  kept_cons (some b) h = Permᴰ.cons refl h

  kept_swap : (o p : Option B) (xs : List B) → Permᴰ (keep o (keep p xs)) (keep p (keep o xs))
  kept_swap none p xs = Permᴰ.refl _
  kept_swap (some b) none xs = Permᴰ.refl _
  kept_swap (some b) (some c) xs = Permᴰ.swap refl refl

  filter_map-Permᴰ : {xs ys : List A} → Permᴰ xs ys → Permᴰ (filter_map g xs) (filter_map g ys)
  unfolding filter_map
  filter_map-Permᴰ Permᴰ.nil = Permᴰ.nil
  filter_map-Permᴰ (Permᴰ.cons {a = a} e h) = rw (← e) (kept_cons (g a) (filter_map-Permᴰ h))
  filter_map-Permᴰ (Permᴰ.swap {a = a} {b = b} {l = l} e d) =
      rw (← e, ← d) (kept_swap (g a) (g b) (filter_map g l))
  filter_map-Permᴰ (Permᴰ.trans h k) = Permᴰ.trans (filter_map-Permᴰ h) (filter_map-Permᴰ k)

module _ (f : PriceFloats) where
  -- The same portals, with their listings in any order.
  abbrev pub Shuffled :
      List (DataSource × List CanonicalListing) → List (DataSource × List CanonicalListing) → Type 0
  Shuffled [] [] = Unit
  Shuffled ((s, ls) ∷ ps) ((s', ls') ∷ qs) = (s ≡ s') × (Permᴰ ls ls' × Shuffled ps qs)
  Shuffled _ _ = ⊥

  prices_of-Permᴰ :
      (region month : Option Text) {xs ys : List CanonicalListing}
      → Permᴰ xs ys
      → Permᴰ (prices_of f region month xs) (prices_of f region month ys)
  unfolding prices_of
  prices_of-Permᴰ region month p = select-Permᴰ _ (
      filter_map-Permᴰ _
        (select-Permᴰ _ (select-Permᴰ _ (select-Permᴰ (λ l. matches region l.region) p))))

  prices_of-IsPrice :
      (region month : Option Text) (xs : List CanonicalListing)
      → All (IsPrice f) (prices_of f region month xs)
  unfolding prices_of
  prices_of-IsPrice region month xs =
      All-select (λ p. f.positive p && f.is_finite p)
        (filter_map (λ l. l.unit_price_net)
          (select (λ l. not (is_none l.unit_price_net))
            (select (λ l. matches month l.tx_date_month)
              (select (λ l. matches region l.region) xs))))

  median_or_none-Permᴰ :
      (o : OrdersBits f) (xs ys : List ℕ)
      → All (IsPrice f) xs
      → All (IsPrice f) ys
      → Permᴰ xs ys
      → median_or_none f xs ≡ median_or_none f ys
  unfolding median_or_none
  median_or_none-Permᴰ o [] [] a b p = refl
  median_or_none-Permᴰ o [] (y ∷ ys) a b p = ground (arith, length-Permᴰ p)
  median_or_none-Permᴰ o (x ∷ xs) [] a b p = ground (arith, length-Permᴰ p)
  median_or_none-Permᴰ o (x ∷ xs) (y ∷ ys) a b p =
      ap some (median-Permᴰ f o (x ∷ xs) (y ∷ ys) a b p)

  add_portal-Permᴰ :
      (o : OrdersBits f) (s : DataSource) (xs ys : List ℕ) (sums : Sums)
      → All (IsPrice f) xs
      → All (IsPrice f) ys
      → Permᴰ xs ys
      → add_portal f s xs sums ≡ add_portal f s ys sums
  unfolding add_portal
  add_portal-Permᴰ o s xs ys sums a b p =
      rw (median_or_none-Permᴰ o xs ys a b p, length-Permᴰ p) refl

  add_portals-Shuffled :
      (o : OrdersBits f) (region month : Option Text)
      (ps qs : List (DataSource × List CanonicalListing)) (sums : Sums)
      → Shuffled ps qs
      → add_portals f region month ps sums ≡ add_portals f region month qs sums
  unfolding add_portals
  add_portals-Shuffled o region month [] [] sums h = refl
  add_portals-Shuffled o region month [] (q ∷ qs) sums h = absurd h
  add_portals-Shuffled o region month (p ∷ ps) [] sums h = absurd h
  add_portals-Shuffled o region month ((s, ls) ∷ ps) ((s', ls') ∷ qs) sums (e, (h, t)) = rw e (
      add_portals-Shuffled o region month ps qs (add_portal f s' (prices_of f region month ls) sums)
        t
      ∙ ap (add_portals f region month qs) (
          add_portal-Permᴰ o s' (prices_of f region month ls) (prices_of f region month ls') sums
            (prices_of-IsPrice region month ls) (prices_of-IsPrice region month ls')
            (prices_of-Permᴰ region month h)))

  -- The composite of a region and a month, with its medians and its counts, is the same in whatever
  -- order each portal delivers its listings.
  pub build_composite-Shuffled :
      (o : OrdersBits f) (region month : Option Text)
      (ps qs : List (DataSource × List CanonicalListing))
      → Shuffled ps qs
      → build_composite f region month ps ≡ build_composite f region month qs
  unfolding build_composite
  build_composite-Shuffled o region month ps qs h =
      rw (add_portals-Shuffled o region month ps qs ([], ([], 0)) h) refl
