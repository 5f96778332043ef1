-- ===== src/Portals/Undated.antt =====
-- What `detect_portal_divergence` (crates/connectors/src/property_canon.rs) can find for listings
-- without a month, which all of Midland's are.
use hkgov_rethink.Prelude.{
  ℕ, ◌≡◌, refl, Bool, true, false, not, ◌||◌, List, [], ◌∷◌, Option, none, some, Text, ◌⊎◌,
  Bool-cases, inl, inr, All, arith, text_key, sort_by,
}
use hkgov_rethink.Common.Model.{NormalizedRecord}
use hkgov_rethink.Common.Sources.{DataSource, midland}
use hkgov_rethink.Portals.Canon.{CanonicalListing, PriceFloats, is_none, project_midland}
use hkgov_rethink.Portals.Composite.{filter_map}
use hkgov_rethink.Portals.Divergence.{
  JoinKey, region_and_month, month, region, Bucket, Buckets, same_option, same_bucket, push,
  find_bucket, key_of, add_listing, buckets_from, bucket_by_join, both, compare_medians,
  compare_buckets, detect_portal_divergence, PortalDivergenceFinding, union_keys,
}

-- Buckets that all have a month, or none of which has one.
abbrev IsDated : Bool → Bucket × List ℕ → Type 0
IsDated d (k, ps) = is_none k.1 ≡ d

push-IsDated :
    (d : Bool) (k : Bucket) (p : ℕ) (bs : Buckets)
    → is_none k.1 ≡ d
    → All (IsDated d) bs
    → All (IsDated d) (push k p bs)
unfolding push
push-IsDated d k p [] h a = (h, tt)
push-IsDated d k p ((j, ps) ∷ bs) h a = elim (Bool-cases (same_bucket k j)) [
  | inl e ↦ rw e a
  | inr e ↦ rw e (a.0, push-IsDated d k p bs h a.1)
]

same_option-is_none : (m n : Option Text) → same_option m n ≡ true → is_none m ≡ is_none n
same_option-is_none none none e = refl
same_option-is_none none (some n) e = ground (arith)
same_option-is_none (some m) none e = ground (arith)
same_option-is_none (some m) (some n) e = refl

-- A bucket is not found among those of the other kind.
find_bucket-IsDated :
    (d : Bool) (k : Bucket) (bs : Buckets)
    → is_none k.1 ≡ not d
    → All (IsDated d) bs
    → find_bucket k bs ≡ none
unfolding find_bucket
find_bucket-IsDated d k [] h a = refl
find_bucket-IsDated d k ((j, ps) ∷ bs) h a =
    ground (arith, same_option-is_none k.1 j.1, find_bucket-IsDated d k bs h a.1, a.0, h)

-- The joins that look at the month.
abbrev pub UsesMonth : JoinKey → Type 0
UsesMonth region = ⊥
UsesMonth _ = Unit

module _ (f : PriceFloats) where
  add_listing-IsDated :
      (d : Bool) (join : JoinKey) (l : CanonicalListing) (o : Option ℕ) (bs : Buckets)
      → UsesMonth join
      → is_none l.tx_date_month ≡ d
      → All (IsDated d) bs
      → All (IsDated d) (add_listing f join l o bs)
  unfolding add_listing key_of
  add_listing-IsDated d join l none bs u h a = a
  add_listing-IsDated d region l (some p) bs u h a = absurd u
  add_listing-IsDated d region_and_month l (some p) bs u h a =
      elim (Bool-cases (f.at_most_zero p || not (f.is_finite p))) [
        | inl e ↦ rw e a
        | inr e ↦ rw e (push-IsDated d (l.region, l.tx_date_month) p bs h a)
      ]
  add_listing-IsDated d month l (some p) bs u h a =
      elim (Bool-cases (f.at_most_zero p || not (f.is_finite p))) [
        | inl e ↦ rw e a
        | inr e ↦ rw e (push-IsDated d (none, l.tx_date_month) p bs h a)
      ]

  buckets_from-IsDated :
      (d : Bool) (join : JoinKey) (ls : List CanonicalListing) (bs : Buckets)
      → UsesMonth join
      → All (λ l. is_none l.tx_date_month ≡ d) ls
      → All (IsDated d) bs
      → All (IsDated d) (buckets_from f join ls bs)
  unfolding buckets_from
  buckets_from-IsDated d join [] bs u h a = a
  buckets_from-IsDated d join (l ∷ ls) bs u h a =
      buckets_from-IsDated d join ls (add_listing f join l l.unit_price_net bs) u h.1
        (add_listing-IsDated d join l l.unit_price_net bs u h.0 a)

  both-nil :
      (g : List ℕ → List ℕ → List PortalDivergenceFinding) (o p : Option (List ℕ))
      → (o ≡ none) ⊎ (p ≡ none)
      → both f g o p ≡ []
  both-nil g none p h = refl
  both-nil g (some v) none h = refl
  both-nil g (some v) (some w) h = ground (arith)

  compare_buckets-nil :
      (sa sb : DataSource) (max : ℕ) (ba bb : Buckets) (ks : List Bucket)
      → All (IsDated false) ba
      → All (IsDated true) bb
      → compare_buckets f sa sb max ba bb ks ≡ []
  unfolding compare_buckets
  compare_buckets-nil sa sb max ba bb [] a b = refl
  compare_buckets-nil sa sb max ba bb (k ∷ ks) a b =
      let missing : (find_bucket k ba ≡ none) ⊎ (find_bucket k bb ≡ none) =
        elim (Bool-cases (is_none k.1)) [
          | inl e ↦ inl (find_bucket-IsDated false k ba e a)
          | inr e ↦ inr (find_bucket-IsDated true k bb e b)
        ] in
      rw (both-nil (compare_medians f sa sb k max) (find_bucket k ba) (find_bucket k bb) missing)
        (compare_buckets-nil sa sb max ba bb ks a b)

  detect_portal_divergence-nil :
      (sa sb : DataSource) (la lb : List CanonicalListing) (join : JoinKey) (max : ℕ)
      → UsesMonth join
      → All (λ l. is_none l.tx_date_month ≡ false) la
      → All (λ l. is_none l.tx_date_month ≡ true) lb
      → detect_portal_divergence f sa la sb lb join max ≡ []
  unfolding detect_portal_divergence bucket_by_join sort_by
  detect_portal_divergence-nil sa sb la lb join max u a b =
      let ba = bucket_by_join f la join in
      let bb = bucket_by_join f lb join in
      rw
        (compare_buckets-nil sa sb max ba bb (union_keys f ba bb)
          (buckets_from-IsDated false join la [] u a tt)
          (buckets_from-IsDated true join lb [] u b tt))
        refl

  project_midland-undated :
      (rs : List NormalizedRecord)
      → All (λ l. is_none l.tx_date_month ≡ true) (filter_map (project_midland f) rs)
  unfolding filter_map project_midland
  project_midland-undated [] = tt
  project_midland-undated (r ∷ rs) = ground (arith, project_midland-undated rs)

  -- Whatever Midland's records are, a join by the month, alone or with the region, finds no
  -- divergence between them and listings that have a month: the projection of Midland sets none.
  pub detect_portal_divergence-project_midland :
      (sa : DataSource) (la : List CanonicalListing) (rs : List NormalizedRecord) (join : JoinKey)
      (max : ℕ)
      → UsesMonth join
      → All (λ l. is_none l.tx_date_month ≡ false) la
      → detect_portal_divergence f sa la midland (filter_map (project_midland f) rs) join max ≡ []
  detect_portal_divergence-project_midland sa la rs join max u a =
      detect_portal_divergence-nil sa midland la (filter_map (project_midland f) rs) join max u a
        (project_midland-undated rs)
