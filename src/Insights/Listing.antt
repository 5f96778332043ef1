-- ===== src/Insights/Listing.antt =====
-- `list_since` of `InsightStore` (crates/agent/src/insight.rs): what a reader that polls is shown.
use hkgov_rethink.Prelude.{
  ℕ, ◌≡◌, ◌≤◌, ◌<◌, ◌⊎◌, inl, inr, true, false, none, some, text_key, get, get-insert_self, length,
  length-take, select, All, All-select, All-take, reverse, values, arith, is_empty,
}
use hkgov_rethink.Insights.Types.{Insight, Floats, IsFloats, diff_insights}
use hkgov_rethink.Insights.Store.{InsightStore, list_since, is_since, upsert, fresh, evolve}
use hkgov_rethink.Insights.Evolution.{upsert-changed, upsert-absent}

module _ {J : Type 0} where
  -- Every insight that `list_since` returns was first seen, or last evolved, after the given time,
  -- and there are at most `limit` of them.
  pub list_since_sound :
      (s : InsightStore J) (limit since : ℕ)
      → All (λ x. is_since since x ≡ true) (list_since s limit since)
        × (length (list_since s limit since) ≤ limit)
  unfolding list_since
  list_since_sound s limit since =
      let found = select (is_since since) (reverse (values s.inner)) in
      (
        All-take (λ x. is_since since x ≡ true) limit found
            (All-select (is_since since) (reverse (values s.inner))),
        omega (arith, length-take limit found),
      )

  -- An upsert that is news makes the stored insight visible to every reader that asks for what came
  -- after an earlier time: a new insight with no time of first sight, and one that differs from the
  -- insight it replaces.
  pub upsert-is_since :
      (f : Floats)
      → IsFloats f
      → (s : InsightStore J) (x : Insight J) (since : ℕ) → since < x.generated_at
      → ((get x.id s.inner ≡ none) × (x.first_seen ≡ none))
        ⊎ ((prior : Insight J) × (get x.id s.inner ≡ some prior)
            × (is_empty (diff_insights f prior x) ≡ false))
      → (y : Insight J) × (get x.id (upsert f s x).0.inner ≡ some y) × (is_since since y ≡ true)
  unfolding is_since fresh evolve
  upsert-is_since f laws s x since late (inl (absent, unseen)) = (
    fresh x,
    rw (upsert-absent f laws s x absent) (get-insert_self x.id (fresh x) s.inner),
    ground arith,
  )
  upsert-is_since f laws s x since late (inr (prior, known, differs)) =
      let y = evolve prior x (diff_insights f prior x) in
      (
        y,
        rw (upsert-changed f laws s x prior known differs) (get-insert_self x.id y s.inner),
        ground arith,
      )
