-- ===== src/Insights/Invariant.antt =====
-- The invariant of `InsightStore` (crates/agent/src/insight.rs) and what a run of upserts keeps.
use hkgov_rethink.Prelude.{
  ℕ, ◌-◌, ◌≡◌, ◌≤◌, inl, inr, refl, true, List, [], ◌∷◌, ◌++◌, Text, some, same, same_iff, text_key,
  Map, get, insert, get-insert, length, length-drop, arith, Bool-cases, All, All-insert, IsSorted,
  insert-IsSorted,
}
use hkgov_rethink.Insights.Types.{Insight, InsightRevision, Floats, IsFloats, diff_insights}
use hkgov_rethink.Insights.Store.{
  InsightStore, empty, max_history_per_insight, revisions, push_revision, evolve, revision_of,
  fresh, upsert, upsert_many,
}
use hkgov_rethink.Insights.Evolution.{upsert_cases}

module _ {J : Type 0} where
  -- Both maps are sorted, every insight stands under its own id, and no history is over the cap.
  pub record IsValid (s : InsightStore J) : Type 0 where
    pub sorted : IsSorted s.inner
    pub history_sorted : IsSorted s.history
    pub own : All (λ e. e.1.id ≡ e.0) s.inner
    pub capped : All (λ e. length e.1 ≤ max_history_per_insight) s.history

  -- There is an insight under the id, and it was first seen at `t`.
  abbrev pub IsSeen : Text → ℕ → InsightStore J → Type 0
  IsSeen id t s = (y : Insight J) × (get id s.inner ≡ some y) × (y.first_seen ≡ some t)

  pub empty-IsValid : IsValid empty
  empty-IsValid = record { sorted = tt; history_sorted = tt; own = tt; capped = tt }

  push_revision_capped :
      (r : InsightRevision J) (v : List (InsightRevision J))
      → length (push_revision r v) ≤ max_history_per_insight
  unfolding push_revision
  push_revision_capped r v =
      ground (arith, length-drop (length (v ++ r ∷ []) - max_history_per_insight) (v ++ r ∷ []))

module _ {J : Type 0} (f : Floats) (laws : IsFloats f) where
  upsert-IsValid : (s : InsightStore J) (x : Insight J) → IsValid s → IsValid (upsert f s x).0
  unfolding evolve fresh
  upsert-IsValid s x v =
      upsert_cases f laws (λ r. IsValid r.0) s x
        (λ e. record {
          sorted = insert-IsSorted x.id (fresh x) s.inner v.sorted;
          history_sorted = v.history_sorted;
          own = All-insert (λ e. e.1.id ≡ e.0) x.id (fresh x) s.inner refl v.own;
          capped = v.capped;
        })
        (λ prior e d. v)
        (λ prior e d.
          let y = evolve prior x (diff_insights f prior x) in
          let h = push_revision (revision_of prior) (revisions x.id s.history) in
          record {
            sorted = insert-IsSorted x.id y s.inner v.sorted;
            history_sorted = insert-IsSorted x.id h s.history v.history_sorted;
            own = All-insert (λ e. e.1.id ≡ e.0) x.id y s.inner refl v.own;
            capped =
                All-insert (λ e. length e.1 ≤ max_history_per_insight) x.id h s.history
                  (push_revision_capped (revision_of prior) (revisions x.id s.history)) v.capped;
          })

  -- Any run of upserts from a valid store leaves a valid one: the insights stay sorted, each under
  -- its own id and once, and no id's history holds more than 20 revisions.
  pub upsert_many-IsValid :
      (xs : List (Insight J)) (s : InsightStore J) → IsValid s → IsValid (upsert_many f s xs)
  unfolding upsert_many
  upsert_many-IsValid [] s v = v
  upsert_many-IsValid (x ∷ xs) s v = upsert_many-IsValid xs (upsert f s x).0 (upsert-IsValid s x v)

  IsSeen-insert :
      (id : Text) (t : ℕ) (x y : Insight J) (m : Map Text (Insight J))
      → (same id x.id ≡ true → y.first_seen ≡ some t)
      → ((z : Insight J) × (get id m ≡ some z) × (z.first_seen ≡ some t))
      → (z : Insight J) × (get id (insert x.id y m) ≡ some z) × (z.first_seen ≡ some t)
  IsSeen-insert id t x y m here (z, e, h) = elim (Bool-cases (same id x.id)) [
    | inl at ↦ (y, rw (get-insert x.id id y m, at), here at)
    | inr off ↦ (z, rw (get-insert x.id id y m, off) e, h)
  ]

  upsert-IsSeen :
      (id : Text) (t : ℕ) (s : InsightStore J) (x : Insight J)
      → IsSeen id t s
      → IsSeen id t (upsert f s x).0
  unfolding evolve
  upsert-IsSeen id t s x h =
      let (z, known, seen) = h in
      upsert_cases f laws (λ r. IsSeen id t r.0) s x
        (λ e.
          IsSeen-insert id t x (fresh x) s.inner (λ at. ground (arith, (same_iff id x.id).0 at)) h)
        (λ prior e d. h)
        (λ prior e d.
          IsSeen-insert id t x (evolve prior x (diff_insights f prior x)) s.inner
            (λ at. ground (arith, (same_iff id x.id).0 at)) h)

  -- Once an insight is stored with a time of first sight, no run of upserts changes that time, and
  -- the insight's id stays in the store.
  pub upsert_many-IsSeen :
      (xs : List (Insight J)) (id : Text) (t : ℕ) (s : InsightStore J)
      → IsSeen id t s
      → IsSeen id t (upsert_many f s xs)
  unfolding upsert_many
  upsert_many-IsSeen [] id t s h = h
  upsert_many-IsSeen (x ∷ xs) id t s h =
      upsert_many-IsSeen xs id t (upsert f s x).0 (upsert-IsSeen id t s x h)
