-- ===== src/Insights/Evolution.antt =====
-- What an upsert (crates/agent/src/insight.rs) does to the insight, its version and its history.
use hkgov_rethink.Prelude.{
  ℕ, ◌+◌, ◌%◌, ◌≡◌, inl, inr, refl, ap, ◌∙◌, Bool, true, false, List, [], Text, none, some, same,
  same_refl, text_key, Map, get, insert, get-insert, get-insert_self, u32_mod, Option-cases,
  Bool-cases, is_empty,
}
use hkgov_rethink.Insights.Types.{
  Insight, InsightRevision, Floats, IsFloats, diff_insights, severity_eq, bool_eq, InsightSeverity,
  info, warning, critical,
}
use hkgov_rethink.Insights.Store.{
  InsightStore, revisions, first_seen_or, push_revision, evolve, revision_of, fresh, upsert_over,
  upsert,
}

severity_self : (s : InsightSeverity) → severity_eq s s ≡ true
severity_self info = refl
severity_self warning = refl
severity_self critical = refl

bool_self : (b : Bool) → bool_eq b b ≡ true
bool_self true = refl
bool_self false = refl

revisions-insert :
    {J : Type 0} (id : Text) (h : List (InsightRevision J))
    (m : Map Text (List (InsightRevision J)))
    → revisions id (insert id h m) ≡ h
revisions-insert id h m = rw (get-insert_self id h m, revisions)

module _ {J : Type 0} (f : Floats) (laws : IsFloats f) where
  -- Two insights that agree on the compared fields have no changes.
  diff_insights_self :
      (a b : Insight J)
      → a.severity ≡ b.severity
      → a.confidence ≡ b.confidence
      → a.title ≡ b.title
      → a.summary ≡ b.summary
      → a.experimental ≡ b.experimental
      → a.producer ≡ b.producer
      → diff_insights f a b ≡ []
  unfolding diff_insights
  diff_insights_self a b s c t u e p = rw (
    s,
    c,
    t,
    u,
    e,
    p,
    severity_self b.severity,
    laws.self_close b.confidence,
    same_refl b.title,
    same_refl b.summary,
    bool_self b.experimental,
    same_refl b.producer,
  )

  -- The three outcomes of an upsert.
  pub upsert-absent :
      (s : InsightStore J) (x : Insight J)
      → get x.id s.inner ≡ none
      → upsert f s x ≡ (record s { inner = insert x.id (fresh x) s.inner }, 1)
  unfolding upsert
  upsert-absent s x e = rw (e, upsert)

  upsert-same :
      (s : InsightStore J) (x prior : Insight J)
      → get x.id s.inner ≡ some prior
      → is_empty (diff_insights f prior x) ≡ true
      → upsert f s x ≡ (s, prior.version)
  unfolding upsert upsert_over
  upsert-same s x prior e d = rw (e, upsert, d)

  abbrev pub evolved_store : InsightStore J → Insight J → Insight J → InsightStore J
  evolved_store s x prior = record {
    inner = insert x.id (evolve prior x (diff_insights f prior x)) s.inner;
    history = insert x.id (push_revision (revision_of prior) (revisions x.id s.history)) s.history;
  }

  pub upsert-changed :
      (s : InsightStore J) (x prior : Insight J)
      → get x.id s.inner ≡ some prior
      → is_empty (diff_insights f prior x) ≡ false
      → upsert f s x ≡ (evolved_store s x prior, (prior.version + 1) % u32_mod)
  unfolding upsert upsert_over
  upsert-changed s x prior e d = rw (e, upsert, d)

  -- A property of every outcome.
  pub upsert_cases {ℓ} :
      (P : InsightStore J × ℕ → Type ℓ) (s : InsightStore J) (x : Insight J)
      → (get x.id s.inner ≡ none → P (record s { inner = insert x.id (fresh x) s.inner }, 1))
      → ((prior : Insight J)
          → get x.id s.inner ≡ some prior
          → is_empty (diff_insights f prior x) ≡ true
          → P (s, prior.version))
      → ((prior : Insight J)
          → get x.id s.inner ≡ some prior
          → is_empty (diff_insights f prior x) ≡ false
          → P (evolved_store s x prior, (prior.version + 1) % u32_mod))
      → P (upsert f s x)
  upsert_cases P s x absent same changed = elim (Option-cases (get x.id s.inner)) [
    | inl e ↦ rw (upsert-absent s x e) (absent e)
    | inr (prior, e) ↦ elim (Bool-cases (is_empty (diff_insights f prior x))) [
      | inl d ↦ rw (upsert-same s x prior e d) (same prior e d)
      | inr d ↦ rw (upsert-changed s x prior e d) (changed prior e d)
    ]
  ]

  -- What an upsert leaves under the insight's id has the version that it returns, and differs in
  -- nothing from the insight.
  abbrev Settles : Insight J → InsightStore J × ℕ → Type 0
  Settles x (s, v) =
      (y : Insight J) × (get x.id s.inner ≡ some y)
      × (y.version ≡ v)
      × (is_empty (diff_insights f y x) ≡ true)

  upsert-Settles : (s : InsightStore J) (x : Insight J) → Settles x (upsert f s x)
  unfolding evolve fresh
  upsert-Settles s x =
      upsert_cases (Settles x) s x
        (λ e. (
          fresh x,
          get-insert_self x.id (fresh x) s.inner,
          refl,
          ap is_empty (diff_insights_self (fresh x) x refl refl refl refl refl refl),
        ))
        (λ prior e d. (prior, e, refl, d))
        (λ prior e d.
          let y = evolve prior x (diff_insights f prior x) in
          (
            y,
            get-insert_self x.id y s.inner,
            refl,
            ap is_empty (diff_insights_self y x refl refl refl refl refl refl),
          ))

  -- If no confidence differs from itself by more than 0.01, an upsert is idempotent: upserting the same insight again changes nothing in the store, so no
  -- version is spent on it and no history written, and returns the same version.
  pub upsert_idem :
      (s : InsightStore J) (x : Insight J)
      → upsert f (upsert f s x).0 x ≡ ((upsert f s x).0, (upsert f s x).1)
  upsert_idem s x =
      let (y, known, version, same) = upsert-Settles s x in
      upsert-same (upsert f s x).0 x y known same ∙ ap (λ (v : ℕ). ((upsert f s x).0, v)) version

  -- An upsert over an insight from which the new one differs stores the new one under the next
  -- version, keeps the time of first sight, keeps the changes as the evolution, and puts the
  -- replaced insight, whole, at the end of the id's history.
  pub upsert-evolves :
      (s : InsightStore J) (x prior : Insight J)
      → get x.id s.inner ≡ some prior
      → is_empty (diff_insights f prior x) ≡ false
      → let s' = (upsert f s x).0 in
        (get x.id s'.inner ≡ some (evolve prior x (diff_insights f prior x)))
        × ((evolve prior x (diff_insights f prior x)).version ≡ (prior.version + 1) % u32_mod)
        × ((upsert f s x).1 ≡ (prior.version + 1) % u32_mod)
        × ((evolve prior x (diff_insights f prior x)).first_seen
            ≡ first_seen_or prior.first_seen prior.generated_at)
        × (revisions x.id s'.history ≡ push_revision (revision_of prior) (revisions x.id s.history))
        × ((revision_of prior).snapshot ≡ prior)
  unfolding evolve revision_of
  upsert-evolves s x prior e d =
      let y = evolve prior x (diff_insights f prior x) in
      let h = push_revision (revision_of prior) (revisions x.id s.history) in
      rw (upsert-changed s x prior e d)
        (get-insert_self x.id y s.inner, refl, refl, refl, revisions-insert x.id h s.history, refl)

  -- An upsert touches no other id: neither its insight nor its history.
  pub upsert_other :
      (s : InsightStore J) (x : Insight J) (id : Text)
      → same id x.id ≡ false
      → (get id (upsert f s x).0.inner ≡ get id s.inner)
        × (get id (upsert f s x).0.history ≡ get id s.history)
  upsert_other s x id ne =
      upsert_cases
        (λ r. (get id r.0.inner ≡ get id s.inner) × (get id r.0.history ≡ get id s.history)) s x
        (λ e. (rw (get-insert x.id id (fresh x) s.inner, ne), refl)) (λ prior e d. (refl, refl))
        (λ prior e d. (
          rw (get-insert x.id id (evolve prior x (diff_insights f prior x)) s.inner, ne),
          rw (
            get-insert x.id id (push_revision (revision_of prior) (revisions x.id s.history))
                s.history,
            ne,
          ),
        ))
