-- ===== src/Insights/Store.antt =====
-- `InsightStore` of crates/agent/src/insight.rs. The two maps are behind locks that an operation
-- holds to its end, so each operation runs without interruption.
use hkgov_rethink.Prelude.{
  ℕ, ◌+◌, ◌-◌, ◌%◌, Bool, false, ◌||◌, List, [], ◌∷◌, ◌++◌, reverse, Text, Option, none, some,
  if◌then◌else◌, text_key, Map, get, insert, values, insert_all, insert_entries, length, take, drop,
  select, ltb, u32_mod, is_empty,
}
use hkgov_rethink.Insights.Types.{Insight, InsightRevision, FieldChange, Floats, diff_insights}

pub record InsightStore (J : Type 0) : Type 0 where
  pub inner : Map Text (Insight J)
  pub history : Map Text (List (InsightRevision J))

pub record InsightStoreSnapshot (J : Type 0) : Type 0 where
  pub insights : List (Insight J)
  pub history : Map Text (List (InsightRevision J))

abbrev pub max_history_per_insight : ℕ
max_history_per_insight = 20

-- `prior.first_seen.or(Some(prior.generated_at))`
abbrev pub first_seen_or : Option ℕ → ℕ → Option ℕ
first_seen_or (some t) g = some t
first_seen_or none g = some g

module _ {J : Type 0} where
  abbrev pub empty : InsightStore J
  empty = record { inner = []; history = [] }

  -- `entry(id).or_default()`
  abbrev pub revisions : Text → Map Text (List (InsightRevision J)) → List (InsightRevision J)
  revisions id h = elim (get id h) [ none ↦ [] | some v ↦ v ]

  -- `push`, and `drain(0..excess)` past the cap.
  unfoldable pub push_revision :
      InsightRevision J → List (InsightRevision J) → List (InsightRevision J)
  push_revision r v =
      let pushed = v ++ r ∷ [] in
      if ltb max_history_per_insight (length pushed)
      then drop (length pushed - max_history_per_insight) pushed
      else pushed

  -- The insight that replaces `prior`.
  unfoldable pub evolve : Insight J → Insight J → List FieldChange → Insight J
  evolve prior insight changes = record insight {
    first_seen = first_seen_or prior.first_seen prior.generated_at;
    version = (prior.version + 1) % u32_mod;
    evolution = some (record {
      insight_id = insight.id;
      from_version = prior.version;
      to_version = (prior.version + 1) % u32_mod;
      from_generated_at = prior.generated_at;
      to_generated_at = insight.generated_at;
      changes = changes;
    });
  }

  unfoldable pub revision_of : Insight J → InsightRevision J
  revision_of prior = record {
    version = prior.version;
    generated_at = prior.generated_at;
    snapshot = prior;
    diff_from_previous = none;
  }

  -- The insight that is stored for an id that is not there yet.
  unfoldable pub fresh : Insight J → Insight J
  fresh insight = record insight {
    first_seen = first_seen_or insight.first_seen insight.generated_at;
    version = 1;
    evolution = none;
  }

  -- An upsert over an insight that is there.
  unfoldable pub upsert_over :
      InsightStore J → Insight J → Insight J → List FieldChange → InsightStore J × ℕ
  unfolding push_revision evolve revision_of
  upsert_over s insight prior changes = if is_empty changes then (s, prior.version) else (
    record {
      inner = insert insight.id (evolve prior insight changes) s.inner;
      history =
          insert insight.id (push_revision (revision_of prior) (revisions insight.id s.history))
            s.history;
    },
    (prior.version + 1) % u32_mod,
  )

  unfoldable pub upsert : Floats → InsightStore J → Insight J → InsightStore J × ℕ
  unfolding upsert_over fresh
  upsert f s insight = elim (get insight.id s.inner) [
    | some prior ↦ upsert_over s insight prior (diff_insights f prior insight)
    | none ↦ (record s { inner = insert insight.id (fresh insight) s.inner }, 1)
  ]

  unfoldable pub upsert_many : Floats → InsightStore J → List (Insight J) → InsightStore J
  upsert_many f s [] = s
  upsert_many f s (i ∷ is) = upsert_many f (upsert f s i).0 is

  unfoldable pub list : InsightStore J → ℕ → List (Insight J)
  list s limit = take limit (reverse (values s.inner))

  -- `first_seen.unwrap_or(generated_at) > since`, or the evolution is after it.
  unfoldable pub is_since : ℕ → Insight J → Bool
  is_since since i =
      ltb since (elim i.first_seen [ some t ↦ t | none ↦ i.generated_at ])
      || elim i.evolution [ some d ↦ ltb since d.to_generated_at | none ↦ false ]

  unfoldable pub list_since : InsightStore J → ℕ → ℕ → List (Insight J)
  unfolding is_since
  list_since s limit since = take limit (select (is_since since) (reverse (values s.inner)))

  unfoldable pub find : InsightStore J → Text → Option (Insight J)
  find s id = get id s.inner

  unfoldable pub history_of : InsightStore J → Text → ℕ → List (InsightRevision J)
  history_of s id limit = elim (get id s.history) [ some v ↦ take limit (reverse v) | none ↦ [] ]

  unfoldable pub count : InsightStore J → ℕ
  count s = length s.inner

  unfoldable pub snapshot : InsightStore J → InsightStoreSnapshot J
  snapshot s = record { insights = values s.inner; history = s.history }

  unfoldable pub restore : InsightStore J → InsightStoreSnapshot J → InsightStore J
  restore s snap = record {
    inner = insert_all (λ i. i.id) s.inner snap.insights;
    history = insert_entries s.history snap.history;
  }
