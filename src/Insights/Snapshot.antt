-- ===== src/Insights/Snapshot.antt =====
-- `snapshot` and `restore` of `InsightStore` (crates/agent/src/insight.rs).
use hkgov_rethink.Prelude.{◌≡◌, List, text_key, insert_all-values, insert_entries-nil}
use hkgov_rethink.Insights.Types.{Insight, Floats, IsFloats}
use hkgov_rethink.Insights.Store.{InsightStore, empty, snapshot, restore, upsert_many}
use hkgov_rethink.Insights.Invariant.{IsValid, empty-IsValid, upsert_many-IsValid}

module _ {J : Type 0} where
  restore-snapshot : (s : InsightStore J) → IsValid s → restore empty (snapshot s) ≡ s
  unfolding restore snapshot
  restore-snapshot s v = λ i. record {
    inner = insert_all-values (λ (x : Insight J). x.id) s.inner v.own v.sorted i;
    history = insert_entries-nil s.history v.history_sorted i;
  }

  -- A new store that is restored from a snapshot is the store that the snapshot was taken of, for
  -- every store that a run of upserts builds: insights, versions and histories alike.
  pub restore-snapshot-upsert_many :
      (f : Floats)
      → IsFloats f
      → (xs : List (Insight J))
      → restore empty (snapshot (upsert_many f empty xs)) ≡ upsert_many f empty xs
  restore-snapshot-upsert_many f laws xs =
      restore-snapshot (upsert_many f empty xs) (upsert_many-IsValid f laws xs empty empty-IsValid)
