-- ===== src/Silence/Equivalence.antt =====
-- The index over the default registry (crates/agent/src/transparency.rs) against that of v1
-- (crates/agent/src/silence.rs).
use hkgov_rethink.Prelude.{
  map, ℕ, ◌+◌, ◌≡◌, refl, sym, ap, ◌∙◌, Bool, true, false, not, ◌&&◌, List, [], ◌∷◌, ◌++◌, Option,
  none, some, Text, text, text_key, same, select, length, if◌then◌else◌, Map, get, insert, arith,
}
use hkgov_rethink.Common.Sources.{DataSource}
use hkgov_rethink.Insights.Types.{Insight}
use hkgov_rethink.Audit.Json.{Json}
use hkgov_rethink.Audit.Cite.{External}
use hkgov_rethink.Analysis.Periods.{◌>>=◌}
use hkgov_rethink.Silence.Period.{evidence_says_press_only, has_same_period_press}
use hkgov_rethink.Silence.Index.{
  Floats, SilenceSignal, SilenceIndex, Insights, Partition, press_only_gap, data_only_gap,
  unattributed_jump, missing_data_day, weight, index_of, signals_of, squash, partition_from,
  make_signal, build_index_from_insights,
}
use hkgov_rethink.Silence.Registry.{
  gap_kind, kinds_from, entry_or, gap_rows, registered_rows, default_registry, all_signals,
  register, press_only_signal, data_only_signal, unattributed_jump_signal,
  build_index_from_registry,
}
use hkgov_rethink.Silence.Registry
use hkgov_rethink.Silence.Scope.{
  no_more, then_some, scoped, filed, partition_from-scoped, kinds_from-scoped, is_press_only,
  is_data_only, is_unattributed, sorted_lem, is_of, entry_or-filed,
}

same_sym : (a b : Text) → same a b ≡ same b a
same_sym a b =
    ground
      (arith, text_key.cmp_eq a b, text_key.cmp_eq b a, text_key.cmp_self a, text_key.cmp_self b)

pub select_both :
    (a b : Bool) (j : Insight Json) (q : Insight Json → Bool) (xs ys : Insights)
    → q j ≡ b
    → select q xs ≡ ys
    → select q (if a then j ∷ xs else xs) ≡ (if a && b then j ∷ ys else ys)
select_both true b j q xs ys e h = rw (e, h)
select_both false b j q xs ys e h = h

then_some_twice :
    {A B C : Type 0} (g : B → C) (h : A → B) (o : Option A)
    → then_some g (then_some h o) ≡ then_some (λ a. g (h a)) o
then_some_twice g h none = refl
then_some_twice g h (some a) = refl

bind-some : {A B : Type 0} (g : A → B) (o : Option A) → (o >>= λ a. some (g a)) ≡ then_some g o
bind-some g none = refl
bind-some g (some a) = refl

-- What the map by kinds, as the loop fills it, holds.
entry_or_nil : (kind : Text) (js : Insights) → entry_or kind (filed js []) ≡ select (is_of kind) js
unfolding get
entry_or_nil kind js = entry_or-filed kind js []

-- The insights that each row counts.
abbrev pub shares : Insights → Insights → Partition
shares all js = record {
  press_only = select is_press_only js;
  data_only = select is_data_only js;
  unattributed_jumps = select (is_unattributed all) js;
}

then_some_ap :
    {A B : Type 0} {g h : A → B} (o : Option A)
    → ((a : A) → g a ≡ h a)
    → then_some g o ≡ then_some h o
then_some_ap none e = refl
then_some_ap (some a) e = ap some (e a)

select-select :
    (kind : Text) (q : Insight Json → Bool) (js : Insights)
    → select q (select (is_of kind) js) ≡ select (λ i. same i.kind kind && q i) js
select-select kind q [] = refl
select-select kind q (j ∷ js) = rw (same_sym j.kind kind) (
    select_both (same kind j.kind) (q j) j q (select (is_of kind) js) _ refl
      (select-select kind q js))

-- The rows in the other order.
abbrev pub swap : List SilenceSignal → List SilenceSignal
swap (a ∷ b ∷ c ∷ d ∷ []) = a ∷ b ∷ d ∷ c ∷ []
swap rows = rows

module _ (f : Floats) (x : External) where
  pub index_of-shares :
      (insights : Insights) (source : DataSource) (period : Text) (now : ℕ)
      → build_index_from_insights f x insights source period now
        ≡ then_some
            (λ js. index_of f x source period now (signals_of f x (shares insights js)))
            (scoped source period insights)
  unfolding build_index_from_insights
  index_of-shares insights source period now =
      let finish = λ (p : Partition). index_of f x source period now (signals_of f x p) in
      bind-some finish (partition_from source period insights insights no_more)
      ∙ ap (then_some finish) (partition_from-scoped source period insights insights no_more)
      ∙ then_some_twice finish _ (scoped source period insights)
      ∙ then_some_ap (scoped source period insights)
          (λ js. ap finish (sorted_lem insights js no_more))

  -- The rows of the default registry.
  registry_rows :
      (insights js : Insights)
      → gap_rows f (filed js [])
          ++ registered_rows f insights (filed js []) (all_signals default_registry)
        ≡ swap (signals_of f x (shares insights js))
  unfolding gap_rows registered_rows default_registry all_signals signals_of register insert
      unattributed_jump_signal Registry.make_signal Registry.make_signal_with_weight
      Registry.kind_weight make_signal weight
  registry_rows insights js =
      let share = λ (kind : Text) (q : Insight Json → Bool).
        ap (select q) (entry_or_nil kind js) ∙ select-select kind q js in
      let p = share gap_kind (λ i. evidence_says_press_only i.evidence) in
      let d = share gap_kind (λ i. not (evidence_says_press_only i.evidence)) in
      let u = share (text "series_jump") (λ i. not (has_same_period_press i insights)) in
      λ i.
        Registry.make_signal f press_only_gap (length (p i)) (p i)
        ∷ Registry.make_signal f data_only_gap (length (d i)) (d i)
        ∷ Registry.make_signal_with_weight f missing_data_day (length (d i))
            (weight missing_data_day) []
        ∷ Registry.make_signal f unattributed_jump (length (u i)) (u i)
        ∷ []

  -- An index with its rows in the other order, and the raw score and the score that come of the sum
  -- in that order.
  abbrev pub resummed : SilenceIndex → SilenceIndex
  resummed idx =
      let raw = f.sum (map (λ s. s.contribution) (swap idx.signals)) in
      record idx { signals = swap idx.signals; raw_score = raw; score = squash f raw }

  index_of-swap :
      (source : DataSource) (period : Text) (now : ℕ) (p : Partition)
      → index_of f x source period now (swap (signals_of f x p))
        ≡ resummed (index_of f x source period now (signals_of f x p))
  unfolding index_of signals_of make_signal
  index_of-swap source period now p =
      let a = length p.press_only in
      let b = length p.data_only in
      let c = length p.unattributed_jumps in
      let events : a + (b + (b + (c + 0))) ≡ a + (b + (c + (b + 0))) = omega arith in
      let idx = resummed (index_of f x source period now (signals_of f x p)) in
      ap (λ n. record idx { total_events = n }) events

  -- The index over the default registry is that of v1, panics included, but for the order of its
  -- rows, in which the missing-data days stand before the jumps, and for the raw score, which is the
  -- sum of the contributions in that order, with the score that comes of it. The number of events is
  -- the same.
  pub build_index_from_registry-default_registry :
      (insights : Insights) (source : DataSource) (period : Text) (now : ℕ)
      → build_index_from_registry f x insights source period now default_registry
        ≡ then_some resummed (build_index_from_insights f x insights source period now)
  unfolding build_index_from_registry
  build_index_from_registry-default_registry insights source period now =
      let scope = scoped source period insights in
      let finish = λ (m : Map Text Insights).
        index_of f x source period now
          (gap_rows f m ++ registered_rows f insights m (all_signals default_registry)) in
      bind-some finish (kinds_from source period insights [])
      ∙ ap (then_some finish) (kinds_from-scoped source period insights [])
      ∙ then_some_twice finish (λ js. filed js []) scope
      ∙ then_some_ap scope (λ js.
        ap (index_of f x source period now) (registry_rows insights js)
        ∙ index_of-swap source period now (shares insights js))
      ∙ sym (then_some_twice resummed _ scope)
      ∙ ap (then_some resummed) (sym (index_of-shares insights source period now))
