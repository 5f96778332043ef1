-- ===== src/Silence/Scope.antt =====
-- What both builders of the index (crates/agent/src/silence.rs and transparency.rs) count, told apart
-- from their loops: the insights of the source in the period, and each kind's share of them.
use hkgov_rethink.Prelude.{
  ◌≡◌, refl, sym, ap, ◌∙◌, Bool, true, false, not, ◌&&◌, [], ◌∷◌, ◌++◌, append-nil, append_assoc,
  Option, none, some, Text, text, text_key, same, same_iff, select, if◌then◌else◌, Map, insert,
  get-insert, Bool-cases, inl, inr,
}
use hkgov_rethink.Common.Sources.{DataSource, source_key}
use hkgov_rethink.Insights.Types.{Insight}
use hkgov_rethink.Audit.Json.{Json}
use hkgov_rethink.Silence.Period.{
  insight_in_period, evidence_says_press_only, has_same_period_press,
}
use hkgov_rethink.Silence.Index.{Insights, Partition, sort_into, if_scored, partition_from}
use hkgov_rethink.Silence.Registry.{gap_kind, or_empty, entry_or, kinds_from}

abbrev pub no_more : Partition
no_more = record { press_only = []; data_only = []; unattributed_jumps = [] }

abbrev pub then_some {ℓ κ} : {A : Type ℓ} {B : Type κ} → (A → B) → Option A → Option B
then_some f none = none
then_some f (some a) = some (f a)

if_scored-then_some :
    {A B : Type 0} (g : A → B) (c : A → A) (mine : Bool) (in_period : Option Bool)
    {skipped scored : Option B} (rest : Option A)
    → skipped ≡ then_some g rest
    → scored ≡ then_some g (then_some c rest)
    → if_scored mine in_period skipped scored
      ≡ then_some g (if_scored mine in_period rest (then_some c rest))
unfolding if_scored
if_scored-then_some g c false o rest h k = h
if_scored-then_some g c true none rest h k = refl
if_scored-then_some g c true (some false) rest h k = h
if_scored-then_some g c true (some true) rest h k = k

then_some-then_some :
    {A B : Type 0} (g : A → B) (c : A → A) (o : Option A)
    → then_some (λ a. g (c a)) o ≡ then_some g (then_some c o)
then_some-then_some g c none = refl
then_some-then_some g c (some a) = refl

module _ (source : DataSource) (period : Text) where
  -- The insights that are scored, in the feed's order, unless a slice panics before the end.
  unfoldable pub scoped : Insights → Option Insights
  scoped [] = some []
  scoped (i ∷ is) =
      let rest = scoped is in
      if_scored (same i.source source) (insight_in_period i period) rest (then_some (◌∷◌ i) rest)

abbrev pub sorted : Insights → Insights → Partition → Partition
sorted all [] p = p
sorted all (j ∷ js) p = sorted all js (sort_into all j p)

abbrev pub filed : Insights → Map Text Insights → Map Text Insights
filed [] m = m
filed (j ∷ js) m = filed js (insert j.kind (entry_or j.kind m ++ j ∷ []) m)

module _ (source : DataSource) (period : Text) where
  pub partition_from-scoped :
      (all is : Insights) (p : Partition)
      → partition_from source period all is p
        ≡ then_some (λ js. sorted all js p) (scoped source period is)
  unfolding partition_from scoped
  partition_from-scoped all [] p = refl
  partition_from-scoped all (i ∷ is) p =
      let rest = scoped source period is in
      if_scored-then_some (λ js. sorted all js p) (◌∷◌ i) (same i.source source)
        (insight_in_period i period) rest (partition_from-scoped all is p)
        (partition_from-scoped all is (sort_into all i p)
          ∙ then_some-then_some (λ js. sorted all js p) (◌∷◌ i) rest)

  pub kinds_from-scoped :
      (is : Insights) (m : Map Text Insights)
      → kinds_from source period is m ≡ then_some (λ js. filed js m) (scoped source period is)
  unfolding kinds_from scoped
  kinds_from-scoped [] m = refl
  kinds_from-scoped (i ∷ is) m =
      let rest = scoped source period is in
      if_scored-then_some (λ js. filed js m) (◌∷◌ i) (same i.source source)
        (insight_in_period i period) rest (kinds_from-scoped is m)
        (kinds_from-scoped is (insert i.kind (entry_or i.kind m ++ i ∷ []) m)
          ∙ then_some-then_some (λ js. filed js m) (◌∷◌ i) rest)

abbrev pub is_press_only : Insight Json → Bool
is_press_only i = same i.kind gap_kind && evidence_says_press_only i.evidence

abbrev pub is_data_only : Insight Json → Bool
is_data_only i = same i.kind gap_kind && not (evidence_says_press_only i.evidence)

abbrev pub is_unattributed : Insights → Insight Json → Bool
is_unattributed all i = same i.kind (text "series_jump") && not (has_same_period_press i all)

-- No kind is both of the two that the index counts.
gap-not_jump :
    (kind : Text)
    → same kind gap_kind ≡ true
    → (u : Bool) → same kind (text "series_jump") && u ≡ false
gap-not_jump kind h u = ap (λ k. same k (text "series_jump") && u) ((same_iff kind gap_kind).0 h)

abbrev just_if : Bool → Insight Json → Insights
just_if test j = if test then j ∷ [] else []

-- What one turn of the loop adds, by its three tests.
turn :
    (gap says jump : Bool) (j : Insight Json) (p : Partition)
    → (gap ≡ true → jump ≡ false)
    → (if gap
        then (if says
            then record p { press_only = p.press_only ++ j ∷ [] }
            else record p { data_only = p.data_only ++ j ∷ [] })
        else (if jump then record p { unattributed_jumps = p.unattributed_jumps ++ j ∷ [] } else p))
      ≡ record {
        press_only = p.press_only ++ just_if (gap && says) j;
        data_only = p.data_only ++ just_if (gap && not says) j;
        unattributed_jumps = p.unattributed_jumps ++ just_if jump j;
      }
turn true true true j p h = absurd (let e = h refl in cc)
turn true false true j p h = absurd (let e = h refl in cc)
turn true true false j p h = simp append-nil
turn true false false j p h = simp append-nil
turn false says true j p h = simp append-nil
turn false says false j p h = simp append-nil

just_if-append :
    (b : Bool) (j : Insight Json) (js : Insights) → just_if b j ++ js ≡ (if b then j ∷ js else js)
just_if-append true j js = refl
just_if-append false j js = refl

select-cons :
    (q : Insight Json → Bool) (front : Insights) (j : Insight Json) (js : Insights)
    → (front ++ just_if (q j) j) ++ select q js ≡ front ++ select q (j ∷ js)
select-cons q front j js =
    append_assoc front (just_if (q j) j) (select q js)
    ∙ ap (◌++◌ front) (just_if-append (q j) j (select q js))

-- What the loop of v1 sorts the insights into.
pub sorted_lem :
    (all js : Insights) (p : Partition)
    → sorted all js p ≡ record {
      press_only = p.press_only ++ select is_press_only js;
      data_only = p.data_only ++ select is_data_only js;
      unattributed_jumps = p.unattributed_jumps ++ select (is_unattributed all) js;
    }
unfolding sort_into
sorted_lem all [] p = simp append-nil
sorted_lem all (j ∷ js) p =
    ap (sorted all js) (
      turn (same j.kind gap_kind) (evidence_says_press_only j.evidence) (is_unattributed all j) j p
        (λ h. gap-not_jump j.kind h (not (has_same_period_press j all))))
    ∙ sorted_lem all js _
    ∙ (λ i. record {
      press_only = select-cons is_press_only p.press_only j js i;
      data_only = select-cons is_data_only p.data_only j js i;
      unattributed_jumps = select-cons (is_unattributed all) p.unattributed_jumps j js i;
    })

abbrev pub is_of : Text → Insight Json → Bool
is_of kind i = same kind i.kind

entry_or-insert :
    (kind : Text) (j : Insight Json) (m : Map Text Insights)
    → entry_or kind (insert j.kind (entry_or j.kind m ++ j ∷ []) m)
      ≡ entry_or kind m ++ just_if (same kind j.kind) j
entry_or-insert kind j m =
    ap or_empty (get-insert j.kind kind (entry_or j.kind m ++ j ∷ []) m)
    ∙ elim (Bool-cases (same kind j.kind)) [
      | inl h ↦ rw h (ap (λ k. entry_or k m ++ j ∷ []) (sym ((same_iff kind j.kind).0 h)))
      | inr h ↦ rw h (sym (append-nil (entry_or kind m)))
    ]

-- What the map by kinds holds under a kind.
pub entry_or-filed :
    (kind : Text) (js : Insights) (m : Map Text Insights)
    → entry_or kind (filed js m) ≡ entry_or kind m ++ select (is_of kind) js
entry_or-filed kind [] m = sym (append-nil (entry_or kind m))
entry_or-filed kind (j ∷ js) m =
    entry_or-filed kind js (insert j.kind (entry_or j.kind m ++ j ∷ []) m)
    ∙ ap (λ front. front ++ select (is_of kind) js) (entry_or-insert kind j m)
    ∙ select-cons (is_of kind) (entry_or kind m) j js
