-- ===== src/Silence/Detected.antt =====
-- The index of crates/agent/src/silence.rs over the gaps that crates/agent/src/analysis.rs detects.
use hkgov_rethink.Prelude.{
  ◌⊎◌, ◌&&◌, if◌then◌else◌, ℕ, zero, suc, ◌≡◌, refl, sym, ap, ◌∙◌, Bool, true, false, List, [], ◌∷◌,
  ◌++◌, map, Option, none, some, Text, text_key, same, select, length, get_elem?, All, Option-cases,
  inl, inr, arith,
}
use hkgov_rethink.Common.Sources.{DataSource, source_key}
use hkgov_rethink.Insights.Types.{Insight}
use hkgov_rethink.Audit.Json.{Json}
use hkgov_rethink.Audit.Cite.{External}
use hkgov_rethink.Analysis.Finding.{Finding}
use hkgov_rethink.Analysis.Gaps.{
  unless_empty, gap_evidence, press_finding, data_finding, detect_cross_source_gaps,
}
use hkgov_rethink.Silence.Period.{evidence_says_press_only, insight_in_period}
use hkgov_rethink.Silence.Index.{
  SilenceSignal, SilenceSignalKind, press_only_gap, data_only_gap, unattributed_jump,
  missing_data_day, float_1, float_2, float_3, float_5, weight, Floats, SilenceIndex, Insights,
  if_scored, signals_of, index_of, make_signal, build_index_from_insights,
}
use hkgov_rethink.Silence.Registry.{gap_kind}
use hkgov_rethink.Silence.Scope.{scoped, then_some, is_data_only, is_press_only, is_unattributed}
use hkgov_rethink.Silence.Equivalence.{select_both, shares, index_of-shares}

-- An insight that is no gap, or that holds the evidence of a gap that the detector found.
pub data IsDetected (i : Insight Json) : Type 0 where
  other : same i.kind gap_kind ≡ false → IsDetected i
  gap :
      (source : DataSource) (dataset : Text) (iterate : List Text → List Text)
      (press_dates data_dates : List Text) (k : ℕ) (found : Finding)
      → get_elem? (detect_cross_source_gaps source dataset iterate press_dates data_dates) k
        ≡ some found
      → i.evidence ≡ found.evidence
      → IsDetected i

-- Both kinds of gaps speak of the press in their evidence.
press_finding-press_only :
    (source : DataSource) (dataset d : Text) (dates : List Text)
    → evidence_says_press_only (press_finding source dataset (d ∷ dates)).evidence ≡ true
unfolding evidence_says_press_only press_finding gap_evidence
press_finding-press_only source dataset d dates = refl

data_finding-press_only :
    (source : DataSource) (dataset d : Text) (dates : List Text)
    → evidence_says_press_only (data_finding source dataset (d ∷ dates)).evidence ≡ true
unfolding evidence_says_press_only data_finding gap_evidence
data_finding-press_only source dataset d dates = refl

one_of :
    (p q : List Text) (f g : List Text → Finding) (k : ℕ) (found : Finding)
    → ((d : Text) (dates : List Text) → evidence_says_press_only (f (d ∷ dates)).evidence ≡ true)
    → ((d : Text) (dates : List Text) → evidence_says_press_only (g (d ∷ dates)).evidence ≡ true)
    → get_elem? (unless_empty p f ++ unless_empty q g) k ≡ some found
    → evidence_says_press_only found.evidence ≡ true
one_of [] [] f g k found hf hg e = cc
one_of [] (d ∷ q) f g zero found hf hg e = let s : g (d ∷ q) ≡ found = cc in rw (← s) (hg d q)
one_of [] (d ∷ q) f g (suc k) found hf hg e = cc
one_of (d ∷ p) q f g zero found hf hg e = let s : f (d ∷ p) ≡ found = cc in rw (← s) (hf d p)
one_of (d ∷ p) [] f g (suc k) found hf hg e = cc
one_of (d ∷ p) (c ∷ q) f g (suc zero) found hf hg e =
    let s : g (c ∷ q) ≡ found = cc in rw (← s) (hg c q)
one_of (d ∷ p) (c ∷ q) f g (suc (suc k)) found hf hg e = cc

-- A gap that was detected speaks of the press.
IsDetected-says :
    (i : Insight Json)
    → IsDetected i
    → (same i.kind gap_kind ≡ false) ⊎ (evidence_says_press_only i.evidence ≡ true)
unfolding detect_cross_source_gaps
IsDetected-says i (other h) = inl h
IsDetected-says i (gap source dataset iterate press_dates data_dates k found e h) = inr (
    ap evidence_says_press_only h
    ∙ one_of _ _ (press_finding source dataset) (data_finding source dataset) k found
        (press_finding-press_only source dataset) (data_finding-press_only source dataset) e)

IsDetected-press_only : (i : Insight Json) → IsDetected i → is_press_only i ≡ same i.kind gap_kind
IsDetected-press_only i d = elim (IsDetected-says i d) [
  | inl h ↦ rw h
  | inr says ↦ rw says (ground arith)
]

IsDetected-not_data_only : (i : Insight Json) → IsDetected i → is_data_only i ≡ false
IsDetected-not_data_only i d = elim (IsDetected-says i d) [
  | inl h ↦ rw h
  | inr says ↦ rw says (ground arith)
]

-- An answer, and no panic, that says yes.
abbrev pub is_yes : Option Bool → Bool
is_yes none = false
is_yes (some b) = b

-- The insight is of the source and in the period.
abbrev pub in_scope : DataSource → Text → Insight Json → Bool
in_scope source period i = same i.source source && is_yes (insight_in_period i period)

scoped_turn :
    (mine : Bool) (in_period : Option Bool) (i : Insight Json) (rest : Option Insights)
    (kept : Insights) {js : Insights}
    → ((ks : Insights) → rest ≡ some ks → ks ≡ kept)
    → if_scored mine in_period rest (then_some (◌∷◌ i) rest) ≡ some js
    → js ≡ (if mine && is_yes in_period then i ∷ kept else kept)
unfolding if_scored
scoped_turn false o i rest kept {js} ih e = ih js e
scoped_turn true none i rest kept ih e = cc
scoped_turn true (some false) i rest kept {js} ih e = ih js e
scoped_turn true (some true) i none kept ih e = cc
scoped_turn true (some true) i (some ks) kept {js} ih e =
    let s : i ∷ ks ≡ js = cc in sym s ∙ ap (◌∷◌ i) (ih ks refl)

scoped-select :
    (source : DataSource) (period : Text) (is : Insights) {js : Insights}
    → scoped source period is ≡ some js
    → js ≡ select (in_scope source period) is
unfolding scoped
scoped-select source period [] {js} e = let s : [] ≡ js = cc in sym s
scoped-select source period (i ∷ is) e =
    scoped_turn (same i.source source) (insight_in_period i period) i (scoped source period is)
      (select (in_scope source period) is) (λ ks h. scoped-select source period is h) e

-- Two selections in turn are one, by a test that agrees with the second on what is detected.
select-select_agree :
    (s q r : Insight Json → Bool) (is : Insights)
    → ((i : Insight Json) → IsDetected i → q i ≡ r i)
    → All IsDetected is
    → select q (select s is) ≡ select (λ i. s i && r i) is
select-select_agree s q r [] h a = refl
select-select_agree s q r (i ∷ is) h a =
    select_both (s i) (r i) i q (select s is) _ (h i a.0) (select-select_agree s q r is h a.1)

select_never : (s : Insight Json → Bool) (is : Insights) → select (λ i. s i && false) is ≡ []
select_never s [] = refl
select_never s (i ∷ is) = ground (arith, select_never s is)

-- What a row says: its kind, its count and its weight.
abbrev pub said : SilenceSignal → SilenceSignalKind × (ℕ × ℕ)
said s = (s.kind, (s.count, s.weight))

module _ (f : Floats) (x : External) (source : DataSource) (period : Text) (now : ℕ) where
  said_of :
      (all js : Insights)
      → map said (index_of f x source period now (signals_of f x (shares all js))).signals
        ≡ (press_only_gap, (length (shares all js).press_only, float_3))
          ∷ (data_only_gap, (length (shares all js).data_only, float_1))
          ∷ (unattributed_jump, (length (shares all js).unattributed_jumps, float_5))
          ∷ (missing_data_day, (length (shares all js).data_only, float_2))
          ∷ []
  unfolding index_of signals_of make_signal weight
  said_of all js = refl

  -- Over any feed in which every gap holds evidence that the detector made, the index counts every
  -- gap of the source in the period, a data-only gap included, as a press release without data, at
  -- weight 3. The rows of the data-only gaps, whose weight is 1, and of the missing-data days are 0,
  -- because the evidence of a data-only gap speaks of the press as well. The jumps of the source in
  -- the period that no press release explains are counted at weight 5.
  pub build_index_from_insights-IsDetected :
      (insights : Insights) {idx : SilenceIndex}
      → All IsDetected insights
      → build_index_from_insights f x insights source period now ≡ some idx
      → map said idx.signals
        ≡ (
          press_only_gap,
          (
            length (select (λ i. in_scope source period i && same i.kind gap_kind) insights),
            float_3,
          ),
        )
          ∷ (data_only_gap, (0, float_1))
          ∷ (
            unattributed_jump,
            (
              length
                  (select (λ i. in_scope source period i && is_unattributed insights i) insights),
              float_5,
            ),
          )
          ∷ (missing_data_day, (0, float_2))
          ∷ []
  build_index_from_insights-IsDetected insights {idx} a e =
      let built = index_of-shares f x insights source period now in
      elim (Option-cases (scoped source period insights)) [
        | inl panics ↦ let h = rw panics at built in cc
        | inr (js, s) ↦
            let all = shares insights js in
            let finished : build_index_from_insights f x insights source period now
                ≡ some (index_of f x source period now (signals_of f x all)) =
              rw s at built in
            let h : idx ≡ index_of f x source period now (signals_of f x all) = cc in
            let in_scope' = in_scope source period in
            let kept = scoped-select source period insights s in
            let share =
              λ (q r : Insight Json → Bool) (agree : (i : Insight Json) → IsDetected i → q i ≡ r i).
                ap (select q) kept ∙ select-select_agree in_scope' q r insights agree a in
            let gaps = share is_press_only (λ i. same i.kind gap_kind) IsDetected-press_only in
            let none_left =
              share is_data_only (λ i. false) IsDetected-not_data_only
              ∙ select_never in_scope' insights in
            let jumps = share (is_unattributed insights) (is_unattributed insights) (λ i d. refl) in
            ap (λ q. map said q.signals) h ∙ said_of insights js ∙ rw (gaps, none_left, jumps) refl
      ]
