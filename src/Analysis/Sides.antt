-- ===== src/Analysis/Sides.antt =====
-- When `detect_cross_source_gaps` of crates/agent/src/analysis.rs finds anything.
use hkgov_rethink.Prelude.{
  ◌≡◌, ◌↔◌, refl, sym, ap, ◌∙◌, Bool, true, false, not, List, [], ◌∷◌, ◌++◌, append-nil, Text,
  text_key, same, same_iff, select, Bool-cases, inl, inr, arith,
}
use hkgov_rethink.Common.Sources.{DataSource}
use hkgov_rethink.Analysis.Finding.{Finding}
use hkgov_rethink.Analysis.Gaps.{
  has, unless_empty, press_finding, data_finding, detect_cross_source_gaps,
}

select-nil :
    (q : Text → Bool) (xs : List Text) (d : Text) → select q xs ≡ [] → has xs d ≡ true → q d ≡ false
select-nil q [] d e h = cc
select-nil q (y ∷ xs) d e h = elim (Bool-cases (q y)) [
  | inl t ↦ cc (rw t at e)
  | inr n ↦ elim (Bool-cases (same d y)) [
    | inl s ↦ ap q ((same_iff d y).0 s) ∙ n
    | inr s ↦ select-nil q xs d (rw n at e) (rw s at h)
  ]
]

nil_of_select :
    (q : Text → Bool) (xs : List Text)
    → ((d : Text) → has xs d ≡ true → q d ≡ false)
    → select q xs ≡ []
nil_of_select q [] h = refl
nil_of_select q (y ∷ xs) h =
    let e : q y ≡ false = h y (ground (arith, (same_iff y y).1 refl)) in
    rw e (nil_of_select q xs (λ d k. h d (ground (arith, k))))

unless_empty-nil :
    (dates : List Text) (f : List Text → Finding) (rest : List Finding)
    → unless_empty dates f ++ rest ≡ []
    → (dates ≡ []) × (rest ≡ [])
unless_empty-nil [] f rest e = (refl, e)
unless_empty-nil (d ∷ dates) f rest e = cc

both : (a b : Bool) → (a ≡ true → not b ≡ false) → (b ≡ true → not a ≡ false) → a ≡ b
both true true h k = refl
both false false h k = refl
both true false h k = absurd (let e = h refl in cc)
both false true h k = absurd (let e = k refl in cc)

module _ (source : DataSource) (dataset : Text) (iterate : List Text → List Text)
    (iterates : (dates : List Text) (d : Text) → has (iterate dates) d ≡ has dates d) where
  -- Where a set is iterated over exactly its dates, nothing is found exactly if the two sides have the
  -- same dates.
  pub detect_cross_source_gaps-nil :
      (press_dates data_dates : List Text)
      → (detect_cross_source_gaps source dataset iterate press_dates data_dates ≡ [])
        ↔ ((d : Text) → has press_dates d ≡ has data_dates d)
  unfolding detect_cross_source_gaps
  detect_cross_source_gaps-nil press_dates data_dates =
      let only_press = select (λ d. not (has data_dates d)) (iterate press_dates) in
      let only_data = select (λ d. not (has press_dates d)) (iterate data_dates) in
      (
        λ e d.
            let (p, r) =
              unless_empty-nil only_press (press_finding source dataset)
                (unless_empty only_data (data_finding source dataset)) e in
            let q =
              (unless_empty-nil only_data (data_finding source dataset) []
                (append-nil (unless_empty only_data (data_finding source dataset)) ∙ r)).0 in
            both (has press_dates d) (has data_dates d)
              (λ h. select-nil _ (iterate press_dates) d p (iterates press_dates d ∙ h))
              (λ h. select-nil _ (iterate data_dates) d q (iterates data_dates d ∙ h)),
        λ all.
            let p : only_press ≡ [] =
              nil_of_select _ (iterate press_dates)
                (λ d h. ap not (sym (all d) ∙ sym (iterates press_dates d) ∙ h)) in
            let q : only_data ≡ [] =
              nil_of_select _ (iterate data_dates)
                (λ d h. ap not (all d ∙ sym (iterates data_dates d) ∙ h)) in
            ap
              (λ l.
                unless_empty l (press_finding source dataset)
                ++ unless_empty only_data (data_finding source dataset))
              p
            ∙ ap (λ l. unless_empty l (data_finding source dataset)) q,
      )
