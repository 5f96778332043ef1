-- ===== src/Silence/Period.antt =====
-- Which insights a period of crates/agent/src/silence.rs takes in. `none` is a panic: a slice of a
-- record id that ends inside a character.
use hkgov_rethink.Prelude.{
  ℕ, ◌+◌, ◌-◌, ◌*◌, Bool, true, false, ◌&&◌, ◌||◌, List, [], ◌∷◌, map, Option, none, some, Text,
  text, text_key, same, starts_with, contains, any, is_empty, select, length, leb, ltb, ◌==◌,
  if◌then◌else◌, ℤ, eq_ℤ, parse_signed, parse_unsigned,
}
use hkgov_rethink.Insights.Types.{Insight, EvidenceRef}
use hkgov_rethink.Analysis.Periods.{◌>>=◌, slice}
use hkgov_rethink.Audit.Json.{Json}
use hkgov_rethink.Audit.Cite.{context_of}

-- `split_once('-')`
unfoldable pub split_dash : Text → Option (Text × Text)
split_dash [] = none
split_dash (c ∷ s) =
    if c == b'-'
    then some ([], s)
    else elim (split_dash s) [ none ↦ none | some (a, b) ↦ some (c ∷ a, b) ]

-- `strip_prefix('Q')`
abbrev pub strip_q : Text → Option Text
strip_q [] = none
strip_q (c ∷ s) = if c == b'Q' then some s else none

unfoldable pub parse_quarter : Text → Option (ℤ × ℕ)
unfolding split_dash
parse_quarter s = do
  (y, q) ← split_dash s
  year ← parse_signed 2147483647 y
  n ← strip_q q
  quarter ← parse_unsigned 255 n
  if leb 1 quarter && leb quarter 4 then some (year, quarter) else none

unfoldable pub quarter_month_range : ℕ → ℕ × ℕ
quarter_month_range q = let start = (q - 1) * 3 + 1 in (start, start + 3)

unfoldable pub date_in_quarter : Text → ℤ → ℕ → ℕ → Option Bool
unfolding slice
date_in_quarter record_id year start_month end_month =
    if ltb (length record_id) 7 then some false else (do
      y_str ← slice record_id 0 4
      m_str ← slice record_id 5 7
      some (elim (parse_signed 2147483647 y_str) [
        | none ↦ false
        | some y ↦ elim (parse_unsigned 255 m_str) [
          | none ↦ false
          | some m ↦ eq_ℤ y year && (leb start_month m && ltb m end_month)
        ]
      ]))

-- `any` of a test that may panic, which stops at the first that passes.
unfoldable pub any_or_panic :
    (EvidenceRef Json → Option Bool) → List (EvidenceRef Json) → Option Bool
any_or_panic p [] = some false
any_or_panic p (e ∷ es) =
    let rest = any_or_panic p es in
    elim (p e) [ none ↦ none | some true ↦ some true | some false ↦ rest ]

unfoldable pub insight_in_period : Insight Json → Text → Option Bool
unfolding parse_quarter quarter_month_range date_in_quarter any_or_panic
insight_in_period insight period =
    if is_empty period then some true else (elim (parse_quarter period) [
      | some (year, q) ↦
          let (start_month, end_month) = quarter_month_range q in
          any_or_panic (λ e. date_in_quarter e.record_id year start_month end_month)
            insight.evidence
      | none ↦ some (any (λ e. starts_with e.record_id period) insight.evidence)
    ])

unfoldable pub evidence_says_press_only : List (EvidenceRef Json) → Bool
evidence_says_press_only evidence = any (λ e. contains (context_of e) (text "press")) evidence

abbrev pub same_period : Text → Text → Bool
same_period a b = same a b || starts_with a b || starts_with b a

abbrev pub jump_dates : Insight Json → List Text
jump_dates jump =
    map (λ e. e.record_id) (select (λ e. contains (context_of e) (text "current")) jump.evidence)

unfoldable pub has_same_period_press : Insight Json → List (Insight Json) → Bool
has_same_period_press jump all =
    if is_empty (jump_dates jump)
    then false
    else (any
        (λ other.
          same other.kind (text "cross_source_gap")
          && any (λ e. any (λ jd. same_period jd e.record_id) (jump_dates jump)) other.evidence)
        all)
