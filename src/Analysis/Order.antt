-- ===== src/Analysis/Order.antt =====
-- The id of a gap (crates/agent/src/analysis.rs) depends on the order in which a `HashSet` is iterated.
use hkgov_rethink.Prelude.{
  ℕ, zero, suc, ◌*◌, ◌/◌, ◌%◌, ◌-◌, ◌^◌, ◌<◌, ◌≡◌, ◌≢◌, refl, sym, ap, ◌∙◌, false, some, get_elem?,
  List, [], ◌∷◌, ◌++◌, Text, text, concat, append_cancel, append-nil, leb, if◌then◌else◌, arith,
}
use native.Mathlib.Numerals.{unary_clauses}
use hkgov_rethink.Common.Sources.{DataSource, as_str}
use hkgov_rethink.Audit.Json.{Json, Serde}
use hkgov_rethink.Insights.Types.{EvidenceRef}
use hkgov_rethink.Analysis.Finding.{
  Finding, lower_hex, hex_digits, fingerprint, fingerprint_bytes, insight_id,
}
use hkgov_rethink.Analysis.Gaps.{has, press_finding, detect_cross_source_gaps}

abbrev digit_value : ℕ → ℕ
digit_value c = if leb c b'9' then c - 48 else c - 87

digit_value-lower_hex : (d : ℕ) → d < 16 → digit_value (lower_hex d) ≡ d
digit_value-lower_hex d h = ground arith

hex_digits-injective :
    (n m m' : ℕ) (rest rest' : Text)
    → m < 16 ^ n
    → m' < 16 ^ n
    → hex_digits n m rest ≡ hex_digits n m' rest'
    → (m ≡ m') × (rest ≡ rest')
hex_digits-injective zero m m' rest rest' h h' e = (omega arith, e)
hex_digits-injective (suc n) m m' rest rest' h h' e =
    let p : 16 ^ suc n ≡ 16 ^ n * 16 = simp unary_clauses (omega arith) in
    let (q, r) =
      hex_digits-injective n (m / 16) (m' / 16) (lower_hex (m % 16) ∷ rest)
        (lower_hex (m' % 16) ∷ rest') (omega (arith, p)) (omega (arith, p)) e in
    let c : lower_hex (m % 16) ≡ lower_hex (m' % 16) = cc in
    let d : rest ≡ rest' = cc in
    (
      omega (
        arith,
        q,
        ap digit_value c,
        digit_value-lower_hex (m % 16) (omega arith),
        digit_value-lower_hex (m' % 16) (omega arith),
      ),
      d,
    )

concat_cancel :
    (front : List Text) (s t : Text) → concat (front ++ s ∷ []) ≡ concat (front ++ t ∷ []) → s ≡ t
concat_cancel [] s t e = sym (append-nil s) ∙ e ∙ append-nil t
concat_cancel (p ∷ front) s t e = concat_cancel front s t (append_cancel p _ _ e)

module _ (serde : Serde) (sip : Text → ℕ) (bounded : (s : Text) → sip s < 16 ^ 16) where
  fingerprint-injective :
      (ev ev' : List (EvidenceRef Json))
      → fingerprint serde sip ev ≡ fingerprint serde sip ev'
      → sip (fingerprint_bytes serde sip ev) ≡ sip (fingerprint_bytes serde sip ev')
  unfolding fingerprint
  fingerprint-injective ev ev' e = (hex_digits-injective 16 _ _ [] [] (bounded _) (bounded _) e).0

  fingerprint_differs :
      (source : DataSource) (dataset : Text) (p q : List Text)
      → sip (fingerprint_bytes serde sip (press_finding source dataset p).evidence)
        ≢ sip (fingerprint_bytes serde sip (press_finding source dataset q).evidence)
      → insight_id serde sip (press_finding source dataset p)
        ≢ insight_id serde sip (press_finding source dataset q)
  unfolding insight_id press_finding
  fingerprint_differs source dataset p q differ e =
      let front =
        text "cross_source_gap" ∷ text ":" ∷ as_str source ∷ text ":" ∷ dataset ∷ text ":" ∷ [] in
      differ (fingerprint-injective _ _ (concat_cancel front _ _ e))

  -- The same two press dates without data, met in the two orders in which a set of them may be
  -- iterated, are two findings with different ids, unless the hasher takes both orders to one value.
  pub detect_cross_source_gaps-order :
      (source : DataSource) (dataset a b : Text) (one two : List Text → List Text)
      (press_dates data_dates : List Text)
      → one press_dates ≡ a ∷ b ∷ []
      → two press_dates ≡ b ∷ a ∷ []
      → has data_dates a ≡ false
      → has data_dates b ≡ false
      → sip (fingerprint_bytes serde sip (press_finding source dataset (a ∷ b ∷ [])).evidence)
        ≢ sip (fingerprint_bytes serde sip (press_finding source dataset (b ∷ a ∷ [])).evidence)
      → (f : Finding) × (g : Finding) × (get_elem?
            (detect_cross_source_gaps source dataset one press_dates data_dates)
            0
          ≡ some f)
        × (get_elem? (detect_cross_source_gaps source dataset two press_dates data_dates) 0
            ≡ some g)
        × (insight_id serde sip f ≢ insight_id serde sip g)
  unfolding detect_cross_source_gaps
  detect_cross_source_gaps-order source dataset a b one two press_dates data_dates p q u v differ =
      (
        press_finding source dataset (a ∷ b ∷ []),
        press_finding source dataset (b ∷ a ∷ []),
        rw p (rw (u, v) refl),
        rw q (rw (u, v) refl),
        fingerprint_differs source dataset (a ∷ b ∷ []) (b ∷ a ∷ []) differ,
      )
