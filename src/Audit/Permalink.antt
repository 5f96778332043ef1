-- ===== src/Audit/Permalink.antt =====
-- The permalink of a citation (crates/agent/src/cite.rs), read back.
use hkgov_rethink.Prelude.{
  ℕ, ◌+◌, ◌-◌, ◌*◌, ◌/◌, ◌%◌, ◌<◌, ◌≡◌, refl, sym, ap, ◌∙◌, append_assoc, Bool, true, false, ◌||◌,
  List, [], ◌∷◌, ◌++◌, Option, Text, text, length, drop, drop-append, All, leb, ◌==◌, if◌then◌else◌,
  Bool-cases, inl, inr, arith,
}
use mathlib.Core.Path.{subst}
use hkgov_rethink.Common.Model.{NormalizedRecord}
use hkgov_rethink.Insights.Types.{Insight}
use hkgov_rethink.Audit.Json.{Json}
use hkgov_rethink.Audit.Cite.{
  External, upper_hex, is_unreserved, url_encode, trim_end_slashes, build_citation,
}

abbrev pub hex_value : ℕ → ℕ
hex_value c = if leb c b'9' then c - 48 else c - 55

-- Percent-decoding, as a reader of the link does it.
pub percent_decode : Text → Text
percent_decode [] = []
percent_decode (c ∷ []) = c ∷ []
percent_decode (c ∷ h ∷ []) = c ∷ h ∷ []
percent_decode (c ∷ h ∷ l ∷ s) =
    let escaped = percent_decode s in
    let plain = percent_decode (h ∷ l ∷ s) in
    if c == b'%' then (hex_value h * 16 + hex_value l) ∷ escaped else c ∷ plain

percent_decode_plain :
    (c : ℕ) (s : Text) → (c == b'%') ≡ false → percent_decode (c ∷ s) ≡ c ∷ percent_decode s
unfolding percent_decode
percent_decode_plain c [] h = refl
percent_decode_plain c (a ∷ []) h = refl
percent_decode_plain c (a ∷ b ∷ s) h = rw h

hex_value-upper_hex : (d : ℕ) → d < 16 → hex_value (upper_hex d) ≡ d
hex_value-upper_hex d h = ground arith

is_unreserved-percent : (c : ℕ) → is_unreserved c ≡ true → (c == b'%') ≡ false
is_unreserved-percent c h = ground arith

percent_decode-url_encode : (s : Text) → All (λ b. b < 256) s → percent_decode (url_encode s) ≡ s
unfolding percent_decode url_encode
percent_decode-url_encode [] a = refl
percent_decode-url_encode (b ∷ s) a = elim (Bool-cases (is_unreserved b)) [
  | inl plain ↦ rw plain (
      percent_decode_plain b (url_encode s) (is_unreserved-percent b plain)
      ∙ ap (◌∷◌ b) (percent_decode-url_encode s a.1))
  | inr other ↦ rw other (
      let high = hex_value-upper_hex (b / 16) (omega (arith, a.0)) in
      let low = hex_value-upper_hex (b % 16) (omega arith) in
      let e : hex_value (upper_hex (b / 16)) * 16 + hex_value (upper_hex (b % 16)) ≡ b =
        omega (arith, high, low) in
      ap (λ v. v ∷ percent_decode (url_encode s)) e ∙ ap (◌∷◌ b) (percent_decode-url_encode s a.1))
]

-- An unreserved character, or the sign of an escaped one.
abbrev pub is_link_char : ℕ → Bool
is_link_char c = is_unreserved c || c == b'%'

upper_hex-is_link_char : (d : ℕ) → d < 16 → is_link_char (upper_hex d) ≡ true
upper_hex-is_link_char d h = ground arith

All-is_link_char :
    (s : Text) → All (λ b. b < 256) s → All (λ c. is_link_char c ≡ true) (url_encode s)
unfolding url_encode
All-is_link_char [] a = tt
All-is_link_char (b ∷ s) a = ground (
  arith,
  All-is_link_char s a.1,
  a.0,
  upper_hex-is_link_char (b / 16),
  upper_hex-is_link_char (b % 16),
)

abbrev pub prefix : Text → Text
prefix base_url = trim_end_slashes base_url ++ text "/cite/"

module _ (x : External) where
  -- Behind the base and `/cite/` the permalink of an insight is made of unreserved characters and
  -- escapes, and decodes to the insight's id, whatever bytes that id holds.
  pub build_citation-permalink :
      (insight : Insight Json) (records : List NormalizedRecord) (base_url : Text)
      (runtime_version : Option Text)
      → All (λ b. b < 256) insight.id
      → (percent_decode (
            drop
              (length (prefix base_url))
              (build_citation x insight records base_url runtime_version).permalink)
          ≡ insight.id)
        × All
            (λ c. is_link_char c ≡ true)
            (drop
              (length (prefix base_url))
              (build_citation x insight records base_url runtime_version).permalink)
  unfolding build_citation
  build_citation-permalink insight records base_url runtime_version a =
      let link = url_encode insight.id in
      let n = length (prefix base_url) in
      let e : drop n (trim_end_slashes base_url ++ (text "/cite/" ++ link)) ≡ link =
        ap (drop n) (sym (append_assoc (trim_end_slashes base_url) (text "/cite/") link))
        ∙ drop-append (prefix base_url) link in
      (
        ap percent_decode e ∙ percent_decode-url_encode insight.id a,
        subst (λ s. All (λ c. is_link_char c ≡ true) s) (sym e) (All-is_link_char insight.id a),
      )
