-- ===== src/Audit/Mention.antt =====
-- What a citation of crates/agent/src/cite.rs mentions in every format.
use hkgov_rethink.Prelude.{
  ℕ, zero, suc, ◌≡◌, refl, sym, ap, ◌∙◌, Bool, true, false, List, [], ◌∷◌, ◌++◌, some, Text, text,
  concat, contains, contains_part, contains-append, contains_front, get_elem?,
}
use mathlib.Core.List.{append-nil}
use hkgov_rethink.Audit.Cite.{
  External, Citation, CitationFormat, bibtex, ris, apa, chicago, markdown,
}
use hkgov_rethink.Audit.Render.{when, exp_suffix, pieces, render}

contains_self : (p : Text) → contains p p ≡ true
contains_self p = ap (λ s. contains s p) (sym (append-nil p)) ∙ contains_front p []

contains_nil : (s : Text) → contains s [] ≡ true
contains_nil [] = refl
contains_nil (c ∷ s) = refl

contains-concat :
    (ss : List Text) (i : ℕ) (p : Text) {s : Text}
    → get_elem? ss i ≡ some s
    → contains s p ≡ true
    → contains (concat ss) p ≡ true
contains-concat [] i p g h = cc
contains-concat (s ∷ ss) zero p {s = t} g h =
    let e : s ≡ t = cc in contains_part s (concat ss) p (ap (λ u. contains u p) e ∙ h)
contains-concat (s ∷ ss) (suc i) p g h =
    contains-append s (concat ss) p (contains-concat ss i p g h)

-- What a citation owes its reader about the detector.
abbrev pub marker : Bool → Text
marker experimental = when experimental (text "xperimental")

when-marker :
    (b : Text) (e : Bool)
    → contains b (text "xperimental") ≡ true
    → contains (when e b) (marker e) ≡ true
when-marker b true h = h
when-marker b false h = refl

module _ (x : External) (c : Citation) where
  abbrev title_at : CitationFormat → ℕ
  title_at bibtex = 5
  title_at ris = 3
  title_at apa = 4
  title_at chicago = 2
  title_at markdown = 1

  abbrev titled : CitationFormat → Text
  titled bibtex = c.title ++ exp_suffix c.experimental
  titled _ = c.title

  abbrev permalink_at : CitationFormat → ℕ
  permalink_at bibtex = 17
  permalink_at ris = 13
  permalink_at apa = 7
  permalink_at chicago = 7
  permalink_at markdown = 4

  abbrev marker_at : CitationFormat → ℕ
  marker_at bibtex = 5
  marker_at ris = 4
  marker_at apa = 5
  marker_at chicago = 3
  marker_at markdown = 2

  abbrev with_marker : CitationFormat → Text
  with_marker bibtex = c.title ++ exp_suffix c.experimental
  with_marker ris = exp_suffix c.experimental
  with_marker apa = exp_suffix c.experimental
  with_marker chicago = when c.experimental (text ". Experimental detector")
  with_marker markdown = when c.experimental (text " *(experimental)*")

  pieces-at :
      (fmt : CitationFormat)
      → (get_elem? (pieces x c fmt) (title_at fmt) ≡ some (titled fmt))
        × (get_elem? (pieces x c fmt) (permalink_at fmt) ≡ some c.permalink)
        × (get_elem? (pieces x c fmt) (marker_at fmt) ≡ some (with_marker fmt))
  unfolding pieces
  pieces-at bibtex = (refl, refl, refl)
  pieces-at ris = (refl, refl, refl)
  pieces-at apa = (refl, refl, refl)
  pieces-at chicago = (refl, refl, refl)
  pieces-at markdown = (refl, refl, refl)

  titled-title : (fmt : CitationFormat) → contains (titled fmt) c.title ≡ true
  titled-title bibtex = contains_front c.title (exp_suffix c.experimental)
  titled-title ris = contains_self c.title
  titled-title apa = contains_self c.title
  titled-title chicago = contains_self c.title
  titled-title markdown = contains_self c.title

  with_marker-marker :
      (fmt : CitationFormat) → contains (with_marker fmt) (marker c.experimental) ≡ true
  with_marker-marker bibtex =
      contains-append c.title (exp_suffix c.experimental) (marker c.experimental)
        (when-marker _ c.experimental refl)
  with_marker-marker ris = when-marker _ c.experimental refl
  with_marker-marker apa = when-marker _ c.experimental refl
  with_marker-marker chicago = when-marker _ c.experimental refl
  with_marker-marker markdown = when-marker _ c.experimental refl

  -- In every format a citation shows the permalink and the title, and says that the detector is
  -- experimental if it is.
  pub render_lem :
      (fmt : CitationFormat)
      → (contains (render x c fmt) c.permalink ≡ true)
        × (contains (render x c fmt) c.title ≡ true)
        × (contains (render x c fmt) (marker c.experimental) ≡ true)
  unfolding render
  render_lem fmt =
      let (title, permalink, mark) = pieces-at fmt in
      let ps = pieces x c fmt in
      (
        contains-concat ps (permalink_at fmt) c.permalink permalink (contains_self c.permalink),
        contains-concat ps (title_at fmt) c.title title (titled-title fmt),
        contains-concat ps (marker_at fmt) (marker c.experimental) mark (with_marker-marker fmt),
      )
