-- ===== src/Audit/Render.antt =====
-- `Citation::render` of crates/agent/src/cite.rs.
use hkgov_rethink.Prelude.{Bool, ◌∷◌, [], List, ◌++◌, Text, text, concat, if◌then◌else◌, show_ℤ}
use hkgov_rethink.Audit.Cite.{
  External, Citation, CitationFormat, bibtex, ris, apa, chicago, markdown, citation_key, short_hash,
}

-- The dash, as UTF-8.
abbrev pub dash : Text
dash = 0xe2 ∷ 0x80 ∷ 0x94 ∷ []

abbrev pub when : Bool → Text → Text
when test s = if test then s else []

abbrev pub exp_suffix : Bool → Text
exp_suffix experimental =
    when experimental
      (text " (experimental detector " ++ (dash ++ text " not yet validated on real data)"))

abbrev pub newline : Text
newline = 10 ∷ []

module _ (x : External) where
  -- The pieces that each format's `format!` puts together.
  unfoldable pub pieces : Citation → CitationFormat → List Text
  unfolding citation_key short_hash
  pieces c bibtex =
      text "@misc{"
      ∷ citation_key x c
      ∷ text ","
      ∷ newline
      ∷ text "  title = {"
      ∷ (c.title ++ exp_suffix c.experimental)
      ∷ text "},"
      ∷ newline
      ∷ text "  author = {"
      ∷ c.publisher
      ∷ text "},"
      ∷ newline
      ∷ text "  year = {"
      ∷ show_ℤ c.year
      ∷ text "},"
      ∷ newline
      ∷ text "  howpublished = {\\url{"
      ∷ c.permalink
      ∷ text "}},"
      ∷ newline
      ∷ text "  note = {Reproducibility manifest: data SHA-256 "
      ∷ short_hash c.manifest.data_sha256
      ∷ text "}"
      ∷ newline
      ∷ text "}"
      ∷ []
  pieces c ris =
      text "TY  - GEN"
      ∷ newline
      ∷ text "TI  - "
      ∷ c.title
      ∷ exp_suffix c.experimental
      ∷ newline
      ∷ text "AU  - "
      ∷ c.publisher
      ∷ newline
      ∷ text "PY  - "
      ∷ show_ℤ c.year
      ∷ newline
      ∷ text "UR  - "
      ∷ c.permalink
      ∷ newline
      ∷ text "N1  - Reproducibility manifest: data SHA-256 "
      ∷ short_hash c.manifest.data_sha256
      ∷ newline
      ∷ text "ER  -"
      ∷ newline
      ∷ []
  pieces c apa =
      c.publisher
      ∷ text ". ("
      ∷ show_ℤ c.year
      ∷ text "). "
      ∷ c.title
      ∷ exp_suffix c.experimental
      ∷ text ". "
      ∷ c.permalink
      ∷ []
  pieces c chicago =
      c.publisher
      ∷ text ", \""
      ∷ c.title
      ∷ when c.experimental (text ". Experimental detector")
      ∷ text ",\" accessed "
      ∷ x.long_date c.generated_at
      ∷ text ", "
      ∷ c.permalink
      ∷ text "."
      ∷ []
  pieces c markdown =
      text "["
      ∷ c.title
      ∷ when c.experimental (text " *(experimental)*")
      ∷ text "]("
      ∷ c.permalink
      ∷ text ") "
      ∷ dash
      ∷ text " "
      ∷ c.publisher
      ∷ text ", "
      ∷ show_ℤ c.year
      ∷ text ". Reproduces in CI (manifest `"
      ∷ short_hash c.manifest.data_sha256
      ∷ text "`)."
      ∷ []

  unfoldable pub render : Citation → CitationFormat → Text
  unfolding pieces
  render c fmt = concat (pieces c fmt)
