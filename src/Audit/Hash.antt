-- ===== src/Audit/Hash.antt =====
-- The hashes of crates/agent/src/cite.rs: what they do not depend on, and how the two are related.
use hkgov_rethink.Prelude.{
  ◌*◌, ◌≤◌, ◌≡◌, ◌↔◌, ap, ◌∙◌, List, [], ◌∷◌, ◌++◌, map, Text, text_key, sort_by, pair_key,
  sort_by-eq_of_Permᴰ, sort_by-Permᴰ, map-Permᴰ, length, length-append, length-map, length-Permᴰ,
  nil_of_length, append-nil, arith,
}
use mathlib.Core.List.{Permᴰ}
use hkgov_rethink.Common.Model.{NormalizedRecord}
use hkgov_rethink.Insights.Types.{EvidenceRef}
use hkgov_rethink.Audit.Json.{Json}
use hkgov_rethink.Audit.Cite.{
  External, Row, row, row_bytes, record_row, record_row_bytes, evidence_bytes, record_bytes,
  reproducibility_hash, evidence_hash,
}

module _ (x : External) where
  evidence_bytes-Permᴰ :
      {e f : List (EvidenceRef Json)} → Permᴰ e f → evidence_bytes x e ≡ evidence_bytes x f
  unfolding evidence_bytes
  evidence_bytes-Permᴰ p = ap (row_bytes x) (sort_by-eq_of_Permᴰ {A = Row} (map-Permᴰ (row x) p))

  record_bytes-Permᴰ :
      {r s : List NormalizedRecord} → Permᴰ r s → record_bytes x r ≡ record_bytes x s
  unfolding record_bytes
  record_bytes-Permᴰ p =
      ap (record_row_bytes x) (sort_by-eq_of_Permᴰ {A = Text × Text} (map-Permᴰ (record_row x) p))

  -- Neither the order of the evidence nor the order of the records shows in the hashes.
  pub evidence_hash-Permᴰ :
      {e f : List (EvidenceRef Json)} {r s : List NormalizedRecord}
      → Permᴰ e f
      → Permᴰ r s
      → (evidence_hash x e r ≡ evidence_hash x f s)
        × (reproducibility_hash x e ≡ reproducibility_hash x f)
  unfolding evidence_hash reproducibility_hash
  evidence_hash-Permᴰ {f = f} {r = r} p q = (
    ap (λ b. x.sha (b ++ record_bytes x r)) (evidence_bytes-Permᴰ p)
        ∙ ap (λ b. x.sha (evidence_bytes x f ++ b)) (record_bytes-Permᴰ q),
    ap x.sha (evidence_bytes-Permᴰ p),
  )

  -- Every record adds at least the two marks behind its parts.
  length-record_row_bytes :
      (rows : List (Text × Text)) → 2 * length rows ≤ length (record_row_bytes x rows)
  length-record_row_bytes [] = omega arith
  length-record_row_bytes ((rid, vals) ∷ rows) = omega (
    arith,
    length-record_row_bytes rows,
    length-append rid (1 ∷ (vals ++ 1 ∷ record_row_bytes x rows)),
    length-append vals (1 ∷ record_row_bytes x rows),
  )

  record_bytes-nil :
      (records : List NormalizedRecord) → length (record_bytes x records) ≤ 0 → records ≡ []
  unfolding record_bytes
  record_bytes-nil records h =
      let rows = map (record_row x) records in
      nil_of_length records (
        omega (
          arith,
          length-record_row_bytes (sort_by {A = Text × Text} pair_key.cmp rows),
          length-Permᴰ (sort_by-Permᴰ {A = Text × Text} pair_key.cmp rows),
          length-map (record_row x) records,
        ))

  -- If SHA-256 does not collide on the two texts that are hashed here, the hash of the citation and that
  -- of the provenance record agree exactly when no records stand behind the citation.
  pub evidence_hash-reproducibility_hash :
      (evidence : List (EvidenceRef Json)) (records : List NormalizedRecord)
      → (x.sha (evidence_bytes x evidence ++ record_bytes x records)
            ≡ x.sha (evidence_bytes x evidence)
          → evidence_bytes x evidence ++ record_bytes x records ≡ evidence_bytes x evidence)
      → (evidence_hash x evidence records ≡ reproducibility_hash x evidence) ↔ (records ≡ [])
  unfolding evidence_hash reproducibility_hash record_bytes sort_by
  evidence_hash-reproducibility_hash evidence records distinct = (
    λ h.
        let e = ap length (distinct h) in
        record_bytes-nil records
          (omega (arith, e, length-append (evidence_bytes x evidence) (record_bytes x records))),
    λ e. rw e (ap x.sha (append-nil (evidence_bytes x evidence))),
  )
