-- ===== src/Audit/Trail.antt =====
-- The store of crates/agent/src/provenance.rs: restored from its snapshot, and what its attestations
-- claim.
use hkgov_rethink.Prelude.{
  Ordering, ◌≡◌, ◌⊎◌, inl, inr, refl, ap, ◌∙◌, Bool, true, false, List, [], ◌∷◌, ◌++◌, Option, none,
  some, Text, text, text_key, starts_with, insert-IsSorted, IsSorted, All, All-insert, insert_all,
  insert_all-values, values, sort_by, insert_by, Option-cases, arith,
}
use hkgov_rethink.Insights.Types.{Insight}
use hkgov_rethink.Audit.Json.{Json}
use hkgov_rethink.Audit.Cite.{ReproducibilityManifest}
use hkgov_rethink.Audit.Provenance.{
  ProvenanceRecord, ProvenanceStore, Attestation, record_provenance, find_provenance, snapshot,
  restore, id_cmp, build_attestation, claim_of, attestation_version,
}

-- Sorted by the ids, and each record under its own.
pub record IsStore (s : ProvenanceStore) : Type 0 where
  pub sorted : IsSorted s
  pub own : All (λ e. e.1.insight_id ≡ e.0) s

record_provenance-IsStore :
    (rec : ProvenanceRecord) (s : ProvenanceStore) → IsStore s → IsStore (record_provenance rec s)
unfolding record_provenance
record_provenance-IsStore rec s v = record {
  sorted = insert-IsSorted rec.insight_id rec s v.sorted;
  own = All-insert (λ e. e.1.insight_id ≡ e.0) rec.insight_id rec s refl v.own;
}

insert_by_first :
    (x y : ProvenanceRecord) (ys : List ProvenanceRecord)
    → id_cmp x y ≡ Ordering.lt
    → insert_by id_cmp x (y ∷ ys) ≡ x ∷ y ∷ ys
unfolding insert_by
insert_by_first x y ys h = rw (h, insert_by)

-- A list that is sorted already.
values-sort_by :
    (s : ProvenanceStore)
    → IsSorted s
    → All (λ e. e.1.insight_id ≡ e.0) s
    → sort_by id_cmp (values s) ≡ values s
unfolding sort_by insert_by
values-sort_by [] v o = refl
values-sort_by ((j, r) ∷ []) v o = refl
values-sort_by ((j, r) ∷ (k, q) ∷ s) v o =
    ap (insert_by id_cmp r) (values-sort_by ((k, q) ∷ s) v.1 o.1)
    ∙ insert_by_first r q (values s) (cc)

-- Any records, one after the other.
abbrev pub record_all : List ProvenanceRecord → ProvenanceStore → ProvenanceStore
record_all [] s = s
record_all (r ∷ rs) s = record_all rs (record_provenance r s)

record_all-IsStore :
    (rs : List ProvenanceRecord) (s : ProvenanceStore) → IsStore s → IsStore (record_all rs s)
record_all-IsStore [] s v = v
record_all-IsStore (r ∷ rs) s v =
    record_all-IsStore rs (record_provenance r s) (record_provenance-IsStore r s v)

-- Whatever was recorded, the snapshot of the store restores it, and nothing that the store held
-- before stays.
pub restore-snapshot-record_all :
    (rs : List ProvenanceRecord) (before : ProvenanceStore)
    → restore (snapshot (record_all rs [])) before ≡ record_all rs []
unfolding restore snapshot
restore-snapshot-record_all rs before =
    let v = record_all-IsStore rs [] (record { sorted = tt; own = tt }) in
    let s = record_all rs [] in
    ap (insert_all (λ (r : ProvenanceRecord). r.insight_id) []) (values-sort_by s v.sorted v.own)
    ∙ insert_all-values (λ (r : ProvenanceRecord). r.insight_id) s v.own v.sorted

starts_with_both : (p s q : Text) → starts_with (p ++ s) (p ++ q) ≡ starts_with s q
starts_with_both [] s q = refl
starts_with_both (c ∷ p) s q = ground (arith, starts_with_both p s q)

-- What the claim of a finding that reproduces begins with.
abbrev pub reproduces : Text → Text
reproduces id = text "Finding " ++ (id ++ text " is deterministic-reproducible")

claim_of-reproduces :
    (insight : Insight Json) (p : ProvenanceRecord) (d : Bool)
    → p.deterministic ≡ d
    → starts_with (claim_of insight p) (reproduces insight.id) ≡ d
unfolding claim_of
claim_of-reproduces insight p true e = rw e (starts_with_both insight.id _ _)
claim_of-reproduces insight p false e = rw e (starts_with_both insight.id _ _)

-- An insight is attested exactly if the store holds a record for it, the attestation holds that
-- record, and its claim says that the finding reproduces exactly if the record is marked
-- deterministic.
pub build_attestation_lem :
    (insight : Insight Json) (s : ProvenanceStore) (m : Option ReproducibilityManifest)
    → ((find_provenance insight.id s ≡ none) × (build_attestation insight s m ≡ none))
      ⊎ ((a : Attestation) × (build_attestation insight s m ≡ some a)
          × (find_provenance insight.id s ≡ some a.provenance)
          × (starts_with a.claim (reproduces insight.id) ≡ a.provenance.deterministic))
unfolding build_attestation
build_attestation_lem insight s m = elim (Option-cases (find_provenance insight.id s)) [
  | inl e ↦ inl (e, rw (e, build_attestation))
  | inr (p, e) ↦ inr (
    record {
      attestation_version = attestation_version;
      insight = insight;
      provenance = p;
      reproducibility_manifest = m;
      claim = claim_of insight p;
    },
    rw (e, build_attestation),
    e,
    claim_of-reproduces insight p p.deterministic refl,
  )
]
