-- ===== src/Store/Canonical.antt =====
-- The order of the records does not matter to `content_hash` (crates/store/src/lineage.rs).
use hkgov_rethink.Prelude.{
  ℕ, ◌≡◌, refl, ap, ◌∙◌, Bool, false, List, [], ◌∷◌, Text, text_key, same, same_iff, any, arith,
}
use mathlib.Core.Path.{subst}
use mathlib.Core.List.{Permᴰ}
use hkgov_rethink.Common.Model.{NormalizedRecord}
use hkgov_rethink.Store.Lineage.{insert_record, sort_records, record_bytes, content_hash}

abbrev pub same_id : NormalizedRecord → NormalizedRecord → Bool
same_id r s = same r.record_id s.record_id

-- No two records have the same id.
abbrev pub Distinct : List NormalizedRecord → Type 0
Distinct [] = Unit {0}
Distinct (r ∷ rs) = (any (same_id r) rs ≡ false) × Distinct rs

-- Two records with different ids are inserted in either order.
insert_record_comm :
    (a b : NormalizedRecord) (rs : List NormalizedRecord)
    → same_id a b ≡ false
    → insert_record a (insert_record b rs) ≡ insert_record b (insert_record a rs)
unfolding insert_record
insert_record_comm a b [] ne = ground (
  arith,
  text_key.cmp_flip a.record_id b.record_id,
  text_key.cmp_back a.record_id b.record_id,
  text_key.cmp_eq a.record_id b.record_id,
)
insert_record_comm a b (c ∷ rs) ne =
    let x = a.record_id in
    let y = b.record_id in
    let z = c.record_id in
    ground (
      arith,
      insert_record_comm a b rs ne,
      text_key.cmp_flip x y,
      text_key.cmp_back x y,
      text_key.cmp_eq x z,
      text_key.cmp_eq y z,
      text_key.cmp_back x z,
      text_key.cmp_back y z,
      text_key.cmp_flip x z,
      text_key.cmp_flip y z,
      text_key.cmp_trans x y z,
      text_key.cmp_trans y x z,
      text_key.cmp_trans x z y,
      text_key.cmp_trans y z x,
    )

any-Permᴰ :
    (p : NormalizedRecord → Bool) {xs ys : List NormalizedRecord}
    → Permᴰ xs ys
    → any p xs ≡ any p ys
any-Permᴰ p Permᴰ.nil = refl
any-Permᴰ p (Permᴰ.cons e h) = ground (arith, ap p e, any-Permᴰ p h)
any-Permᴰ p (Permᴰ.swap e f) = ground (arith, ap p e, ap p f)
any-Permᴰ p (Permᴰ.trans h k) = any-Permᴰ p h ∙ any-Permᴰ p k

same_id_sym : (a b : NormalizedRecord) → same_id a b ≡ false → same_id b a ≡ false
same_id_sym a b h =
    ground (arith, (same_iff b.record_id a.record_id).0, (same_iff a.record_id b.record_id).1)

Distinct-Permᴰ : {xs ys : List NormalizedRecord} → Permᴰ xs ys → Distinct xs → Distinct ys
Distinct-Permᴰ Permᴰ.nil d = tt
Distinct-Permᴰ (Permᴰ.cons {a = a} {b = b} {l₂ = ys} e h) d =
    (rw (← e, ← any-Permᴰ (same_id a) h) d.0, Distinct-Permᴰ h d.1)
Distinct-Permᴰ (Permᴰ.swap {a = a} {b = b} {b' = b'} {l = l} e f) d =
    let swapped : Distinct (b ∷ a ∷ l) =
      (ground (arith, d.0, d.1.0, same_id_sym a b), (ground (arith, d.0), d.1.1)) in
    subst (λ w. Distinct (w ∷ b' ∷ l)) f (subst (λ w. Distinct (b ∷ w ∷ l)) e swapped)
Distinct-Permᴰ (Permᴰ.trans h k) d = Distinct-Permᴰ k (Distinct-Permᴰ h d)

sort_records-Permᴰ :
    {xs ys : List NormalizedRecord} → Permᴰ xs ys → Distinct xs → sort_records xs ≡ sort_records ys
unfolding sort_records
sort_records-Permᴰ Permᴰ.nil d = refl
sort_records-Permᴰ (Permᴰ.cons e h) d = rw (e, sort_records-Permᴰ h d.1)
sort_records-Permᴰ (Permᴰ.swap {a = a} {b = b} {l = l} e f) d =
    rw (← e, ← f) (insert_record_comm a b (sort_records l) (ground (arith, d)))
sort_records-Permᴰ (Permᴰ.trans h k) d =
    sort_records-Permᴰ h d ∙ sort_records-Permᴰ k (Distinct-Permᴰ h d)

-- The hash of a dataset does not depend on the order in which its records came, as long as no two of
-- them have the same id.
pub content_hash-Permᴰ :
    (sha : Text → Text) (show_float : ℕ → Text) {xs ys : List NormalizedRecord}
    → Permᴰ xs ys
    → Distinct xs
    → content_hash sha show_float xs ≡ content_hash sha show_float ys
unfolding content_hash
content_hash-Permᴰ sha show_float p d =
    ap (λ l. sha (record_bytes sha show_float l)) (sort_records-Permᴰ p d)
