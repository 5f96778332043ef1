-- ===== src/Insights/Feedback.antt =====
-- `FeedbackStore` of crates/agent/src/insight.rs. The sum of an `i64` per row cannot overflow while
-- the rows fit into memory, so it is an integer here.
use hkgov_rethink.Prelude.{
  ℕ, zero, suc, ◌≡◌, refl, ap, ◌∙◌, Bool, List, [], ◌∷◌, ◌++◌, reverse, Option, Text, text_key,
  same, length, take, if◌then◌else◌, arith, ℤ, pos, negsuc, suc_ℤ, pred_ℤ,
}

pub record Feedback : Type 0 where
  pub insight_id : Text
  pub useful : Bool
  pub note : Option Text
  pub submitted_at : ℕ

pub record FeedbackStore : Type 0 where
  pub inner : List Feedback

pub record FeedbackStoreSnapshot : Type 0 where
  pub feedback : List Feedback

unfoldable pub new : FeedbackStore
new = record { inner = [] }

unfoldable pub record_feedback : FeedbackStore → Feedback → FeedbackStore
record_feedback s f = record { inner = s.inner ++ f ∷ [] }

-- The sum of 1 for a useful row of the insight, and of -1 for one that is not.
abbrev pub net_of : Text → List Feedback → ℤ
net_of id [] = pos 0
net_of id (f ∷ fs) =
    let rest = net_of id fs in
    if same f.insight_id id then (if f.useful then suc_ℤ rest else pred_ℤ rest) else rest

unfoldable pub net_useful : FeedbackStore → Text → ℤ
net_useful s id = net_of id s.inner

unfoldable pub count : FeedbackStore → ℕ
count s = length s.inner

unfoldable pub list : FeedbackStore → ℕ → List Feedback
list s limit = take limit (reverse s.inner)

unfoldable pub snapshot : FeedbackStore → FeedbackStoreSnapshot
snapshot s = record { feedback = s.inner }

unfoldable pub restore : FeedbackStore → FeedbackStoreSnapshot → FeedbackStore
restore s snap = record { inner = snap.feedback }

pred-suc : (z : ℤ) → pred_ℤ (suc_ℤ z) ≡ z
pred-suc (pos n) = refl
pred-suc (negsuc zero) = refl
pred-suc (negsuc (suc n)) = refl

suc-pred : (z : ℤ) → suc_ℤ (pred_ℤ z) ≡ z
suc-pred (pos zero) = refl
suc-pred (pos (suc n)) = refl
suc-pred (negsuc n) = refl

-- What a row does to the sum.
abbrev pub vote : Text → Feedback → ℤ → ℤ
vote id f z = if same f.insight_id id then (if f.useful then suc_ℤ z else pred_ℤ z) else z

vote_comm : (id : Text) (f g : Feedback) (z : ℤ) → vote id f (vote id g z) ≡ vote id g (vote id f z)
vote_comm id f g z = ground (arith, pred-suc z, suc-pred z)

net_of-append :
    (id : Text) (fs : List Feedback) (f : Feedback)
    → net_of id (fs ++ f ∷ []) ≡ vote id f (net_of id fs)
net_of-append id [] f = refl
net_of-append id (g ∷ fs) f =
    ap (vote id g) (net_of-append id fs f) ∙ vote_comm id g f (net_of id fs)

-- A row that is recorded moves the net usefulness of its insight by one, up or down, and that of no
-- other insight.
pub net_useful-record_feedback :
    (s : FeedbackStore) (f : Feedback) (id : Text)
    → net_useful (record_feedback s f) id ≡ vote id f (net_useful s id)
unfolding net_useful record_feedback
net_useful-record_feedback s f id = net_of-append id s.inner f
