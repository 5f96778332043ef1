-- ===== src/Alerts/Repeat.antt =====
-- A supervisor pass that finds the same things again (crates/agent/src/alerts.rs): nothing is sent.
use hkgov_rethink.Prelude.{
  ℕ, ◌+◌, ◌≡◌, ◌≤◌, ◌<◌, ◌⊎◌, inl, inr, refl, ap, ◌∙◌, true, false, ◌||◌, List, [], ◌∷◌, Text,
  text_key, length, length-append, any, any-append, same, same_refl, Bool-cases, arith, All,
}
use hkgov_rethink.Insights.Types.{Insight}
use hkgov_rethink.Alerts.Window.{DispatchedWindow, max_dispatched_ids, has}
use hkgov_rethink.Alerts.Bounds.{IsValid, marked}
use hkgov_rethink.Alerts.Calls.{below}
use hkgov_rethink.Alerts.Delivery.{one_low, one_known, one_new, marked_order, marked-IsValid}
use hkgov_rethink.Alerts.Dispatcher.{AlertDispatcher, evaluate_one, evaluate}

-- Marking, with room, forgets nothing and adds the id.
has-marked :
    (x q : Text) (w : DispatchedWindow)
    → IsValid w
    → has q w.ids ≡ false
    → length w.order < max_dispatched_ids
    → has x (marked q w).ids ≡ (has x w.ids || same x q)
has-marked x q w v absent room =
    let valid = marked-IsValid q w v absent in
    valid.agree x
    ∙ ap (any (same x)) (marked_order q w v room)
    ∙ any-append (same x) w.order (q ∷ [])
    ∙ ground (arith, v.agree x)

module _ {S J : Type 0} (now : S → ℕ) where
  -- A finding that would not be sent: below the threshold, or with an id that is in the window.
  abbrev pub IsSettled : AlertDispatcher S J → Insight J → Type 0
  IsSettled d i = (below i.severity d.min_severity ≡ true) ⊎ (has i.id d.dispatched.ids ≡ true)

  settled_one :
      (i : Insight J) (d : AlertDispatcher S J) (s : S)
      → IsSettled d i
      → evaluate_one now i (d, s) ≡ (d, s)
  settled_one i d s (inl low) = one_low now i d s low
  settled_one i d s (inr known) = elim (Bool-cases (below i.severity d.min_severity)) [
    | inl low ↦ one_low now i d s low
    | inr high ↦ one_known now i d s high known
  ]

  settled-All :
      (is : List (Insight J)) (d : AlertDispatcher S J) (s : S)
      → All (IsSettled d) is
      → evaluate now is (d, s) ≡ (d, s)
  unfolding evaluate
  settled-All [] d s a = refl
  settled-All (i ∷ is) d s a = ap (evaluate now is) (settled_one i d s a.0) ∙ settled-All is d s a.1

  -- From one dispatcher to a later one: valid, no new threshold, nothing forgotten, and at most `n`
  -- more ids in the window.
  pub record Grows (n : ℕ) (d e : AlertDispatcher S J) : Type 0 where
    pub valid : IsValid e.dispatched
    pub threshold : e.min_severity ≡ d.min_severity
    pub keeps : (x : Text) → has x d.dispatched.ids ≡ true → has x e.dispatched.ids ≡ true
    pub few : length e.dispatched.order ≤ length d.dispatched.order + n

  one-Grows :
      (i : Insight J) (d : AlertDispatcher S J) (s : S)
      → IsValid d.dispatched
      → length d.dispatched.order < max_dispatched_ids
      → Grows 1 d (evaluate_one now i (d, s)).0 × IsSettled (evaluate_one now i (d, s)).0 i
  one-Grows i d s v room = elim (Bool-cases (below i.severity d.min_severity)) [
    | inl low ↦ rw (one_low now i d s low) (still, inl low)
    | inr high ↦ elim (Bool-cases (has i.id d.dispatched.ids)) [
      | inl known ↦ rw (one_known now i d s high known) (still, inr known)
      | inr absent ↦ rw (one_new now i d s high absent) (
        record {
          valid = marked-IsValid i.id d.dispatched v absent;
          threshold = refl;
          keeps = λ x h. has-marked x i.id d.dispatched v absent room ∙ ground arith;
          few = omega (
            arith,
            ap length (marked_order i.id d.dispatched v room),
            length-append d.dispatched.order (i.id ∷ []),
          );
        },
        inr (has-marked i.id i.id d.dispatched v absent room ∙ ground (arith, same_refl i.id)),
      )
    ]
  ]
    where
      still : Grows 1 d d
      still = record { valid = v; threshold = refl; keeps = λ x h. h; few = omega arith }

  Grows-IsSettled :
      (n : ℕ) (d e : AlertDispatcher S J) (i : Insight J)
      → Grows n d e
      → IsSettled d i
      → IsSettled e i
  Grows-IsSettled n d e i g (inl low) = inl (rw (g.threshold) low)
  Grows-IsSettled n d e i g (inr known) = inr (g.keeps i.id known)

  All-grow :
      (is : List (Insight J)) (d : AlertDispatcher S J) (s : S)
      → IsValid d.dispatched
      → length d.dispatched.order + length is ≤ max_dispatched_ids
      → Grows (length is) d (evaluate now is (d, s)).0
        × All (IsSettled (evaluate now is (d, s)).0) is
  unfolding evaluate
  All-grow [] d s v room =
      (record { valid = v; threshold = refl; keeps = λ x h. h; few = omega arith }, tt)
  All-grow (i ∷ is) d s v room =
      let (first, settled) = one-Grows i d s v (omega arith) in
      let e = evaluate_one now i (d, s) in
      let (rest, others) = All-grow is e.0 e.1 first.valid (omega (arith, first.few)) in
      (
        record {
          valid = rest.valid;
          threshold = rest.threshold ∙ first.threshold;
          keeps = λ x h. rest.keeps x (first.keeps x h);
          few = omega (arith, first.few, rest.few);
        },
        (Grows-IsSettled (length is) e.0 (evaluate now is e).0 i rest settled, others),
      )

  -- From a valid window, a batch that is evaluated again, with room for its ids in the window before the first time,
  -- sends nothing: no sink is called, nothing is logged, and the window stays as it is.
  pub evaluate_again :
      (is : List (Insight J)) (d : AlertDispatcher S J) (s : S)
      → IsValid d.dispatched
      → length d.dispatched.order + length is ≤ max_dispatched_ids
      → evaluate now is (evaluate now is (d, s)) ≡ evaluate now is (d, s)
  evaluate_again is d s v room =
      let r = evaluate now is (d, s) in settled-All is r.0 r.1 (All-grow is d s v room).1
