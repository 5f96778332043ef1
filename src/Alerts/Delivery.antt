-- ===== src/Alerts/Delivery.antt =====
-- What `AlertDispatcher::evaluate` (crates/agent/src/alerts.rs) delivers, against a plain account of
-- it: each finding at or above the threshold whose id was not seen, once, to every sink in order.
use hkgov_rethink.Prelude.{
  ℕ, ◌+◌, ◌≡◌, ◌≤◌, ◌<◌, inl, inr, refl, sym, ap, ◌∙◌, true, false, List, [], ◌∷◌, ◌++◌, Text,
  text_key, length, length-append, any, same, Bool-cases, arith, if◌then◌else◌,
}
use hkgov_rethink.Insights.Types.{Insight, InsightSeverity}
use hkgov_rethink.Alerts.Window.{DispatchedWindow, max_dispatched_ids, has, mark}
use hkgov_rethink.Alerts.Bounds.{IsValid, make_room_cases, marked, mark-IsValid}
use hkgov_rethink.Alerts.Log.{AlertLog, AlertLogEntry, Keeps, record_all, record_all-Keeps}
use hkgov_rethink.Alerts.Calls.{
  below, below-severity_rank, calls_of, perform, logged, fan_out-perform,
}
use mathlib.Core.Path.{subst}
use hkgov_rethink.Alerts.Dispatcher.{AlertDispatcher, AlertSink, fan_out, evaluate_one, evaluate}

module _ {J : Type 0} where
  -- The findings that are news: at or above the threshold, with an id that is neither in the list
  -- nor that of an earlier one.
  unfoldable pub news : InsightSeverity → List Text → List (Insight J) → List (Insight J)
  news threshold seen [] = []
  news threshold seen (i ∷ is) =
      let later = news threshold seen is in
      let after = news threshold (seen ++ i.id ∷ []) is in
      if below i.severity threshold
      then later
      else if any (same i.id) seen
      then later
      else i ∷ after

module _ {S J : Type 0} where
  -- Each of them to every sink, one after the other.
  unfoldable pub deliver :
      (S → ℕ) → List (AlertSink S J) → List (Insight J) → AlertLog × S → AlertLog × S
  deliver now sinks [] r = r
  deliver now sinks (i ∷ is) r = deliver now sinks is (fan_out now i sinks r)

  -- The dispatcher's log and the world.
  abbrev pub outcome : AlertDispatcher S J × S → AlertLog × S
  outcome (d, s) = (d.log, s)

-- Marking, with room in the window.
mark_known : (q : Text) (w : DispatchedWindow) → has q w.ids ≡ true → mark q w ≡ (w, true)
unfolding mark
mark_known q w e = rw (e, mark)

mark_new : (q : Text) (w : DispatchedWindow) → has q w.ids ≡ false → mark q w ≡ (marked q w, false)
unfolding mark
mark_new q w e = rw (e, mark)

pub marked_order :
    (q : Text) (w : DispatchedWindow)
    → IsValid w
    → length w.order < max_dispatched_ids
    → (marked q w).order ≡ w.order ++ q ∷ []
marked_order q w v room = elim (make_room_cases w v) [
  | inl (same_window, _) ↦ ap (λ (u : DispatchedWindow). u.order ++ q ∷ []) same_window
  | inr (oldest, rest, e, full, made) ↦ absurd (omega arith)
]

module _ {S J : Type 0} (now : S → ℕ) (i : Insight J) (d : AlertDispatcher S J) (s : S) where
  -- The three outcomes for one finding.
  pub one_low : below i.severity d.min_severity ≡ true → evaluate_one now i (d, s) ≡ (d, s)
  unfolding evaluate_one
  one_low low = rw (below-severity_rank i.severity d.min_severity, low, evaluate_one)

  pub one_known :
      below i.severity d.min_severity ≡ false
      → has i.id d.dispatched.ids ≡ true
      → evaluate_one now i (d, s) ≡ (d, s)
  unfolding evaluate_one
  one_known high known =
      rw (below-severity_rank i.severity d.min_severity, high, mark_known i.id d.dispatched known)

  pub one_new :
      below i.severity d.min_severity ≡ false
      → has i.id d.dispatched.ids ≡ false
      → evaluate_one now i (d, s) ≡ (
        record d {
          dispatched = marked i.id d.dispatched;
          log = (fan_out now i d.sinks (d.log, s)).0;
        },
        (fan_out now i d.sinks (d.log, s)).1,
      )
  unfolding evaluate_one
  one_new high absent =
      rw (below-severity_rank i.severity d.min_severity, high, mark_new i.id d.dispatched absent)

module _ {J : Type 0} (threshold : InsightSeverity) (seen : List Text) (i : Insight J)
    (is : List (Insight J)) where
  news_low :
      below i.severity threshold ≡ true → news threshold seen (i ∷ is) ≡ news threshold seen is
  unfolding news
  news_low low = rw (low, news)

  news_known :
      below i.severity threshold ≡ false
      → any (same i.id) seen ≡ true
      → news threshold seen (i ∷ is) ≡ news threshold seen is
  unfolding news
  news_known high known = rw (high, known, news)

  news_new :
      below i.severity threshold ≡ false
      → any (same i.id) seen ≡ false
      → news threshold seen (i ∷ is) ≡ i ∷ news threshold (seen ++ i.id ∷ []) is
  unfolding news
  news_new high absent = rw (high, absent, news)

pub marked-IsValid :
    (q : Text) (w : DispatchedWindow) → IsValid w → has q w.ids ≡ false → IsValid (marked q w)
marked-IsValid q w v absent = rw (mark_new q w absent) at (mark-IsValid q w v)

module _ {S J : Type 0} (now : S → ℕ) where
  evaluate-deliver :
      (is : List (Insight J)) (d : AlertDispatcher S J) (s : S)
      → IsValid d.dispatched
      → length d.dispatched.order + length is ≤ max_dispatched_ids
      → outcome (evaluate now is (d, s))
        ≡ deliver now d.sinks (news d.min_severity d.dispatched.order is) (d.log, s)
  unfolding evaluate deliver news
  evaluate-deliver [] d s v room = refl
  evaluate-deliver (i ∷ is) d s v room =
      let threshold = d.min_severity in
      let seen = d.dispatched.order in
      let run = λ (r : AlertDispatcher S J × S). outcome (evaluate now is r) in
      let sent = λ (xs : List (Insight J)). deliver now d.sinks xs (d.log, s) in
      elim (Bool-cases (below i.severity threshold)) [
        | inl low ↦
            ap run (one_low now i d s low)
            ∙ evaluate-deliver is d s v (omega arith)
            ∙ ap sent (sym (news_low threshold seen i is low))
        | inr high ↦ elim (Bool-cases (has i.id d.dispatched.ids)) [
          | inl known ↦
              ap run (one_known now i d s high known)
              ∙ evaluate-deliver is d s v (omega arith)
              ∙ ap sent (sym (news_known threshold seen i is high (sym (v.agree i.id) ∙ known)))
          | inr absent ↦
              let w = marked i.id d.dispatched in
              let order = marked_order i.id d.dispatched v (omega arith) in
              let valid = marked-IsValid i.id d.dispatched v absent in
              let r = fan_out now i d.sinks (d.log, s) in
              ap run (one_new now i d s high absent)
              ∙ evaluate-deliver is (record d { dispatched = w; log = r.0 }) r.1 valid
                  (omega (arith, ap length order, length-append seen (i.id ∷ [])))
              ∙ ap (λ (o : List Text). deliver now d.sinks (news threshold o is) r) order
              ∙ ap sent (sym (news_new threshold seen i is high (sym (v.agree i.id) ∙ absent)))
        ]
      ]

  deliver-perform :
      (sinks : List (AlertSink S J)) (is : List (Insight J)) (log : AlertLog) (s : S)
      → deliver now sinks is (log, s) ≡ logged log (perform now (calls_of sinks is) s)
  unfolding deliver record_all
  deliver-perform sinks [] log s = refl
  deliver-perform sinks (i ∷ is) log s =
      let (log', s') = fan_out now i sinks (log, s) in
      deliver-perform sinks is log' s' ∙ fan_out-perform now i sinks (calls_of sinks is) log s

  -- From a valid window with room for the whole batch, `evaluate` makes exactly the calls that the
  -- news of the batch need: every finding below the threshold is left out, every id that was pushed
  -- before or comes earlier in the batch is left out, and each other finding goes to every sink once,
  -- in order, whatever the sinks return. The world is the one that these calls leave, and behind what
  -- the log has kept, as far as its cap allows, come the entries of these calls, one for each, with
  -- the finding, the sink, how the call ended and when.
  pub evaluate-news :
      (is : List (Insight J)) (d : AlertDispatcher S J) (s : S) (earlier : List AlertLogEntry)
      → IsValid d.dispatched
      → length d.dispatched.order + length is ≤ max_dispatched_ids
      → Keeps d.log earlier
      → let (entries, s') =
          perform now (calls_of d.sinks (news d.min_severity d.dispatched.order is)) s in
        ((evaluate now is (d, s)).1 ≡ s')
        × Keeps (evaluate now is (d, s)).0.log (earlier ++ entries)
  evaluate-news is d s earlier v room kept =
      let calls = calls_of d.sinks (news d.min_severity d.dispatched.order is) in
      let made =
        evaluate-deliver is d s v room
        ∙ deliver-perform d.sinks (news d.min_severity d.dispatched.order is) d.log s in
      (
        ap (λ (o : AlertLog × S). o.1) made,
        subst (λ (l : AlertLog). Keeps l (earlier ++ (perform now calls s).0))
            (sym (ap (λ (o : AlertLog × S). o.0) made))
            (record_all-Keeps (perform now calls s).0 d.log earlier kept),
      )
