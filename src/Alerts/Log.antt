-- ===== src/Alerts/Log.antt =====
-- `AlertLog` of crates/agent/src/alerts.rs: the latest dispatches, at most `cap` of them.
use hkgov_rethink.Prelude.{
  ℕ, ◌+◌, ◌-◌, ◌≡◌, ◌≤◌, refl, sym, ap, ◌∙◌, List, [], ◌∷◌, ◌++◌, Text, length, drop, length-append,
  length-drop, leb, if◌then◌else◌, arith, max, Bool-cases, inl, inr, leb→le, leb→lt, drop-drop,
  drop_nil, drop-append_le, append-nil, append_assoc,
}

pub record AlertLogEntry : Type 0 where
  pub insight_id : Text
  pub insight_kind : Text
  pub severity : Text
  pub sink : Text
  pub status : Text
  pub dispatched_at : ℕ

pub record AlertLog : Type 0 where
  pub entries : List AlertLogEntry
  pub cap : ℕ

unfoldable pub new : ℕ → AlertLog
new limit = record { entries = []; cap = max limit 1 }

-- `remove(0)` of a log that is full, and `push`.
unfoldable pub record_entry : AlertLog → AlertLogEntry → AlertLog
record_entry l e = record l {
  entries = (if leb l.cap (length l.entries) then drop 1 l.entries else l.entries) ++ e ∷ [];
}

-- `start = len.saturating_sub(limit)`, and the slice from there.
unfoldable pub recent : AlertLog → ℕ → List AlertLogEntry
recent l limit = drop (length l.entries - limit) l.entries

unfoldable pub count : AlertLog → ℕ
count l = length l.entries

unfoldable pub record_all : AlertLog → List AlertLogEntry → AlertLog
record_all l [] = l
record_all l (e ∷ es) = record_all (record_entry l e) es

-- The log holds the end of a list, as much of it as its cap allows.
abbrev pub Keeps : AlertLog → List AlertLogEntry → Type 0
Keeps l all = (1 ≤ l.cap) × (l.entries ≡ drop (length all - l.cap) all)

record_entry-Keeps :
    (l : AlertLog) (all : List AlertLogEntry) (e : AlertLogEntry)
    → Keeps l all
    → Keeps (record_entry l e) (all ++ e ∷ [])
unfolding record_entry
record_entry-Keeps l all e (positive, kept) =
    let size = ap length kept ∙ length-drop (length all - l.cap) all in
    let longer = length-append all (e ∷ []) in
    elim (Bool-cases (leb l.cap (length l.entries))) [
      | inl full ↦
          let cut : length (all ++ e ∷ []) - l.cap ≡ (length all - l.cap) + 1 =
            omega (arith, leb→le _ _ full) in
          (
            positive,
            rw (full, cut)
                (ap (λ (xs : List AlertLogEntry). drop 1 xs ++ e ∷ []) kept
                  ∙ ap (λ (xs : List AlertLogEntry). xs ++ e ∷ [])
                      (drop-drop 1 (length all - l.cap) all)
                  ∙ sym (
                      drop-append_le (length all - l.cap + 1) all (e ∷ [])
                        (omega (arith, leb→le _ _ full)))),
          )
      | inr room ↦
          let none_cut : length (all ++ e ∷ []) - l.cap ≡ 0 = omega (arith, leb→lt _ _ room) in
          let whole : length all - l.cap ≡ 0 = omega (arith, leb→lt _ _ room) in
          (
            positive,
            rw (room, none_cut)
                (ap (λ (xs : List AlertLogEntry). xs ++ e ∷ [])
                  (kept ∙ ap (λ (n : ℕ). drop n all) whole)),
          )
    ]

pub record_all-Keeps :
    (es : List AlertLogEntry) (l : AlertLog) (all : List AlertLogEntry)
    → Keeps l all
    → Keeps (record_all l es) (all ++ es)
unfolding record_all
record_all-Keeps [] l all k = rw (append-nil all) k
record_all-Keeps (e ∷ es) l all k =
    rw (← append_assoc all (e ∷ []) es)
      (record_all-Keeps es (record_entry l e) (all ++ e ∷ []) (record_entry-Keeps l all e k))

record_all-cap : (es : List AlertLogEntry) (l : AlertLog) → (record_all l es).cap ≡ l.cap
unfolding record_all record_entry
record_all-cap [] l = refl
record_all-cap (e ∷ es) l = record_all-cap es (record_entry l e)

-- Whatever is recorded in a new log, it holds exactly the latest entries, in order: all of them up
-- to its cap (at least 1), and the last `cap` beyond that.
pub record_all-new :
    (limit : ℕ) (es : List AlertLogEntry)
    → (record_all (new limit) es).entries ≡ drop (length es - max limit 1) es
unfolding new
record_all-new limit es =
    (record_all-Keeps es (new limit) [] (omega arith, sym (drop_nil (0 - max limit 1)))).1
    ∙ ap (λ (n : ℕ). drop (length es - n) es) (record_all-cap es (new limit))
