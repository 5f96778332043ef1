-- ===== src/Alerts/Recall.antt =====
-- What `DispatchedWindow` (crates/agent/src/alerts.rs) remembers, and for how long.
use hkgov_rethink.Prelude.{
  ℕ, ◌+◌, ◌≡◌, ◌≤◌, ◌<◌, inl, inr, refl, sym, ap, ◌∙◌, true, false, List, [], ◌∷◌, ◌++◌,
  append_assoc, Text, text_key, Map, insert, remove, length, length-append, any, any-append, same,
  same_refl, arith,
}
use hkgov_rethink.Alerts.Window.{DispatchedWindow, max_dispatched_ids, has, make_room, mark}
use hkgov_rethink.Alerts.Bounds.{IsValid, make_room_cases, marked, mark_cases, mark-IsValid}

-- The id is in the deque, with at most `n` ids behind it.
abbrev pub Remembers : Text → ℕ → DispatchedWindow → Type 0
Remembers q n w =
    (before : List Text) × (behind : List Text) × (w.order ≡ before ++ q ∷ behind)
    × (length behind ≤ n)

Remembers-has :
    (q : Text) (n : ℕ) (w : DispatchedWindow) → IsValid w → Remembers q n w → has q w.ids ≡ true
Remembers-has q n w v (before, behind, e, few) =
    v.agree q
    ∙ ap (any (same q)) e
    ∙ any-append (same q) before (q ∷ behind)
    ∙ ground (arith, same_refl q)

after_eviction :
    (x q : Text) (n : ℕ) (oldest : Text) (rest : List Text) (ids : Map Text (Unit {0}))
    (before behind : List Text)
    → length behind ≤ n
    → before ++ q ∷ behind ≡ oldest ∷ rest
    → n + 1 < length (before ++ q ∷ behind)
    → Remembers q (n + 1) (record { ids = insert x tt (remove oldest ids); order = rest ++ x ∷ [] })
after_eviction x q n oldest rest ids [] behind short e large = absurd (omega arith)
after_eviction x q n oldest rest ids (b ∷ before) behind short e large =
    let tails : before ++ q ∷ behind ≡ rest = cc in
    (
      before,
      behind ++ x ∷ [],
      rw (← tails) (append_assoc before (q ∷ behind) (x ∷ [])),
      omega (arith, length-append behind (x ∷ [])),
    )

-- Another mark puts at most one id behind it, and cannot push it out while fewer than 4095 are.
mark_behind :
    (x q : Text) (n : ℕ) (w : DispatchedWindow) (before behind : List Text)
    → IsValid w
    → n + 1 < max_dispatched_ids
    → w.order ≡ before ++ q ∷ behind
    → length behind ≤ n
    → Remembers q (n + 1) (marked x w)
mark_behind x q n w before behind v few e short = elim (make_room_cases w v) [
  | inl (same_window, room) ↦ rw same_window (
    before,
    behind ++ x ∷ [],
    rw e (append_assoc before (q ∷ behind) (x ∷ [])),
    omega (arith, length-append behind (x ∷ [])),
  )
  | inr (oldest, rest, split, full, made) ↦ rw made (
      after_eviction x q n oldest rest w.ids before behind short (sym e ∙ split)
        (omega (arith, ap length e, few)))
]

unfoldable pub mark_all : List Text → DispatchedWindow → DispatchedWindow
mark_all [] w = w
mark_all (x ∷ xs) w = mark_all xs (mark x w).0

mark-Remembers :
    (x q : Text) (n : ℕ) (w : DispatchedWindow)
    → IsValid w
    → n + 1 < max_dispatched_ids
    → Remembers q n w
    → Remembers q (n + 1) (mark x w).0
mark-Remembers x q n w v few (before, behind, e, short) =
    mark_cases (λ r. Remembers q (n + 1) r.0) x w (λ known. (before, behind, e, omega arith))
      (λ absent. mark_behind x q n w before behind v few e short)

mark_all-has :
    (xs : List Text) (q : Text) (n : ℕ) (w : DispatchedWindow)
    → IsValid w
    → n + length xs < max_dispatched_ids
    → Remembers q n w
    → has q (mark_all xs w).ids ≡ true
unfolding mark_all
mark_all-has [] q n w v few r = Remembers-has q n w v r
mark_all-has (x ∷ xs) q n w v few r =
    mark_all-has xs q (n + 1) (mark x w).0 (mark-IsValid x w v) (omega arith)
      (mark-Remembers x q n w v (omega arith) r)

-- From a valid window, an id that was marked anew is still known after any 4095 further marks, of any ids.
pub mark_all-recalls :
    (q : Text) (xs : List Text) (w : DispatchedWindow)
    → IsValid w
    → has q w.ids ≡ false
    → length xs < max_dispatched_ids
    → (mark q (mark_all xs (mark q w).0)).1 ≡ true
mark_all-recalls q xs w v absent few =
    let behind : Remembers q 0 (mark q w).0 =
      mark_cases (λ r. Remembers q 0 r.0) q w (λ known. absurd (cc))
        (λ fresh. ((make_room w).order, [], refl, omega arith)) in
    let known = mark_all-has xs q 0 (mark q w).0 (mark-IsValid q w v) (omega arith) behind in
    mark_cases (λ r. r.1 ≡ true) q (mark_all xs (mark q w).0) (λ h. refl) (λ h. cc)
