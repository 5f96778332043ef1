-- ===== src/Alerts/Bounds.antt =====
-- The invariant of `DispatchedWindow` (crates/agent/src/alerts.rs), and that marking keeps it.
use hkgov_rethink.Prelude.{
  ◌≡◌, ◌≤◌, ◌<◌, ◌⊎◌, inl, inr, refl, ap, Bool, true, false, List, [], ◌∷◌, ◌++◌, Text, text_key,
  some, Map, get, insert, remove, length, length-append, any, any-append, same, same_iff, same_refl,
  get-insert, get-remove, length-insert_new, length-remove, insert-IsSorted, remove-IsSorted,
  IsSorted, leb, leb→le, leb→lt, Bool-cases, Option-cases, arith, if◌then◌else◌,
}
use hkgov_rethink.Alerts.Window.{
  DispatchedWindow, max_dispatched_ids, new, has, evict_oldest, make_room, mark,
}

abbrev pub Distinct : List Text → Type 0
Distinct [] = Unit {0}
Distinct (x ∷ xs) = (any (same x) xs ≡ false) × Distinct xs

-- The set and the deque hold the same ids, each once, and at most 4096 of them.
pub record IsValid (w : DispatchedWindow) : Type 0 where
  pub sorted : IsSorted w.ids
  pub size : length w.ids ≡ length w.order
  pub bounded : length w.order ≤ max_dispatched_ids
  pub agree : (x : Text) → has x w.ids ≡ any (same x) w.order
  pub distinct : Distinct w.order

pub new-IsValid : IsValid new
unfolding new get
new-IsValid = record {
  sorted = tt;
  size = refl;
  bounded = omega arith;
  agree = λ x. refl;
  distinct = tt;
}

Distinct-snoc :
    (xs : List Text) (x : Text) → Distinct xs → any (same x) xs ≡ false → Distinct (xs ++ x ∷ [])
Distinct-snoc [] x d h = (refl, tt)
Distinct-snoc (y ∷ xs) x d h =
    ground
      (arith, Distinct-snoc xs x d.1, any-append (same y) xs (x ∷ []), same_iff x y, same_iff y x)

present : (x : Text) (m : Map Text (Unit {0})) → has x m ≡ true → get x m ≡ some tt
present x m h = elim (Option-cases (get x m)) [ inl absent ↦ ground arith | inr (u, e) ↦ e ]

has-insert :
    (x q : Text) (m : Map Text (Unit {0}))
    → has x (insert q tt m) ≡ (if same x q then true else has x m)
has-insert x q m = ground (arith, get-insert q x tt m)

has-remove :
    (x q : Text) (m : Map Text (Unit {0}))
    → has x (remove q m) ≡ (if same x q then false else has x m)
has-remove x q m = ground (arith, get-remove q x m)

-- A window with room: the id goes to the end of both.
push-IsValid :
    (w : DispatchedWindow) (q : Text)
    → IsValid w
    → has q w.ids ≡ false
    → length w.order < max_dispatched_ids
    → IsValid (record { ids = insert q tt w.ids; order = w.order ++ q ∷ [] })
push-IsValid w q v absent room = record {
  sorted = insert-IsSorted q tt w.ids v.sorted;
  size =
      omega (
        arith,
        length-append w.order (q ∷ []),
        length-insert_new q tt w.ids (ground arith),
        v.size,
      );
  bounded = omega (arith, length-append w.order (q ∷ []));
  agree =
      λ x. ground (arith, has-insert x q w.ids, any-append (same x) w.order (q ∷ []), v.agree x);
  distinct = Distinct-snoc w.order q v.distinct (ground (arith, v.agree q));
}

-- Room is made by giving up the oldest id, and only in a full window.
evict-IsValid :
    (ids : Map Text (Unit {0})) (oldest : Text) (rest : List Text)
    → IsValid (record { ids = ids; order = oldest ∷ rest })
    → IsValid (record { ids = remove oldest ids; order = rest })
evict-IsValid ids oldest rest v =
    let here : has oldest ids ≡ true = ground (arith, v.agree oldest, same_refl oldest) in
    let found : get oldest ids ≡ some tt = present oldest ids here in
    record {
      sorted = remove-IsSorted oldest ids v.sorted;
      size = omega (arith, length-remove oldest ids v.sorted found, v.size);
      bounded = omega (arith, v.bounded);
      agree = λ x. ground (
        arith,
        has-remove x oldest ids,
        v.agree x,
        v.distinct.0,
        (same_iff x oldest).0,
        ap (λ y. any (same y) rest) {x = x} {y = oldest},
      );
      distinct = v.distinct.1;
    }

-- A full window has an oldest id, which goes.
abbrev pub MakesRoom : DispatchedWindow → Type 0
MakesRoom w =
    (oldest : Text) × (rest : List Text) × (w.order ≡ oldest ∷ rest)
    × (length w.order ≡ max_dispatched_ids)
    × (make_room w ≡ record { ids = remove oldest w.ids; order = rest })

make_room_full :
    (w : DispatchedWindow) (order : List Text)
    → w.order ≡ order
    → IsValid w
    → leb max_dispatched_ids (length w.ids) ≡ true
    → MakesRoom w
unfolding make_room evict_oldest
make_room_full w [] e v full = absurd (omega (arith, leb→le _ _ full, v.size, ap length e))
make_room_full w (oldest ∷ rest) e v full = (
  oldest,
  rest,
  e,
  omega (arith, leb→le _ _ full, v.size, v.bounded),
  rw full (ap (evict_oldest w) e),
)

-- A window is full, with an oldest id, or has room.
pub make_room_cases :
    (w : DispatchedWindow)
    → IsValid w
    → ((make_room w ≡ w) × (length w.order < max_dispatched_ids)) ⊎ MakesRoom w
unfolding make_room
make_room_cases w v = elim (Bool-cases (leb max_dispatched_ids (length w.ids))) [
  | inl full ↦ inr (make_room_full w w.order refl v full)
  | inr room ↦ inl (rw room, omega (arith, leb→lt _ _ room, v.size))
]

make_room-IsValid :
    (w : DispatchedWindow)
    → IsValid w
    → IsValid (make_room w) × (length (make_room w).order < max_dispatched_ids)
make_room-IsValid w v = elim (make_room_cases w v) [
  | inl (same_window, room) ↦ rw same_window (v, room)
  | inr (oldest, rest, e, full, made) ↦
      rw made (evict-IsValid w.ids oldest rest (rw e at v), omega (arith, ap length e))
]

make_room_absent :
    (w : DispatchedWindow) (q : Text)
    → IsValid w
    → has q w.ids ≡ false
    → has q (make_room w).ids ≡ false
make_room_absent w q v absent = elim (make_room_cases w v) [
  | inl (same_window, room) ↦ rw same_window absent
  | inr (oldest, rest, e, full, made) ↦ rw made (ground (arith, has-remove q oldest w.ids))
]

-- The window after marking an id that is not in it.
abbrev pub marked : Text → DispatchedWindow → DispatchedWindow
marked q w = record { ids = insert q tt (make_room w).ids; order = (make_room w).order ++ q ∷ [] }

pub mark_cases {ℓ} :
    (P : DispatchedWindow × Bool → Type ℓ) (q : Text) (w : DispatchedWindow)
    → (has q w.ids ≡ true → P (w, true))
    → (has q w.ids ≡ false → P (marked q w, false))
    → P (mark q w)
unfolding mark
mark_cases P q w known new_one = elim (Bool-cases (has q w.ids)) [
  | inl e ↦ rw e (known e)
  | inr e ↦ rw e (new_one e)
]

-- Marking keeps the set and the deque in step, without repetition, and within the cap of 4096.
pub mark-IsValid : (q : Text) (w : DispatchedWindow) → IsValid w → IsValid (mark q w).0
mark-IsValid q w v =
    mark_cases (λ r. IsValid r.0) q w (λ known. v)
      (λ absent.
        let (valid, room) = make_room-IsValid w v in
        push-IsValid (make_room w) q valid (make_room_absent w q v absent) room)
