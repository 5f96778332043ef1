-- ===== src/Alerts/Window.antt =====
-- `DispatchedWindow` of crates/agent/src/alerts.rs: the ids that were pushed lately. The deque is a
-- list with its front first.
use hkgov_rethink.Prelude.{
  ℕ, Bool, true, false, List, [], ◌∷◌, ◌++◌, Text, text_key, none, some, Map, get, insert, remove,
  length, leb, if◌then◌else◌,
}

abbrev pub max_dispatched_ids : ℕ
max_dispatched_ids = 4096

pub record DispatchedWindow : Type 0 where
  pub ids : Map Text (Unit {0})
  pub order : List Text

unfoldable pub new : DispatchedWindow
new = record { ids = []; order = [] }

-- `HashSet::contains`
abbrev pub has : Text → Map Text (Unit {0}) → Bool
has id m = elim (get id m) [ none ↦ false | some u ↦ true ]

-- `pop_front`, and the removal of what it returns.
unfoldable pub evict_oldest : DispatchedWindow → List Text → DispatchedWindow
evict_oldest w [] = w
evict_oldest w (oldest ∷ rest) = record { ids = remove oldest w.ids; order = rest }

unfoldable pub make_room : DispatchedWindow → DispatchedWindow
unfolding evict_oldest
make_room w = if leb max_dispatched_ids (length w.ids) then evict_oldest w w.order else w

unfoldable pub mark : Text → DispatchedWindow → DispatchedWindow × Bool
unfolding make_room
mark id w =
    if has id w.ids
    then (w, true)
    else let room = make_room w in
      (record { ids = insert id tt room.ids; order = room.order ++ id ∷ [] }, false)
