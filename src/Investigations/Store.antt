-- ===== src/Investigations/Store.antt =====
-- `InvestigationStore` of crates/agent/src/investigation.rs. `A` and `T` are the answers and the
-- trace steps, which the store only keeps. The readings of the clock are arguments.
use hkgov_rethink.Prelude.{
  ℕ, ◌+◌, Bool, true, false, ◌||◌, List, [], ◌∷◌, ◌++◌, reverse, Option, none, some, Text, text,
  text_key, Map, get, insert, remove, values, same, is_empty, length, take, select, decimal,
  insert_all, if◌then◌else◌,
}
use hkgov_rethink.Common.Sources.{DataSource}

pub data StepKind : Type 0 where
  chip qa finding_promotion : StepKind

pub record InvestigationStep (A T : Type 0) : Type 0 where
  pub id : Text
  pub kind : StepKind
  pub prompt : Text
  pub answer : Option A
  pub trace : List T
  pub executed_at : ℕ
  pub annotation : Option Text

pub record InvestigationNote : Type 0 where
  pub id : Text
  pub body : Text
  pub created_at : ℕ

pub record Investigation (A T : Type 0) : Type 0 where
  pub id : Text
  pub seed_insight_id : Text
  pub seed_source : DataSource
  pub seed_dataset : Text
  pub seed_title : Text
  pub title : Text
  pub owner : Text
  pub steps : List (InvestigationStep A T)
  pub notes : List InvestigationNote
  pub created_at : ℕ
  pub updated_at : ℕ

pub record InvestigationStore (A T : Type 0) : Type 0 where
  pub inner : Map Text (Investigation A T)

pub record InvestigationStoreSnapshot (A T : Type 0) : Type 0 where
  pub investigations : List (Investigation A T)

-- `investigation_id`, with the hash of the seed and the time in 16 hexadecimal digits.
unfoldable pub investigation_id : (Text → ℕ → Text) → Text → ℕ → Text
investigation_id digest seed created_at =
    text "inv:" ++ (seed ++ (text ":" ++ digest seed created_at))

module _ {A T : Type 0} where
  unfoldable pub empty : InvestigationStore A T
  empty = record { inner = [] }

  unfoldable pub create :
      InvestigationStore A T → Investigation A T → InvestigationStore A T × Investigation A T
  create s inv = (record { inner = insert inv.id inv s.inner }, inv)

  unfoldable pub find : InvestigationStore A T → Text → Option (Investigation A T)
  find s id = get id s.inner

  unfoldable pub list : InvestigationStore A T → Text → ℕ → List (Investigation A T)
  list s owner limit =
      take limit (reverse (select (λ i. is_empty owner || same i.owner owner) (values s.inner)))

  unfoldable pub list_owned : InvestigationStore A T → Text → ℕ → List (Investigation A T)
  list_owned s owner limit =
      if is_empty owner
      then []
      else take limit (reverse (select (λ i. same i.owner owner) (values s.inner)))

  -- `Option::filter` by the owner.
  abbrev pub owned_by : Text → Option (Investigation A T) → Option (Investigation A T)
  owned_by owner none = none
  owned_by owner (some i) = if same i.owner owner then some i else none

  unfoldable pub get_owned : InvestigationStore A T → Text → Text → Option (Investigation A T)
  get_owned s id owner = owned_by owner (get id s.inner)

  -- The removal, if there is something to remove.
  unfoldable pub take_out :
      InvestigationStore A T → Text → Option (Investigation A T) → InvestigationStore A T × Bool
  take_out s id none = (s, false)
  take_out s id (some i) = (record { inner = remove id s.inner }, true)

  unfoldable pub delete : InvestigationStore A T → Text → InvestigationStore A T × Bool
  unfolding take_out
  delete s id = take_out s id (get id s.inner)

  unfoldable pub delete_owned : InvestigationStore A T → Text → Text → InvestigationStore A T × Bool
  unfolding take_out
  delete_owned s id owner = take_out s id (owned_by owner (get id s.inner))

  unfoldable pub count : InvestigationStore A T → ℕ
  count s = length s.inner

  -- The investigation with one more step, executed at `t`, and updated at `u`.
  unfoldable pub with_step : ℕ → ℕ → InvestigationStep A T → Investigation A T → Investigation A T
  with_step t u step inv = record inv {
    steps =
        inv.steps
        ++ record step { id = text "s" ++ decimal (length inv.steps + 1); executed_at = t } ∷ [];
    updated_at = u;
  }

  unfoldable pub with_note : ℕ → ℕ → Text → Investigation A T → Investigation A T
  with_note t u body inv = record inv {
    notes =
        inv.notes
        ++ record { id = text "n" ++ decimal (length inv.notes + 1); body = body; created_at = t }
          ∷ [];
    updated_at = u;
  }

  -- A change of what `get_mut` returned, which is put back, and a copy of it.
  unfoldable pub change :
      InvestigationStore A T
      → Text
      → (Investigation A T → Investigation A T)
      → Option (Investigation A T)
      → InvestigationStore A T × Option (Investigation A T)
  change s id f none = (s, none)
  change s id f (some inv) = (record { inner = insert id (f inv) s.inner }, some (f inv))

  unfoldable pub append_step :
      InvestigationStore A T
      → ℕ
      → ℕ
      → Text
      → InvestigationStep A T
      → InvestigationStore A T × Option (Investigation A T)
  unfolding change
  append_step s t u id step = change s id (with_step t u step) (get id s.inner)

  unfoldable pub append_step_owned :
      InvestigationStore A T
      → ℕ
      → ℕ
      → Text
      → Text
      → InvestigationStep A T
      → InvestigationStore A T × Option (Investigation A T)
  unfolding change
  append_step_owned s t u id owner step =
      change s id (with_step t u step) (owned_by owner (get id s.inner))

  unfoldable pub add_note :
      InvestigationStore A T
      → ℕ
      → ℕ
      → Text
      → Text
      → InvestigationStore A T × Option (Investigation A T)
  unfolding change
  add_note s t u id body = change s id (with_note t u body) (get id s.inner)

  unfoldable pub add_note_owned :
      InvestigationStore A T
      → ℕ
      → ℕ
      → Text
      → Text
      → Text
      → InvestigationStore A T × Option (Investigation A T)
  unfolding change
  add_note_owned s t u id owner body =
      change s id (with_note t u body) (owned_by owner (get id s.inner))

  unfoldable pub snapshot : InvestigationStore A T → InvestigationStoreSnapshot A T
  snapshot s = record { investigations = values s.inner }

  unfoldable pub restore :
      InvestigationStore A T → InvestigationStoreSnapshot A T → InvestigationStore A T
  restore s snap = record { inner = insert_all (λ i. i.id) s.inner snap.investigations }
