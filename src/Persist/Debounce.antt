-- ===== src/Persist/Debounce.antt =====
-- `DebouncedSnapshot` of crates/agent/src/persist.rs: the callers of `schedule`, the writers of the
-- shared value, and the spawned tasks, in any order.
use hkgov_rethink.Prelude.{ℕ, zero, suc, Bool, true, false, List, [], ◌∷◌, ◌++◌, if◌then◌else◌}
use hkgov_rethink.Persist.Files.{PathBuf, FileSystem, Serde, snapshot_to_file}

-- A spawned task sleeps, then holds the clone that it saves, then clears the flag.
pub data Task (T : Type 0) : Type 0 where
  asleep : Task T
  holding : T → Task T
  saved : Task T

-- The value under the lock, the flag, and the disk.
pub record DebouncedSnapshot (F T : Type 0) : Type 0 where
  pub contents : T
  pub armed : Bool
  pub disk : F

pub data Event (T : Type 0) : Type 0 where
  change : T → Event T
  schedule_call : Event T
  run : ℕ → Event T

module _ {F T : Type 0} where
  -- The value as given, the flag down.
  unfoldable pub new : T → F → DebouncedSnapshot F T
  new t f = record { contents = t; armed = false; disk = f }

  -- The `compare_exchange`, with the task that is spawned where it succeeds.
  unfoldable pub schedule :
      DebouncedSnapshot F T → List (Task T) → DebouncedSnapshot F T × List (Task T)
  schedule s ts = if s.armed then (s, ts) else (record s { armed = true }, ts ++ asleep ∷ [])

module _ {F T : Type 0} (fs : FileSystem F) (serde : Serde T) (path : PathBuf) where
  -- The next step of a task, and what is left of it.
  unfoldable pub advance : DebouncedSnapshot F T → Task T → DebouncedSnapshot F T × List (Task T)
  advance s asleep = (s, holding s.contents ∷ [])
  advance s (holding t) =
      (record s { disk = (snapshot_to_file fs serde path t s.disk).1 }, saved ∷ [])
  advance s saved = (record s { armed = false }, [])

  -- The task at a position takes its step; a position past the last one does nothing.
  unfoldable pub act :
      ℕ → DebouncedSnapshot F T → List (Task T) → DebouncedSnapshot F T × List (Task T)
  unfolding advance
  act i s [] = (s, [])
  act zero s (t ∷ ts) = let (s', left) = advance s t in (s', left ++ ts)
  act (suc i) s (t ∷ ts) = let (s', ts') = act i s ts in (s', t ∷ ts')

  unfoldable pub next :
      Event T → DebouncedSnapshot F T → List (Task T) → DebouncedSnapshot F T × List (Task T)
  unfolding schedule act
  next (change t) s ts = (record s { contents = t }, ts)
  next schedule_call s ts = schedule s ts
  next (run i) s ts = act i s ts

  unfoldable pub run_all :
      List (Event T) → DebouncedSnapshot F T → List (Task T) → DebouncedSnapshot F T × List (Task T)
  unfolding next
  run_all [] s ts = (s, ts)
  run_all (e ∷ es) s ts = let (s', ts') = next e s ts in run_all es s' ts'
