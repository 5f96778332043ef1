-- ===== src/Persist/Pending.antt =====
-- The whole life of a task of `DebouncedSnapshot` (crates/agent/src/persist.rs), among any changes of
-- the value and any calls of `schedule`.
use hkgov_rethink.Prelude.{zero, suc, ◌≡◌, refl, sym, ◌∙◌, true, false, List, [], ◌∷◌, ◌++◌, All}
use mathlib.Core.Path.{subst}
use hkgov_rethink.Persist.Files.{PathBuf, FileSystem, Serde, snapshot_to_file}
use hkgov_rethink.Persist.Atomic.{Posix, ReadsBack, IsAtomic, snapshot_to_file-IsAtomic}
use hkgov_rethink.Persist.Debounce.{
  Task, asleep, holding, saved, DebouncedSnapshot, Event, change, schedule_call, run, schedule,
  advance, act, next, run_all,
}

module _ {T : Type 0} where
  -- Anything but a step of the first task.
  abbrev pub IsQuiet : Event T → Type 0
  IsQuiet (run zero) = ⊥
  IsQuiet _ = Unit

  -- The value after some events.
  abbrev pub last_value : T → List (Event T) → T
  last_value t [] = t
  last_value t (change u ∷ es) = last_value u es
  last_value t (_ ∷ es) = last_value t es

  -- A call, the three steps of the task, and what happens around them.
  abbrev pub round_of : List (Event T) → List (Event T) → List (Event T) → List (Event T)
  round_of first second third =
      schedule_call ∷ (first ++ (run 0 ∷ (second ++ (run 0 ∷ (third ++ (run 0 ∷ []))))))

module _ {F T : Type 0} (fs : FileSystem F) (serde : Serde T) (path : PathBuf) where
  -- While a task is there, what is quiet changes the value only: a call of `schedule` does nothing.
  run_all-quiet :
      (es rest : List (Event T)) (t : T) (f : F) (task : Task T)
      → All IsQuiet es
      → run_all fs serde path
          (es ++ rest)
          (record { contents = t; armed = true; disk = f })
          (task ∷ [])
        ≡ run_all fs serde path rest
            (record { contents = last_value t es; armed = true; disk = f })
            (task ∷ [])
  unfolding run_all next schedule act
  run_all-quiet [] rest t f task q = refl
  run_all-quiet (change v ∷ es) rest t f task q = run_all-quiet es rest v f task q.1
  run_all-quiet (schedule_call ∷ es) rest t f task q = run_all-quiet es rest t f task q.1
  run_all-quiet (run zero ∷ es) rest t f task q = absurd q.0
  run_all-quiet (run (suc i) ∷ es) rest t f task q = run_all-quiet es rest t f task q.1

  module _ (posix : Posix fs) where
    -- After a round no task is left and the flag is down. The value is the latest, and what a restart
    -- restores is the value of the moment at which the task woke up, or what it would have restored
    -- before, as the write went.
    abbrev pub IsRound :
        List (Event T)
        → List (Event T)
        → List (Event T)
        → DebouncedSnapshot F T
        → DebouncedSnapshot F T × List (Task T)
        → Type 0
    IsRound first second third s (s', ts) =
        let woken = last_value s.contents first in
        (ts ≡ [])
        × ((s'.armed ≡ false)
            × ((s'.contents ≡ last_value (last_value woken second) third)
                × IsAtomic fs serde posix path woken s.disk
                    ((snapshot_to_file fs serde path woken s.disk).0, s'.disk)))

    -- A call of `schedule` with the flag down and no task pending spawns a task, which takes its
    -- three steps, and around each step the value changes and `schedule` is called in any way. If
    -- the write succeeds, a restart restores the value of the moment at which the task woke up:
    -- the changes before it are saved, and those behind it are not, whether or not `schedule` was
    -- called for them, and at the end the flag is down and no task is left that would save them.
    -- If the write fails, a restart restores what it would have restored before.
    pub run_all-schedule :
        (back : ReadsBack serde) (first second third : List (Event T)) (s : DebouncedSnapshot F T)
        → All IsQuiet first
        → All IsQuiet second
        → All IsQuiet third
        → s.armed ≡ false
        → IsRound first second third s (run_all fs serde path (round_of first second third) s [])
    unfolding run_all next schedule act advance
    run_all-schedule back first second third s q1 q2 q3 down =
        let v = last_value s.contents first in
        let w = last_value v second in
        let d = (snapshot_to_file fs serde path v s.disk).1 in
        let third_step = run 0 ∷ [] in
        let second_step = run 0 ∷ (third ++ third_step) in
        let first_step = run 0 ∷ (second ++ second_step) in
        let armed : run_all fs serde path (round_of first second third) s []
            ≡ run_all fs serde path (first ++ first_step) (record s { armed = true })
                (asleep ∷ []) =
          rw down refl in
        let ran =
          armed
          ∙ run_all-quiet first first_step s.contents s.disk asleep q1
          ∙ run_all-quiet second second_step v s.disk (holding v) q2
          ∙ run_all-quiet third third_step w d saved q3 in
        subst (IsRound first second third s) (sym ran)
          (refl, (refl, (refl, (snapshot_to_file-IsAtomic fs serde posix path v s.disk back).0)))
