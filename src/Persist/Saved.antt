-- ===== src/Persist/Saved.antt =====
-- What `DebouncedSnapshot` (crates/agent/src/persist.rs) keeps in every interleaving.
use hkgov_rethink.Prelude.{
  zero, suc, ◌≡◌, refl, true, false, List, [], ◌∷◌, Option, some, Text, sym, All, Result, ok, err,
}
use mathlib.Core.Path.{subst}
use hkgov_rethink.Persist.Files.{PathBuf, FileSystem, Serde, snapshot_to_file, restore_from_file}
use hkgov_rethink.Persist.Atomic.{Posix, ReadsBack, IsAtomic, snapshot_to_file-IsAtomic}
use hkgov_rethink.Persist.Debounce.{
  Task, asleep, holding, saved, DebouncedSnapshot, Event, change, schedule_call, run, schedule,
  advance, act, next, run_all,
}

module _ {F T : Type 0} (fs : FileSystem F) (serde : Serde T) (path : PathBuf) where
  -- At most one writer, and the flag says whether there is one.
  abbrev pub IsSingle : DebouncedSnapshot F T → List (Task T) → Type 0
  IsSingle s [] = s.armed ≡ false
  IsSingle s (t ∷ []) = s.armed ≡ true
  IsSingle s _ = ⊥

  module _ (posix : Posix fs) (back : ReadsBack serde) (P : Option T → Type 0) where
    abbrev pub HoldsGood : Task T → Type 0
    HoldsGood (holding t) = P (some t)
    HoldsGood _ = Unit

    abbrev pub IsGood : Event T → Type 0
    IsGood (change t) = P (some t)
    IsGood _ = Unit

    -- At most one writer, and only good values: at hand, in the clone, and on disk.
    abbrev pub IsKept : DebouncedSnapshot F T × List (Task T) → Type 0
    IsKept (s, ts) =
        IsSingle s ts
        × (P (some s.contents) × (All HoldsGood ts × P (restore_from_file fs serde path s.disk)))

    atomic-good :
        (t : T) (f : F) (r : Result (Unit {0}) Text × F)
        → P (some t)
        → P (restore_from_file fs serde path f)
        → IsAtomic fs serde posix path t f r
        → P (restore_from_file fs serde path r.1)
    atomic-good t f (ok u, f') g h a = subst P (sym a) g
    atomic-good t f (err e, f') g h a = subst P (sym a) h

    next-IsKept :
        (e : Event T) (s : DebouncedSnapshot F T) (ts : List (Task T))
        → IsGood e
        → IsKept (s, ts)
        → IsKept (next fs serde path e s ts)
    unfolding next schedule act advance
    next-IsKept (change t) s [] g k = (k.0, (g, k.1.1))
    next-IsKept (change t) s (a ∷ []) g k = (k.0, (g, k.1.1))
    next-IsKept schedule_call s [] g k = rw k.0 (refl, (k.1.0, ((tt, tt), k.1.1.1)))
    next-IsKept schedule_call s (t ∷ []) g k = rw k.0 (refl, k.1)
    next-IsKept (run i) s [] g k = k
    next-IsKept (run zero) s (asleep ∷ []) g k = (k.0, (k.1.0, ((k.1.0, tt), k.1.1.1)))
    next-IsKept (run zero) s (holding t ∷ []) g k = (
      k.0,
      (
        k.1.0,
        (
          (tt, tt),
          atomic-good t s.disk (snapshot_to_file fs serde path t s.disk) k.1.1.0.0 k.1.1.1
              (snapshot_to_file-IsAtomic fs serde posix path t s.disk back).0,
        ),
      ),
    )
    next-IsKept (run zero) s (saved ∷ []) g k = (refl, (k.1.0, (tt, k.1.1.1)))
    next-IsKept (run (suc i)) s (t ∷ []) g k = k
    next-IsKept e s (a ∷ b ∷ ts) g k = absurd k.0

    -- Whatever is interleaved, from a state in which the flag is up exactly when there is one task:
    -- there is never a second writer, and a restart at any moment restores a whole value, one that
    -- `P` holds of, if it holds of what was on disk, of the value at hand and in the clone, and of
    -- each value that is written under the lock.
    pub run_all-IsKept :
        (es : List (Event T)) (s : DebouncedSnapshot F T) (ts : List (Task T))
        → All IsGood es
        → IsKept (s, ts)
        → IsKept (run_all fs serde path es s ts)
    unfolding run_all
    run_all-IsKept [] s ts g k = k
    run_all-IsKept (e ∷ es) s ts g k =
        let (s', ts') = next fs serde path e s ts in
        run_all-IsKept es s' ts' g.1 (next-IsKept e s ts g.0 k)
