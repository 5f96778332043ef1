-- ===== src/Persist/Atomic.antt =====
-- What a restart finds after `snapshot_to_file` (crates/agent/src/persist.rs), however it ended.
use hkgov_rethink.Prelude.{
  ℕ, ◌≡◌, ◌≢◌, refl, ap, some, Text, text, Result, ok, err, Result-cases, length, length-append,
  arith, inl, inr,
}
use hkgov_rethink.Persist.Files.{
  PathBuf, FileSystem, Serde, unwrap_or_default, tmp_path, rename_tmp, write_tmp, snapshot_to_file,
  restored, decoded, restore_from_file,
}

-- What the code relies on: a write touches its own file only, and a rename replaces the target by
-- the source, or fails and leaves the target as it was.
pub record Posix {F : Type 0} (fs : FileSystem F) : Type 0 where
  pub write_other :
      (p q : PathBuf) (json : Text) (f : F) → p ≢ q → fs.read q (fs.write p json f).1 ≡ fs.read q f
  pub write_self :
      (p : PathBuf) (json : Text) (f : F)
      → (fs.write p json f).0 ≡ ok tt
      → fs.read p (fs.write p json f).1 ≡ ok json
  pub rename_ok :
      (p q : PathBuf) (f : F)
      → (fs.rename p q f).0 ≡ ok tt
      → fs.read q (fs.rename p q f).1 ≡ fs.read p f
  pub rename_err :
      (p q : PathBuf) (f : F) (e : Text)
      → (fs.rename p q f).0 ≡ err e
      → fs.read q (fs.rename p q f).1 ≡ fs.read q f

-- serde reads what it wrote.
module _ {T : Type 0} where
  abbrev pub ReadsBack : Serde T → Type 0
  ReadsBack serde =
      (t : T) (json : Text) → serde.to_string_pretty t ≡ ok json → serde.from_slice json ≡ ok t

abbrev name_size : PathBuf → ℕ
name_size p = length (unwrap_or_default p.file_name)

tmp_path_differs : (p : PathBuf) → tmp_path p ≢ p
unfolding tmp_path unwrap_or_default
tmp_path_differs p h =
    let e = ap name_size h in
    let l = length-append (unwrap_or_default p.file_name) (text ".tmp") in omega arith

module _ {F T : Type 0} (fs : FileSystem F) (serde : Serde T) (posix : Posix fs) where
  -- Saved whole, or as before.
  abbrev pub IsAtomic : PathBuf → T → F → Result (Unit {0}) Text × F → Type 0
  IsAtomic path contents f (ok u, f') = restore_from_file fs serde path f' ≡ some contents
  IsAtomic path contents f (err e, f') =
      restore_from_file fs serde path f' ≡ restore_from_file fs serde path f

  -- A crash after the write and before the rename.
  pub restore_from_file-write :
      (path : PathBuf) (json : Text) (f : F)
      → restore_from_file fs serde path (fs.write (tmp_path path) json f).1
        ≡ restore_from_file fs serde path f
  unfolding restore_from_file
  restore_from_file-write path json f =
      ap (restored fs serde) (posix.write_other (tmp_path path) path json f (tmp_path_differs path))

  rename_tmp-IsAtomic :
      (path : PathBuf) (contents : T) (json : Text) (f f0 : F)
      → serde.from_slice json ≡ ok contents
      → fs.read (tmp_path path) f ≡ ok json
      → restore_from_file fs serde path f ≡ restore_from_file fs serde path f0
      → IsAtomic path contents f0 (rename_tmp fs path f)
  unfolding rename_tmp restore_from_file restored decoded
  rename_tmp-IsAtomic path contents json f f0 d r h =
      elim (Result-cases (fs.rename (tmp_path path) path f).0) [
        | inl (u, e) ↦
            rw (IsAtomic, rename_tmp, e, posix.rename_ok (tmp_path path) path f e, r, d) refl
        | inr (x, e) ↦ rw (IsAtomic, rename_tmp, e, posix.rename_err (tmp_path path) path f x e) h
      ]

  write_tmp-IsAtomic :
      (path : PathBuf) (contents : T) (json : Text) (f : F)
      → serde.from_slice json ≡ ok contents
      → IsAtomic path contents f (write_tmp fs path json f)
  unfolding write_tmp
  write_tmp-IsAtomic path contents json f d =
      elim (Result-cases (fs.write (tmp_path path) json f).0) [
        | inl (u, e) ↦
            rw (IsAtomic, write_tmp, e)
              (rename_tmp-IsAtomic path contents json (fs.write (tmp_path path) json f).1 f d
                (posix.write_self (tmp_path path) json f e) (restore_from_file-write path json f))
        | inr (x, e) ↦ rw (IsAtomic, write_tmp, e) (restore_from_file-write path json f)
      ]

  -- A snapshot that is reported as saved is what the next start restores. One that fails, in
  -- serde_json, in the write of the temporary file or in the rename, leaves the next start to
  -- restore what it would have restored before, and so does a crash between the write and the
  -- rename. The path may be any, the temporary file is never the target itself.
  pub snapshot_to_file-IsAtomic :
      (path : PathBuf) (contents : T) (f : F)
      → ReadsBack serde
      → IsAtomic path contents f (snapshot_to_file fs serde path contents f)
        × ((json : Text)
            → restore_from_file fs serde path (fs.write (tmp_path path) json f).1
              ≡ restore_from_file fs serde path f)
  unfolding snapshot_to_file
  snapshot_to_file-IsAtomic path contents f back = (
    elim (Result-cases (serde.to_string_pretty contents)) [
      | inl (json, e) ↦
          rw (IsAtomic, snapshot_to_file, e)
            (write_tmp-IsAtomic path contents json f (back contents json e))
      | inr (x, e) ↦ rw (IsAtomic, snapshot_to_file, e) refl
    ],
    λ json. restore_from_file-write path json f,
  )
