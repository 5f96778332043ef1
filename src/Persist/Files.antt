-- ===== src/Persist/Files.antt =====
-- `snapshot_to_file` and `restore_from_file` of crates/agent/src/persist.rs, over an interface of the
-- file system and of serde_json. An `anyhow` error is its text.
use hkgov_rethink.Prelude.{[], Option, none, some, ◌++◌, Text, text, Result, ok, err}

pub record PathBuf : Type 0 where
  pub parent : Text
  -- None for a path that ends in `..`
  pub file_name : Option Text

pub data ErrorKind : Type 0 where
  not_found other : ErrorKind

pub record FileSystem (F : Type 0) : Type 0 where
  pub write : PathBuf → Text → F → Result (Unit {0}) Text × F
  pub rename : PathBuf → PathBuf → F → Result (Unit {0}) Text × F
  pub read : PathBuf → F → Result Text ErrorKind
  -- The format `{:?}` of a path
  pub debug : PathBuf → Text

pub record Serde (T : Type 0) : Type 0 where
  pub to_string_pretty : T → Result Text Text
  pub from_slice : Text → Result T Text

unfoldable pub unwrap_or_default : Option Text → Text
unwrap_or_default none = []
unwrap_or_default (some s) = s

-- `set_file_name` replaces the name, and appends one where there is none.
unfoldable pub tmp_path : PathBuf → PathBuf
unfolding unwrap_or_default
tmp_path p = record p { file_name = some (unwrap_or_default p.file_name ++ text ".tmp") }

module _ {F : Type 0} (fs : FileSystem F) where
  unfoldable pub rename_tmp : PathBuf → F → Result (Unit {0}) Text × F
  rename_tmp path f =
      let (r, f') = fs.rename (tmp_path path) path f in
      elim r [
        | ok u ↦ (ok u, f')
        | err e ↦ (
          err (
              text "rename snapshot "
              ++ (fs.debug (tmp_path path)
                  ++ (text " -> " ++ (fs.debug path ++ (text ": " ++ e))))),
          f',
        )
      ]

  unfoldable pub write_tmp : PathBuf → Text → F → Result (Unit {0}) Text × F
  unfolding rename_tmp
  write_tmp path json f =
      let (r, f') = fs.write (tmp_path path) json f in
      elim r [
        | ok u ↦ rename_tmp path f'
        | err e ↦
            (err (text "write snapshot tmp " ++ (fs.debug (tmp_path path) ++ (text ": " ++ e))), f')
      ]

module _ {F T : Type 0} (fs : FileSystem F) (serde : Serde T) where
  unfoldable pub snapshot_to_file : PathBuf → T → F → Result (Unit {0}) Text × F
  unfolding write_tmp
  snapshot_to_file path contents f = elim (serde.to_string_pretty contents) [
    | ok json ↦ write_tmp fs path json f
    | err e ↦ (err (text "serialize snapshot: " ++ e), f)
  ]

  unfoldable pub decoded : Result T Text → Option T
  decoded (ok v) = some v
  decoded (err e) = none

  unfoldable pub restored : Result Text ErrorKind → Option T
  unfolding decoded
  restored (ok bytes) = decoded (serde.from_slice bytes)
  restored (err not_found) = none
  restored (err other) = none

  unfoldable pub restore_from_file : PathBuf → F → Option T
  unfolding restored
  restore_from_file path f = restored (fs.read path f)
