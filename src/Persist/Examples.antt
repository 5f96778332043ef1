-- ===== src/Persist/Examples.antt =====
-- Witnesses and tests of the snapshots: files in a map from paths, values that are texts, and JSON
-- that is a quotation mark and the text.
use hkgov_rethink.Prelude.{
  ◌≡◌, ◌≢◌, refl, sym, ap, ◌∙◌, false, Option, none, some, List, [], ◌∷◌, Text, text, Result, ok,
  err, Map, get, insert, remove, get-insert, get-insert_self, same, same_iff, Bool-cases, ◌⊎◌, inl,
  inr, pair_key, text_key, arith,
}
use hkgov_rethink.Persist.Files.{
  PathBuf, ErrorKind, not_found, FileSystem, Serde, tmp_path, snapshot_to_file, restore_from_file,
}
use hkgov_rethink.Persist.Atomic.{Posix, ReadsBack, IsAtomic, snapshot_to_file-IsAtomic}
use hkgov_rethink.Persist.Debounce.{Event, change, schedule_call, run, new, run_all}
use hkgov_rethink.Persist.Saved.{run_all-IsKept, IsKept}
use hkgov_rethink.Persist.Pending.{IsRound, round_of, run_all-schedule}

abbrev Files : Type 0
Files = Map (Text × Text) Text

abbrev encode : Option Text → Text
encode none = []
encode (some n) = 1 ∷ n

abbrev decode : Text → Option Text
decode [] = none
decode (b ∷ n) = some n

decode-encode : (o : Option Text) → decode (encode o) ≡ o
decode-encode none = refl
decode-encode (some n) = refl

abbrev code : PathBuf → Text × Text
code p = (p.parent, encode p.file_name)

abbrev path_of : Text × Text → PathBuf
path_of (d, n) = record { parent = d; file_name = decode n }

path_of-code : (p : PathBuf) → path_of (code p) ≡ p
path_of-code p = ap (λ o. record p { file_name = o }) (decode-encode p.file_name)

code_injective : (p q : PathBuf) → code p ≡ code q → p ≡ q
code_injective p q e = sym (path_of-code p) ∙ (ap path_of e ∙ path_of-code q)

abbrev found : Option Text → Result Text ErrorKind
found none = err not_found
found (some s) = ok s

abbrev moved : PathBuf → PathBuf → Files → Option Text → Result (Unit {0}) Text × Files
moved p q f none = (err (text "not found"), f)
moved p q f (some s) = (ok tt, insert (code q) s (remove (code p) f))

abbrev files : FileSystem Files
files = record {
  write = λ p s f. (ok tt, insert (code p) s f);
  rename = λ p q f. moved p q f (get (code p) f);
  read = λ p f. found (get (code p) f);
  debug = λ p. p.parent;
}

write_other :
    (p q : PathBuf) (s : Text) (f : Files)
    → p ≢ q
    → found (get (code q) (insert (code p) s f)) ≡ found (get (code q) f)
write_other p q s f h = elim (Bool-cases (same (code q) (code p))) [
  | inl e ↦ absurd (h (code_injective p q (sym ((same_iff (code q) (code p)).0 e))))
  | inr e ↦ rw (get-insert (code p) (code q) s f, e) refl
]

moved_ok :
    (p q : PathBuf) (f : Files) (o : Option Text)
    → (moved p q f o).0 ≡ ok tt
    → found (get (code q) (moved p q f o).1) ≡ found o
moved_ok p q f none h = ground (arith)
moved_ok p q f (some s) h = ap found (get-insert_self (code q) s (remove (code p) f))

moved_err :
    (p q : PathBuf) (f : Files) (e : Text) (o : Option Text)
    → (moved p q f o).0 ≡ err e
    → found (get (code q) (moved p q f o).1) ≡ found (get (code q) f)
moved_err p q f e none h = refl
moved_err p q f e (some s) h = ground (arith)

files-Posix : Posix files
files-Posix = record {
  write_other = write_other;
  write_self = λ p s f e. ap found (get-insert_self (code p) s f);
  rename_ok = λ p q f e. moved_ok p q f (get (code p) f) e;
  rename_err = λ p q f x e. moved_err p q f x (get (code p) f) e;
}

abbrev unquoted : Text → Result Text Text
unquoted [] = err (text "EOF")
unquoted (b ∷ t) = ok t

abbrev quotes : Serde Text
quotes = record { to_string_pretty = λ t. ok (34 ∷ t); from_slice = unquoted }

abbrev read_result : Result Text Text → Result Text Text
read_result (ok json) = unquoted json
read_result (err e) = err e

quotes-ReadsBack : ReadsBack quotes
quotes-ReadsBack t json e = sym (ap read_result e)

abbrev state_json : PathBuf
state_json = record { parent = text "/var"; file_name = some (text "state.json") }

-- The file of an earlier run.
abbrev disk : Files
disk = (code state_json, 34 ∷ text "old") ∷ []

saved_value :
    restore_from_file files quotes state_json
      (snapshot_to_file files quotes state_json (text "new") disk).1
    ≡ some (text "new")
unfolding restore_from_file snapshot_to_file tmp_path get insert remove
saved_value = refl

snapshot_to_file-IsAtomic_example :
    IsAtomic files quotes files-Posix state_json
      (text "new")
      disk
      (snapshot_to_file files quotes state_json (text "new") disk)
    × ((json : Text)
        → restore_from_file files quotes state_json (files.write (tmp_path state_json) json disk).1
          ≡ restore_from_file files quotes state_json disk)
snapshot_to_file-IsAtomic_example =
    snapshot_to_file-IsAtomic files quotes files-Posix state_json (text "new") disk quotes-ReadsBack

-- The value changes while the task sleeps, and twice more behind its clone, each time with a call.
abbrev first : List (Event Text)
first = change (text "new") ∷ schedule_call ∷ []

abbrev second : List (Event Text)
second = change (text "newer") ∷ schedule_call ∷ []

abbrev third : List (Event Text)
third = schedule_call ∷ []

run_all-schedule_example :
    IsRound files quotes state_json files-Posix first second third
      (record { contents = text "start"; armed = false; disk = disk })
      (run_all files quotes state_json
        (round_of first second third)
        (record { contents = text "start"; armed = false; disk = disk })
        [])
run_all-schedule_example =
    run_all-schedule files quotes state_json files-Posix quotes-ReadsBack first second third
      (record { contents = text "start"; armed = false; disk = disk }) (tt, (tt, tt)) (tt, (tt, tt))
      (tt, tt) refl

-- The texts that this run writes, and the one of the earlier run.
abbrev IsKnown : Option Text → Type 0
IsKnown o = (o ≡ some (text "old")) ⊎ ((o ≡ some (text "new")) ⊎ (o ≡ some (text "newer")))

abbrev busy : List (Event Text)
busy = schedule_call ∷ run 0 ∷ change (text "newer") ∷ schedule_call ∷ run 0 ∷ []

IsKnown-disk : IsKnown (restore_from_file files quotes state_json disk)
unfolding restore_from_file get
IsKnown-disk = inl refl

run_all-IsKept_example :
    IsKept files quotes state_json files-Posix quotes-ReadsBack IsKnown
      (run_all files quotes state_json busy (new (text "new") disk) [])
unfolding new
run_all-IsKept_example =
    run_all-IsKept files quotes state_json files-Posix quotes-ReadsBack IsKnown busy
      (new (text "new") disk) [] (tt, (tt, (inr (inr refl), (tt, (tt, tt)))))
      (refl, (inr (inl refl), (tt, IsKnown-disk)))
