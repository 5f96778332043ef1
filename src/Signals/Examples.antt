-- ===== src/Signals/Examples.antt =====
-- Witnesses and tests of the signals. The hash is the length of what is written.
use hkgov_rethink.Prelude.{
  ℕ, ◌≡◌, refl, true, false, List, [], ◌∷◌, none, some, Text, text, text_key, get, insert, length,
}
use hkgov_rethink.Common.Model.{daily}
use hkgov_rethink.Scheduler.Targets.{ScanTarget, period_over_period}
use hkgov_rethink.Signals.Store.{
  Signal, SignalPatch, SignalStore, rss, update_owned, patch_in, patched,
}
use hkgov_rethink.Signals.Id.{
  signal_id, signal_bytes, hashed_text, hashed_threshold, hashed_companion, le_bytes,
}
use hkgov_rethink.Signals.Requests.{Request, creates, deletes, updates, serve_all}
use hkgov_rethink.Signals.Isolation.{IsOwned, serve_all-foreign}

abbrev watch : ScanTarget
watch = record {
  source = text "hkma";
  dataset = text "rates";
  detector = text "outlier";
  field = some (text "hibor");
  threshold = none;
  field_b = none;
  companion = none;
  cadence = daily;
  comparison = period_over_period;
  companion_field = none;
  join_field = none;
  experimental = false;
  direction = none;
}

abbrev size : Text → ℕ
size = length

abbrev bobs_id : Text
bobs_id = signal_id size (text "bob") watch

abbrev bobs : Signal
bobs = record {
  id = bobs_id;
  owner = text "bob";
  question = text "rates?";
  compiled = watch;
  channels = rss ∷ [];
  enabled = true;
  created_at = 1;
  updated_at = none;
}

abbrev store : SignalStore
store = record { inner = (bobs_id, bobs) ∷ [] }

-- 103 bytes are hashed.
bobs_id_digits : bobs_id ≡ text "sig:bob:0000000000000067"
unfolding signal_id signal_bytes hashed_text hashed_threshold hashed_companion le_bytes
bobs_id_digits = refl

store-IsOwned : IsOwned size store
store-IsOwned = ((refl, (watch, refl)), tt)

store-bobs : get bobs_id store.inner ≡ some bobs
unfolding get signal_id signal_bytes hashed_text hashed_threshold hashed_companion le_bytes
store-bobs = refl

abbrev pause : SignalPatch
pause = record { question = none; compiled = none; channels = none; enabled = some false }

-- Alice deletes the signal of Bob, pauses it, and creates the same one for herself.
abbrev attack : List (Text × (ℕ × Request))
attack =
    (text "alice", (2, deletes bobs_id))
    ∷ (text "alice", (3, updates bobs_id pause))
    ∷ (text "alice", (4, creates record { question = none; compiled = watch; channels = [] }))
    ∷ []

serve_all-foreign_example : get bobs_id (serve_all size attack store).inner ≡ some bobs
serve_all-foreign_example =
    serve_all-foreign size bobs_id bobs attack store store-IsOwned store-bobs
      (refl, (refl, (refl, tt)))

-- The id stays when the compiled target changes: a creation of the first target then overwrites the
-- changed signal.
abbrev retarget : SignalPatch
retarget = record {
  question = none;
  compiled = some (record watch { dataset = text "liquidity" });
  channels = none;
  enabled = none;
}

retargeted :
    (update_owned store bobs_id (text "bob") retarget 9).0.inner
    ≡ (
      bobs_id,
      record bobs { compiled = record watch { dataset = text "liquidity" }; updated_at = some 9 },
    )
      ∷ []
unfolding update_owned patch_in patched get insert signal_id signal_bytes hashed_text
    hashed_threshold hashed_companion le_bytes
retargeted = refl
