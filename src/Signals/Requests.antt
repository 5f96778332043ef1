-- ===== src/Signals/Requests.antt =====
-- The handlers of crates/api/src/routes/signals.rs on the signals, for a caller whose principal the
-- session has given: what each does to the store, and what it replies.
use hkgov_rethink.Prelude.{
  ℕ, Bool, true, List, [], ◌∷◌, Option, none, some, Text, text, text_key, min, max,
}
use hkgov_rethink.Common.Errors.{Error, not_found}
use hkgov_rethink.Scheduler.Targets.{ScanTarget}
use hkgov_rethink.Signals.Store.{
  SignalChannel, Signal, SignalPatch, SignalStore, create, list_owned, get_owned, delete_owned,
  update_owned,
}
use hkgov_rethink.Signals.Id.{signal_id}

pub record CreateSignalRequest : Type 0 where
  pub question : Option Text
  pub compiled : ScanTarget
  pub channels : List SignalChannel

pub data Request : Type 0 where
  creates : CreateSignalRequest → Request
  lists : ℕ → Request
  reads : Text → Request
  deletes : Text → Request
  updates : Text → SignalPatch → Request

pub data Reply : Type 0 where
  one : Signal → Reply
  many : List Signal → Reply
  maybe : Option Signal → Reply
  deleted : Bool → Reply
  failed : Error → Reply

abbrev pub max_list_limit : ℕ
max_list_limit = 100

abbrev pub question_of : Option Text → Text
question_of none = []
question_of (some q) = q

abbrev pub found_or : SignalStore × Option Signal → SignalStore × Reply
found_or (s, none) = (s, failed (not_found (text "signal not found")))
found_or (s, some g) = (s, one g)

module _ (sip : Text → ℕ) where
  unfoldable pub new_signal : Text → ℕ → CreateSignalRequest → Signal
  new_signal caller now req = record {
    id = signal_id sip caller req.compiled;
    owner = caller;
    question = question_of req.question;
    compiled = req.compiled;
    channels = req.channels;
    enabled = true;
    created_at = now;
    updated_at = none;
  }

  unfoldable pub serve : Text → ℕ → Request → SignalStore → SignalStore × Reply
  unfolding new_signal
  serve caller now (creates req) s =
      let (s', g) = create s (new_signal caller now req) in (s', one g)
  serve caller now (lists limit) s =
      (s, many (list_owned s caller (min (max limit 1) max_list_limit)))
  serve caller now (reads id) s = (s, maybe (get_owned s id caller))
  serve caller now (deletes id) s = let (s', ok) = delete_owned s id caller in (s', deleted ok)
  serve caller now (updates id patch) s = found_or (update_owned s id caller patch now)

  -- The requests in their order, each with its caller and its time.
  unfoldable pub serve_all : List (Text × (ℕ × Request)) → SignalStore → SignalStore
  unfolding serve
  serve_all [] s = s
  serve_all ((caller, (now, r)) ∷ rs) s = serve_all rs (serve caller now r s).0
