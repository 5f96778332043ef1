-- ===== src/Investigations/Requests.antt =====
-- The handlers of crates/api/src/routes/investigations.rs, for a caller whose principal the
-- session has given: what each does to the store, and what it replies.
use hkgov_rethink.Prelude.{
  ℕ, Bool, List, [], ◌∷◌, Option, none, some, Text, text, text_key, ◌++◌, min, max, same, Result,
  ok, err, if◌then◌else◌,
}
use hkgov_rethink.Common.Errors.{Error, bad_request, not_found, unknown_source}
use hkgov_rethink.Common.Sources.{DataSource, parse}
use hkgov_rethink.Investigations.Store.{
  StepKind, chip, qa, finding_promotion, InvestigationStep, Investigation, InvestigationStore,
  investigation_id, create, list_owned, get_owned, delete_owned, append_step_owned, add_note_owned,
}

pub record CreateInvestigationRequest : Type 0 where
  pub seed_insight_id : Text
  pub seed_source : Text
  pub seed_dataset : Text
  pub seed_title : Text
  pub title : Option Text

pub record AppendStepRequest (A T : Type 0) : Type 0 where
  pub kind : Text
  pub prompt : Text
  pub answer : Option A
  pub trace : List T
  pub annotation : Option Text

pub data Request (A T : Type 0) : Type 0 where
  creates : CreateInvestigationRequest → Request A T
  lists : ℕ → Request A T
  reads : Text → Request A T
  deletes : Text → Request A T
  appends : Text → AppendStepRequest A T → Request A T
  notes : Text → Text → Request A T

pub data Reply (A T : Type 0) : Type 0 where
  one : Investigation A T → Reply A T
  many : List (Investigation A T) → Reply A T
  maybe : Option (Investigation A T) → Reply A T
  deleted : Bool → Reply A T
  failed : Error → Reply A T

abbrev pub max_list_limit : ℕ
max_list_limit = 100

unfoldable pub parse_kind : Text → Result StepKind Error
parse_kind s =
    if same s (text "chip")
    then ok chip
    else if same s (text "qa")
    then ok qa
    else if same s (text "finding_promotion")
    then ok finding_promotion
    else err
        (bad_request (text "unknown step kind: " ++ (s ++ text " (try chip|qa|finding_promotion)")))

unfoldable pub parse_source : Text → Result DataSource Error
parse_source s = elim (parse s) [ some d ↦ ok d | none ↦ err (unknown_source s) ]

abbrev pub title_of : CreateInvestigationRequest → Option Text → Text
title_of req none = req.seed_title
title_of req (some t) = t

module _ {A T : Type 0} where
  unfoldable pub new_case :
      (Text → ℕ → Text) → Text → ℕ → CreateInvestigationRequest → DataSource → Investigation A T
  new_case digest caller now req source = record {
    id = investigation_id digest req.seed_insight_id now;
    seed_insight_id = req.seed_insight_id;
    seed_source = source;
    seed_dataset = req.seed_dataset;
    seed_title = req.seed_title;
    title = title_of req req.title;
    owner = caller;
    steps = [];
    notes = [];
    created_at = now;
    updated_at = now;
  }

  unfoldable pub new_step : ℕ → StepKind → AppendStepRequest A T → InvestigationStep A T
  new_step now kind req = record {
    id = [];
    kind = kind;
    prompt = req.prompt;
    answer = req.answer;
    trace = req.trace;
    executed_at = now;
    annotation = req.annotation;
  }

  -- `Some` is the investigation, `None` a 404.
  unfoldable pub found_or :
      InvestigationStore A T × Option (Investigation A T) → InvestigationStore A T × Reply A T
  found_or (s, some inv) = (s, one inv)
  found_or (s, none) = (s, failed (not_found (text "investigation not found")))

  unfoldable pub append :
      Text
      → ℕ
      → Text
      → AppendStepRequest A T
      → InvestigationStore A T
      → Result StepKind Error
      → InvestigationStore A T × Reply A T
  unfolding found_or new_step
  append caller now id req s (err e) = (s, failed e)
  append caller now id req s (ok kind) =
      found_or (append_step_owned s now now id caller (new_step now kind req))

  unfoldable pub open_case :
      (Text → ℕ → Text)
      → Text
      → ℕ
      → CreateInvestigationRequest
      → InvestigationStore A T
      → Result DataSource Error
      → InvestigationStore A T × Reply A T
  unfolding new_case
  open_case digest caller now req s (err e) = (s, failed e)
  open_case digest caller now req s (ok source) =
      let (s', inv) = create s (new_case digest caller now req source) in (s', one inv)

  -- A request of the caller at a time; the readings of the clock during one request are one.
  unfoldable pub serve :
      (Text → ℕ → Text)
      → Text
      → ℕ
      → Request A T
      → InvestigationStore A T
      → InvestigationStore A T × Reply A T
  unfolding append found_or open_case
  serve digest caller now (creates req) s =
      open_case digest caller now req s (parse_source req.seed_source)
  serve digest caller now (lists limit) s =
      (s, many (list_owned s caller (min (max limit 1) max_list_limit)))
  serve digest caller now (reads id) s = (s, maybe (get_owned s id caller))
  serve digest caller now (deletes id) s =
      let (s', done) = delete_owned s id caller in (s', deleted done)
  serve digest caller now (appends id req) s = append caller now id req s (parse_kind req.kind)
  serve digest caller now (notes id body) s = found_or (add_note_owned s now now id caller body)

  -- Requests of any callers, one after the other.
  unfoldable pub serve_all :
      (Text → ℕ → Text)
      → List (Text × ℕ × Request A T)
      → InvestigationStore A T
      → InvestigationStore A T
  serve_all digest [] s = s
  serve_all digest ((caller, now, r) ∷ rs) s = serve_all digest rs (serve digest caller now r s).0
