-- ===== src/Investigations/Examples.antt =====
-- Witnesses and tests of the investigations. Answers and trace steps are numbers, and the digest of
-- a seed and a time is the time.
use hkgov_rethink.Prelude.{
  ℕ, ◌≡◌, refl, List, [], ◌∷◌, none, some, Text, text, text_key, get, decimal,
}
use hkgov_rethink.Common.Sources.{hkp}
use hkgov_rethink.Investigations.Store.{Investigation, InvestigationStore, empty}
use hkgov_rethink.Investigations.Requests.{
  Request, CreateInvestigationRequest, AppendStepRequest, creates, reads, deletes, appends, notes,
  serve, serve_all,
}
use hkgov_rethink.Investigations.Invariant.{IsValid, serve_all-IsValid, empty-IsValid}
use hkgov_rethink.Investigations.Isolation.{serve_all-other}
use hkgov_rethink.Investigations.Secrecy.{serve_hides, without}

abbrev digest : Text → ℕ → Text
digest seed now = decimal now

abbrev opening : CreateInvestigationRequest
opening = record {
  seed_insight_id = text "i1";
  seed_source = text "hkp";
  seed_dataset = text "transactions";
  seed_title = text "Prices";
  title = none;
}

abbrev asking : AppendStepRequest ℕ ℕ
asking = record {
  kind = text "qa";
  prompt = text "why";
  answer = some 1;
  trace = [];
  annotation = none;
}

abbrev case_of_ann : Investigation ℕ ℕ
case_of_ann = record {
  id = text "inv:i1:5";
  seed_insight_id = text "i1";
  seed_source = hkp;
  seed_dataset = text "transactions";
  seed_title = text "Prices";
  title = text "Prices";
  owner = text "u:ann";
  steps = [];
  notes = [];
  created_at = 5;
  updated_at = 5;
}

abbrev ann_store : InvestigationStore ℕ ℕ
ann_store = record { inner = (text "inv:i1:5", case_of_ann) ∷ [] }

abbrev session : List (Text × ℕ × Request ℕ ℕ)
session =
    (text "u:ann", 5, creates opening)
    ∷ (text "u:ann", 6, appends (text "inv:i1:5") asking)
    ∷ (text "u:ann", 7, appends (text "inv:i1:5") asking)
    ∷ (text "u:ann", 8, notes (text "inv:i1:5") (text "done"))
    ∷ []

serve_all-IsValid_example : IsValid (serve_all digest session empty)
serve_all-IsValid_example = serve_all-IsValid digest session empty empty-IsValid

abbrev intrusion : List (Text × ℕ × Request ℕ ℕ)
intrusion =
    (text "u:bob", 6, deletes (text "inv:i1:5"))
    ∷ (text "u:bob", 7, appends (text "inv:i1:5") asking)
    ∷ []

serve_all-other_example :
    get (text "inv:i1:5") (serve_all digest intrusion ann_store).inner ≡ some case_of_ann
unfolding get
serve_all-other_example =
    serve_all-other digest (text "inv:i1:5") case_of_ann intrusion ann_store refl (refl, (refl, tt))

serve_hides_example :
    (serve digest (text "u:bob") 6 (reads (text "inv:i1:5")) ann_store).1
    ≡ (serve digest
        (text "u:bob")
        6
        (reads (text "inv:i1:5"))
        (without (text "inv:i1:5") ann_store)).1
unfolding get
serve_hides_example =
    serve_hides digest (text "u:bob") 6 (reads (text "inv:i1:5")) ann_store (text "inv:i1:5")
      case_of_ann (tt, tt) refl refl
