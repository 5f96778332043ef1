-- ===== src/Common/Errors.antt =====
-- crates/common/src/error.rs, and the HTTP response that crates/api/src/error.rs makes of it.
-- The payload of `Decode` (a `serde_json::Error`) and of `Io` (a `std::io::Error`) is the text that
-- the library shows for it.
use hkgov_rethink.Prelude.{ℕ, Bool, ◌++◌, Text, text, decimal, leb, ltb, if◌then◌else◌, ◌&&◌}

pub data Error : Type 0 where
  upstream : Text → ℕ → Text → Error
  decode : Text → Text → Error
  unknown_source not_found bad_request unauthorized store store_unavailable agent : Text → Error
  config io internal : Text → Error

unfoldable pub status_code : Error → ℕ
status_code (unknown_source m) = 404
status_code (not_found m) = 404
status_code (bad_request m) = 400
status_code (unauthorized m) = 401
status_code (upstream o s d) = 502
status_code (store m) = 502
status_code (store_unavailable m) = 503
status_code (agent m) = 502
status_code (decode o b) = 502
status_code (config m) = 500
status_code (io m) = 500
status_code (internal m) = 500

-- `Display`, which `thiserror` derives from the `#[error]` attributes.
unfoldable pub display : Error → Text
display (upstream o s d) =
    text "upstream error for " ++ (o ++ (text ": " ++ (decimal s ++ (text ": " ++ d))))
display (decode o b) = text "decode error for " ++ (o ++ (text ": " ++ b))
display (unknown_source m) = text "unknown data source: " ++ m
display (not_found m) = text "not found: " ++ m
display (bad_request m) = text "bad request: " ++ m
display (unauthorized m) = text "unauthorized: " ++ m
display (store m) = text "store error: " ++ m
display (store_unavailable m) = text "store temporarily unavailable: " ++ m
display (agent m) = text "agent error: " ++ m
display (config m) = text "configuration error: " ++ m
display (io m) = m
display (internal m) = text "internal error: " ++ m

unfoldable pub kind_for : Error → Text
kind_for (upstream o s d) = text "upstream"
kind_for (decode o b) = text "decode"
kind_for (unknown_source m) = text "not_found"
kind_for (not_found m) = text "not_found"
kind_for (bad_request m) = text "bad_request"
kind_for (unauthorized m) = text "unauthorized"
kind_for (store m) = text "store"
kind_for (store_unavailable m) = text "store_unavailable"
kind_for (agent m) = text "agent"
kind_for (config m) = text "config"
kind_for (io m) = text "io"
kind_for (internal m) = text "internal"

-- The status of the response and its JSON body, `{"error": {"kind", "message"}}`.
pub record Response : Type 0 where
  pub status : ℕ
  pub kind : Text
  pub message : Text

abbrev pub cold_message : Text
cold_message =
    text "data temporarily unavailable (refresh in progress or cache cold); retry shortly"

abbrev pub generic_message : Text
generic_message = text "internal server error"

public_message : Error → Text
public_message (store_unavailable m) = cold_message
public_message (upstream o s d) = generic_message
public_message _ = generic_message

is_server_error : ℕ → Bool
is_server_error s = leb 500 s && ltb s 600

-- Every status that `status_code` returns is a valid one, so `from_u16` cannot fail.
unfoldable pub into_response : Error → Response
unfolding public_message is_server_error
into_response e =
    let status = status_code e in
    if is_server_error status
    then record { status = status; kind = kind_for e; message = public_message e }
    else record { status = status; kind = kind_for e; message = display e }
