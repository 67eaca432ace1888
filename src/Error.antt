-- ===== src/Error.antt =====
-- src/error.rs: the errors of a request and their HTTP responses.
use corsget.Prelude.{ℕ, Bool, ◌++◌, if◌then◌else◌}
use corsget.Text.{Text, text}

pub data AppError : Type 0 where
  bad_url : Text → AppError
  denied : Text → AppError
  too_large : Text → AppError
  upstream : Text → AppError
  limit_backend : Text → AppError

-- The status and the message of `AppError::into_response`.
unfoldable pub status_of : AppError → ℕ
status_of (bad_url msg) = 400
status_of (denied msg) = 403
status_of (too_large msg) = 413
status_of (upstream msg) = 502
status_of (limit_backend msg) = 503

unfoldable pub message_of : AppError → Text
message_of (bad_url msg) = msg
message_of (denied msg) = msg
message_of (too_large msg) = msg
message_of (upstream msg) = msg
message_of (limit_backend msg) = msg

-- `reqwest::Error`, by what its conversion asks of it.
pub record SendError : Type 0 where
  pub is_timeout : Bool
  pub is_redirect : Bool
  pub display : Text

-- `From<reqwest::Error> for AppError`.
unfoldable pub from_send_error : SendError → AppError
from_send_error e =
    if e.is_timeout
    then upstream (text "upstream timeout: " ++ e.display)
    else if e.is_redirect
    then upstream (text "too many redirects: " ++ e.display)
    else upstream e.display
