-- ===== src/Messages.antt =====
-- What the handlers read of an axum request and write into a response. A body is the stream of its
-- chunks; an error ends it.
use corsget.Prelude.{ℕ, Option, List, Result}
use corsget.Text.{Text}
use corsget.External.Http.{Http}

-- `axum::http::Uri`, by what `parse_target_url` asks of it.
pub record Uri : Type 0 where
  pub scheme_str : Option Text
  pub path_and_query : Option Text
  pub whole : Text

module _ (H : Http) where
  open H use {Headers}

  -- `cors_extension` is the header map that the CORS layer stores in the request's extensions.
  pub record Request : Type 0 where
    pub uri : Uri
    pub headers : Headers
    pub cors_extension : Option Headers

  pub record Response : Type 0 where
    pub status : ℕ
    pub headers : Headers
    pub body : List (Result Text Text)
