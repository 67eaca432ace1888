-- ===== src/External/Urls.antt =====
-- The crate `url`: parsed absolute URLs. Errors are the messages of `ParseError`.
use corsget.Prelude.{ℕ, Option, Result}
use corsget.Text.{Text}

pub record Urls : Type 1 where
  pub Url : Type 0
  pub parse : Text → Result Text Url
  pub join : Url → Text → Result Text Url
  pub as_str : Url → Text
  pub scheme : Url → Text
  pub host_str : Url → Option Text
  pub port : Url → Option ℕ
  pub path : Url → Text
  pub query : Url → Option Text
