-- ===== src/Samples/Urls.antt =====
-- Small URLs: a scheme, a host without a port, and what follows.
use corsget.Prelude.{none, some, ◌++◌, if◌then◌else◌, is_empty, Result, ok, err}
use corsget.Text.{Text, text, strip_prefix, split_once}
use corsget.External.Urls.{Urls}

pub record SmallUrl : Type 0 where
  pub scheme : Text
  pub host : Text
  pub path : Text

abbrev after_scheme : Text → Text → Result Text SmallUrl
after_scheme scheme rest = elim (split_once b'/' rest) [
  | none ↦ ok (record { scheme = scheme; host = rest; path = text "/" })
  | some (host, path) ↦ ok (record { scheme = scheme; host = host; path = text "/" ++ path })
]

abbrev parse_small : Text → Result Text SmallUrl
parse_small t = elim (strip_prefix (text "https://") t) [
  | some rest ↦ after_scheme (text "https") rest
  | none ↦ elim (strip_prefix (text "http://") t) [
    | some rest ↦ after_scheme (text "http") rest
    | none ↦ elim (strip_prefix (text "ftp://") t) [
      | some rest ↦ after_scheme (text "ftp") rest
      | none ↦ err (text "relative URL without a base")
    ]
  ]
]

abbrev pub small_urls : Urls
small_urls = record {
  Url = SmallUrl;
  parse = parse_small;
  join = λ base t. ok (record base { path = t });
  as_str = λ u. u.scheme ++ text "://" ++ u.host ++ u.path;
  scheme = λ u. u.scheme;
  host_str = λ u. if is_empty u.host then none else some u.host;
  port = λ u. none;
  path = λ u. u.path;
  query = λ u. none;
}
