-- ===== src/Cors/Preflight.antt =====
-- `preflight_handler`, and when it and the proxy let a request through.
use corsget.Prelude.{
  ◌≡◌, ◌≢◌, ap, ◌∙◌, ◌↔◌, inl, inr, [], if◌then◌else◌, Result, ok, err, ◌>>=◌, ◌>>◌, ok-injective,
  Bool-cases, Result-cases,
}
use corsget.Text.{Text, text, assoc}
use corsget.External.Http.{Http}
use corsget.External.Urls.{Urls}
use corsget.External.Regexes.{Regexes}
use corsget.Messages.{Uri, Response}
use corsget.Error.{AppError}
use corsget.Extractors.{Origin, origin_from_headers}
use corsget.Matcher.{MatchPolicy}
use corsget.Cors.{cors_headers, add_vary_field, insert_all}
use corsget.Cors.Layer.{one_or, cors_pairs, get_all_inserted, get_all-add_vary_field}
use corsget.Proxy.{parse_target_url, is_http_scheme, unsupported_scheme, validate_target_policy}
use corsget.Proxy.Policy.{is_http_scheme_iff, Permitted, validate_target_policy_iff}
use corsget.Proxy.Handler.{permitted_target}

module _ (H : Http) where
  open H use {Headers, empty, entries, get_all, get_all-empty}

  -- The response to an allowed preflight. `extend` inserts the CORS headers, which have one value each.
  unfoldable pub preflight_response : Headers → Response H
  preflight_response request_headers = record {
    status = 204;
    headers = insert_all H (entries (cors_headers H request_headers)) (
        add_vary_field H (text "access-control-request-headers")
          (add_vary_field H (text "origin") empty));
    body = [];
  }

  -- `preflight_handler`.
  unfoldable pub preflight_handler :
      (U : Urls) (R : Regexes)
      → (to_lowercase : Text → Text) → MatchPolicy R
      → Uri
      → Headers
      → Result AppError (Response H)
  preflight_handler U R to_lowercase policy uri request_headers = do
    target_url ← parse_target_url U uri
    if is_http_scheme (U.scheme target_url)
        then ok tt
        else err (unsupported_scheme (U.scheme target_url))
    validate_target_policy U R policy target_url
        (origin_from_headers H U to_lowercase request_headers)
    ok (preflight_response request_headers)

  preflight_response-get_all :
      (request_headers : Headers) (n : Text)
      → n ≢ text "vary"
      → get_all n (preflight_response request_headers).headers
        ≡ one_or (assoc n (cors_pairs H request_headers)) []
  unfolding preflight_response
  preflight_response-get_all h n other =
      get_all_inserted H n h _
      ∙ ap (one_or (assoc n (cors_pairs H h))) (
          get_all-add_vary_field H n (text "access-control-request-headers") _ other
          ∙ get_all-add_vary_field H n (text "origin") empty other
          ∙ get_all-empty n)

module _ (U : Urls) (R : Regexes) where
  open U use {Url, scheme}

  -- The front of the proxy lets exactly the targets through that parse and that the policy permits.
  pub permitted_target_iff :
      (policy : MatchPolicy R) (uri : Uri) (origin : Origin) (url : Url)
      → (permitted_target U R policy uri origin ≡ ok url)
        ↔ ((parse_target_url U uri ≡ ok url) × Permitted U R policy url origin)
  unfolding permitted_target
  permitted_target_iff policy uri origin url = (front, back)
    where
      front :
          permitted_target U R policy uri origin ≡ ok url
          → (parse_target_url U uri ≡ ok url) × Permitted U R policy url origin
      front h = elim (Result-cases (parse_target_url U uri)) [
        | inr (e, bad) ↦ cc (rw (bad, permitted_target) at h)
        | inl (u, parsed) ↦ elim (Bool-cases (is_http_scheme (scheme u))) [
          | inr other ↦ cc (rw (parsed, permitted_target, other) at h)
          | inl web ↦ elim (Result-cases (validate_target_policy U R policy u origin)) [
            | inr (e, refused) ↦ cc (rw (parsed, permitted_target, web, refused) at h)
            | inl (_, passed) ↦
                let same : u ≡ url =
                  ok-injective (rw (parsed, permitted_target, web, passed) at h) in
                (
                  rw (← same) parsed,
                  rw (← same) ((validate_target_policy_iff U R policy u origin).0 passed),
                )
          ]
        ]
      ]

      back :
          (parse_target_url U uri ≡ ok url) × Permitted U R policy url origin
          → permitted_target U R policy uri origin ≡ ok url
      back (parsed, allowed) =
          let passed = (validate_target_policy_iff U R policy url origin).1 allowed in
          let web = (is_http_scheme_iff (scheme url)).1 allowed.proxyable in
          rw (parsed, permitted_target, web, passed)

pub preflight_handler-permitted_target :
    (H : Http) (U : Urls) (R : Regexes) (to_lowercase : Text → Text) (policy : MatchPolicy R)
    (uri : Uri) (h : H.Headers)
    → preflight_handler H U R to_lowercase policy uri h ≡ (
        permitted_target U R policy uri (origin_from_headers H U to_lowercase h) >>= λ _.
        ok (preflight_response H h))
unfolding preflight_handler permitted_target
preflight_handler-permitted_target H U R to_lowercase policy uri h =
    let origin = origin_from_headers H U to_lowercase h in
    elim (Result-cases (parse_target_url U uri)) [
      | inr (e, bad) ↦ rw (bad, preflight_handler, permitted_target)
      | inl (u, parsed) ↦ elim (Bool-cases (is_http_scheme (U.scheme u))) [
        | inr other ↦ rw (parsed, preflight_handler, permitted_target, other)
        | inl web ↦ elim (Result-cases (validate_target_policy U R policy u origin)) [
          | inr (e, refused) ↦ rw (parsed, preflight_handler, permitted_target, web, refused)
          | inl (_, passed) ↦ rw (parsed, preflight_handler, permitted_target, web, passed)
        ]
      ]
    ]
