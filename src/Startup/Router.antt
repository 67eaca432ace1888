-- ===== src/Startup/Router.antt =====
-- The routes of `main`, their fallbacks, and the responses that handlers' results become.
use corsget.Prelude.{ℕ, Option, some, List, [], ◌∷◌, Result, ok, err, if◌then◌else◌}
use corsget.Text.{Text, text}
use corsget.External.Http.{Http}
use corsget.External.Urls.{Urls}
use corsget.External.Regexes.{Regexes}
use corsget.External.Maps.{Maps}
use corsget.External.Limits.{Limits}
use corsget.External.Codecs.{Codec}
use corsget.External.Routes.{Routes}
use corsget.Messages.{Request, Response}
use corsget.Error.{AppError, status_of, message_of}
use corsget.Extractors.{key_from_request_parts}
use corsget.Limit.{WindowState}
use corsget.Cache.{CacheEntry}
use corsget.Cache.Files.{persisted}
use corsget.Cors.{cors_headers, cors_layer}
use corsget.Cors.Preflight.{preflight_handler}
use corsget.Proxy.Request.{World, Surroundings, proxy_handler}

pub data Method : Type 0 where
  get : Method
  head : Method
  options : Method
  other : Text → Method

-- What answers a call. `unmatched` is the fallback of the router itself.
pub data Handler : Type 0 where
  root_not_found : Handler
  proxied : Handler
  proxied_head : Handler
  preflight : Handler
  method_not_allowed : Handler
  unmatched : Handler

-- The methods of the route for targets. A route for GET answers HEAD too.
unfoldable pub target_handler : Method → Handler
target_handler get = proxied
target_handler head = proxied_head
target_handler options = preflight
target_handler (other name) = method_not_allowed

-- The routes.
unfoldable pub route : Routes → Method → Text → Handler
route routes method path =
    if routes.matches (text "/") path
    then root_not_found
    else if routes.matches (text "/{*target}") path
    then target_handler method
    else unmatched

module _ (H : Http) where
  open H use {empty, insert, from_static}

  -- `(status, Json(json!({ "error": message }))).into_response()`; `error_json` is the text.
  unfoldable pub json_response : (Text → Text) → ℕ → Text → Response H
  json_response error_json status message = record {
    status = status;
    headers = insert (text "content-type") (from_static (text "application/json")) empty;
    body = ok (error_json message) ∷ [];
  }

  -- `AppError::into_response`, for a handler's result.
  unfoldable pub into_response : (Text → Text) → Result AppError (Response H) → Response H
  into_response error_json (ok response) = response
  into_response error_json (err e) = json_response error_json (status_of e) (message_of e)

  -- What the router does with the response to HEAD.
  abbrev pub without_body : Response H → Response H
  without_body response = record response { body = [] }

module _ (H : Http) (U : Urls) (R : Regexes) (D : Maps WindowState) (L : Limits)
    (C : Codec CacheEntry persisted) (routes : Routes) where
  open H use {Headers}
  open U use {Url}

  -- A call, with the address of its connection.
  pub record Call : Type 0 where
    pub method : Method
    pub path : Text
    pub request : Request H
    pub peer : Option Text

  -- The texts that `std` and `serde_json` compute, and the configured header.
  pub record Service : Type 0 where
    pub to_lowercase : Text → Text
    pub parse_ip : Text → Option Text
    pub error_json : Text → Text
    pub real_ip_header : Text

  -- A response, and the requests that were sent for it.
  pub record Answer : Type 0 where
    pub response : Response H
    pub sent : List (Url × Headers)

  module _ (s : Surroundings H U R D L C) (v : Service) where
    -- The key is extracted from the request before `proxy_handler` runs.
    unfoldable pub proxy_answer : World H U R D L C → Option Text → Request H → Answer
    proxy_answer w peer req =
        let key =
          key_from_request_parts H U v.to_lowercase v.parse_ip v.real_ip_header peer req.headers in
        let outcome = proxy_handler H U R D L C s w key req.uri req.headers in
        record { response = into_response H v.error_json outcome.answer; sent = outcome.sent }

    -- Each handler, on a request.
    unfoldable pub handle : Handler → World H U R D L C → Option Text → Request H → Answer
    handle root_not_found w peer req = record {
      response = json_response H v.error_json 404 (text "not found");
      sent = [];
    }
    handle proxied w peer req = proxy_answer w peer req
    handle proxied_head w peer req = record (proxy_answer w peer req) {
      response = without_body H (proxy_answer w peer req).response;
    }
    handle preflight w peer req = record {
      response =
          into_response H v.error_json
            (preflight_handler H U R v.to_lowercase s.policy req.uri req.headers);
      sent = [];
    }
    handle method_not_allowed w peer req = record {
      response = json_response H v.error_json 405 (text "method not allowed");
      sent = [];
    }
    handle unmatched w peer req = record {
      response = record { status = 404; headers = H.empty; body = [] };
      sent = [];
    }

    -- The request, as `cors_layer` hands it on.
    abbrev pub extended : Request H → Request H
    extended req = record req { cors_extension = some (cors_headers H req.headers) }

    -- The router, with `cors_layer` around every route.
    unfoldable pub app : World H U R D L C → Call → Answer
    app w call =
        let handler = route routes call.method call.path in
        record {
          response = cors_layer H (λ req. (handle handler w call.peer req).response) call.request;
          sent = (handle handler w call.peer (extended call.request)).sent;
        }
