-- ===== src/Startup/Calls.antt =====
-- Calls of the router, and the theorem on it at a concrete one.
use corsget.Prelude.{◌≡◌, ◌⊎◌, refl, none, some, []}
use corsget.Text.{Text, text}
use corsget.Samples.Codecs.{entry_codec}
use corsget.Samples.Http.{list_http}
use corsget.Samples.Limits.{counting_limits}
use corsget.Samples.Regexes.{text_regexes}
use corsget.Samples.Requests.{maps, rates_off, surroundings, asked}
use corsget.Samples.Routes.{two_routes}
use corsget.Samples.Urls.{small_urls}
use corsget.Startup.Router.{
  Method, get, options, other, head, root_not_found, proxied, proxied_head, preflight,
  method_not_allowed, unmatched, route, Call, Service, app,
}
use corsget.Startup.Routing.{IsFetch, ArePermitted, app-Permitted}

routed :
    (route two_routes get (text "/") ≡ root_not_found)
    × (route two_routes get (text "/https://a.com/x") ≡ proxied)
    × (route two_routes head (text "/x") ≡ proxied_head)
    × (route two_routes options (text "/x") ≡ preflight)
    × (route two_routes (other (text "POST")) (text "/x") ≡ method_not_allowed)
    × (route two_routes get (text "*") ≡ unmatched)
unfolding route corsget.Startup.Router.target_handler text corsget.Text.text_eq
    corsget.Text.strip_prefix
routed = (refl, refl, refl, refl, refl, refl)

abbrev service :
    Service list_http small_urls text_regexes maps counting_limits entry_codec two_routes
service = record {
  to_lowercase = λ t. t;
  parse_ip = λ t. some t;
  error_json = λ message. message;
  real_ip_header = text "x-real-ip";
}

abbrev call : Call list_http small_urls text_regexes maps counting_limits entry_codec two_routes
call = record {
  method = get;
  path = text "/https://a.com/x";
  request = record { uri = asked; headers = []; cors_extension = none };
  peer = some (text "1.1.1.1");
}

app-Permitted_example :
    ((app list_http small_urls text_regexes maps counting_limits entry_codec two_routes surroundings
        service rates_off call).sent
      ≡ [])
    ⊎ (IsFetch two_routes get (text "/https://a.com/x")
        × ArePermitted list_http small_urls text_regexes maps counting_limits entry_codec two_routes
            surroundings service []
            (app list_http small_urls text_regexes maps counting_limits entry_codec two_routes
              surroundings service rates_off call).sent)
app-Permitted_example =
    app-Permitted list_http small_urls text_regexes maps counting_limits entry_codec two_routes
      surroundings service rates_off call
