-- ===== src/Startup/Routing.antt =====
-- Which calls reach the upstream, and what the others are answered.
use corsget.Prelude.{◌≡◌, ◌≢◌, ◌⊎◌, refl, inl, inr, Option, some, List, [], All, Bool-cases}
use corsget.Text.{Text, text, strip_prefix}
use corsget.External.Http.{Http}
use corsget.External.Urls.{Urls}
use corsget.External.Regexes.{Regexes}
use corsget.External.Maps.{Maps}
use corsget.External.Limits.{Limits}
use corsget.External.Codecs.{Codec}
use corsget.External.Routes.{Routes}
use corsget.Messages.{Request}
use corsget.Extractors.{origin_from_headers, key_from_request_parts}
use corsget.Limit.{WindowState}
use corsget.Cache.{CacheEntry}
use corsget.Cache.Files.{persisted}
use corsget.Proxy.Policy.{Permitted}
use corsget.Proxy.Request.{World, Surroundings}
use corsget.Proxy.Safety.{proxy_handler-Permitted}
use corsget.Startup.Router.{
  Method, get, head, options, other, Handler, target_handler, proxied, proxied_head, root_not_found,
  preflight, method_not_allowed, unmatched, route, Call, Service, handle, proxy_answer, app,
  extended,
}

module _ (routes : Routes) where
  -- The path has something behind its first slash.
  abbrev pub HasTarget : Text → Type 0
  HasTarget path = (rest : Text) × (rest ≢ []) × (strip_prefix (text "/") path ≡ some rest)

  -- A GET or HEAD of a target.
  abbrev pub IsFetch : Method → Text → Type 0
  IsFetch method path = ((method ≡ get) ⊎ (method ≡ head)) × HasTarget path

  abbrev pub IsProxied : Handler → Type 0
  IsProxied handler = (handler ≡ proxied) ⊎ (handler ≡ proxied_head)

  target_handler-IsProxied :
      (method : Method) → IsProxied (target_handler method) → (method ≡ get) ⊎ (method ≡ head)
  unfolding target_handler
  target_handler-IsProxied get asks = inl refl
  target_handler-IsProxied head asks = inr refl
  target_handler-IsProxied options asks = elim asks [ inl e ↦ cc e | inr e ↦ cc e ]
  target_handler-IsProxied (other name) asks = elim asks [ inl e ↦ cc e | inr e ↦ cc e ]

  route-IsProxied :
      (method : Method) (path : Text) → IsProxied (route routes method path) → IsFetch method path
  unfolding route
  route-IsProxied method path asks = elim (Bool-cases (routes.matches (text "/") path)) [
    | inl root ↦ elim (rw (root, route) at asks) [ inl e ↦ cc e | inr e ↦ cc e ]
    | inr deeper ↦ elim (Bool-cases (routes.matches (text "/{*target}") path)) [
      | inr missed ↦ elim (rw (deeper, route, missed) at asks) [ inl e ↦ cc e | inr e ↦ cc e ]
      | inl target ↦ (
        target_handler-IsProxied method (rw (deeper, route, target) at asks),
        (routes.matches-target path).0 target,
      )
    ]
  ]

module _ (H : Http) (U : Urls) (R : Regexes) (D : Maps WindowState) (L : Limits)
    (C : Codec CacheEntry persisted) (routes : Routes) (s : Surroundings H U R D L C)
    (v : Service H U R D L C routes) where
  open H use {Headers}
  open U use {Url}

  -- Every target of these requests is permitted to the origin of this call.
  abbrev pub ArePermitted : Headers → List (Url × Headers) → Type 0
  ArePermitted h sent =
      All (λ request. Permitted U R s.policy request.0 (origin_from_headers H U v.to_lowercase h))
        sent

  handle-Permitted :
      (handler : Handler) (w : World H U R D L C) (peer : Option Text) (req : Request H)
      → ((handle H U R D L C routes s v handler w peer req).sent ≡ [])
        ⊎ (IsProxied routes handler
            × ArePermitted req.headers (handle H U R D L C routes s v handler w peer req).sent)
  unfolding handle proxy_answer key_from_request_parts
  handle-Permitted root_not_found w peer req = inl refl
  handle-Permitted preflight w peer req = inl refl
  handle-Permitted method_not_allowed w peer req = inl refl
  handle-Permitted unmatched w peer req = inl refl
  handle-Permitted proxied w peer req =
      inr (inl refl, proxy_handler-Permitted H U R D L C s w _ req.uri req.headers)
  handle-Permitted proxied_head w peer req =
      inr (inr refl, proxy_handler-Permitted H U R D L C s w _ req.uri req.headers)

  -- A call sends nothing, or it is a GET or a HEAD of a path with a target, and each request that is
  -- sent for it goes where the policy permits its origin to go. No other method and no other path
  -- reaches out.
  pub app-Permitted :
      (w : World H U R D L C) (call : Call H U R D L C routes)
      → ((app H U R D L C routes s v w call).sent ≡ [])
        ⊎ (IsFetch routes call.method call.path
            × ArePermitted call.request.headers (app H U R D L C routes s v w call).sent)
  unfolding app
  app-Permitted w call =
      elim (handle-Permitted (route routes call.method call.path) w call.peer
        (extended H U R D L C routes s v call.request)) [
          | inl nothing ↦ inl nothing
          | inr (asks, allowed) ↦ inr (route-IsProxied routes call.method call.path asks, allowed)
        ]
