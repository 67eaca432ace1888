-- ===== src/Cors/Layer.antt =====
-- What a response carries after the CORS layer.
use corsget.Prelude.{
  ◌≡◌, ◌≢◌, refl, ◌∙◌, inl, inr, Bool, true, false, Option, none, some, List, [], ◌∷◌, arith,
  if◌then◌else◌, Bool-cases, Result, ok, err, any, last,
}
use corsget.Text.{Text, text, text_eq, assoc}
use corsget.Text.Equality.{text_eq-eq-false}
use corsget.External.Http.{Http, values_of}
use corsget.Messages.{Request, Response}
use corsget.Cors.{
  allow_origin, allow_headers, cors_headers, nominates, add_vary_field, insert_all, cors_layer,
}

-- The one value, or what was there.
abbrev pub one_or {ℓ} : {V : Type ℓ} → Option V → List V → List V
one_or none vs = vs
one_or (some v) vs = v ∷ []

one_or-last {ℓ} :
    {V : Type ℓ} (v : V) (vs us ws : List V) → one_or (last (v ∷ vs)) us ≡ one_or (last (v ∷ vs)) ws
one_or-last v [] us ws = refl
one_or-last v (w ∷ vs) us ws = one_or-last w vs us ws

one_or-last_cons {ℓ} :
    {V : Type ℓ} (b : Bool) (v : V) (vs us : List V)
    → one_or (last vs) (if b then v ∷ [] else us) ≡ one_or (last (if b then v ∷ vs else vs)) us
one_or-last_cons true v [] us = refl
one_or-last_cons true v (w ∷ vs) us = one_or-last w vs (v ∷ []) us
one_or-last_cons false v vs us = refl

last-one_or {ℓ} : {V : Type ℓ} (o : Option V) → last (one_or o []) ≡ o
last-one_or none = refl
last-one_or (some v) = refl

module _ (H : Http) where
  open H use {
    Value, from_str, append, contains_key, Headers, get_all, entries, insert, from_static,
    get_all-insert, get_all-entries, get_all-empty, get_all-append,
  }

  -- The headers that the layer decides, with their values.
  abbrev pub cors_pairs : Headers → List (Text × Value)
  cors_pairs h =
      (text "access-control-max-age", from_static (text "86400"))
      ∷ (text "access-control-allow-methods", from_static (text "GET, OPTIONS"))
      ∷ (text "access-control-allow-headers", allow_headers H h)
      ∷ (text "access-control-allow-credentials", from_static (text "true"))
      ∷ (text "access-control-allow-origin", allow_origin H h)
      ∷ []

  pub get_all-insert_all :
      (n : Text) (es : List (Text × Value)) (h : Headers)
      → get_all n (insert_all H es h) ≡ one_or (last (values_of n es)) (get_all n h)
  unfolding insert_all values_of
  get_all-insert_all n [] h = refl
  get_all-insert_all n ((m, v) ∷ es) h =
      get_all-insert_all n es (insert m v h)
      ∙ rw get_all-insert (one_or-last_cons (text_eq n m) v (values_of n es) (get_all n h))

  pub get_all-cors_headers :
      (n : Text) (h : Headers) → get_all n (cors_headers H h) ≡ one_or (assoc n (cors_pairs h)) []
  unfolding cors_headers assoc
  get_all-cors_headers n h =
      rw
        (
          get_all-insert, get_all-insert, get_all-insert, get_all-insert, get_all-insert,
          get_all-empty,
        )
        (ground arith)

  pub get_all-add_vary_field :
      (n field : Text) (h : Headers)
      → n ≢ text "vary"
      → get_all n (add_vary_field H field h) ≡ get_all n h
  unfolding add_vary_field
  get_all-add_vary_field n field h other =
      let kept = text_eq-eq-false n (text "vary") other in
      elim (Bool-cases (any (nominates H field) (get_all (text "vary") h))) [
        | inl there ↦ rw (there, add_vary_field)
        | inr absent ↦ rw (absent, add_vary_field) (appended (from_str field) kept)
      ]
    where
      appended :
          (r : Result Text Value)
          → text_eq n (text "vary") ≡ false
          → get_all n (elim r [ ok v ↦ append (text "vary") v h | err _ ↦ h ]) ≡ get_all n h
      appended (ok v) kept = rw (get_all-append, kept)
      appended (err _) kept = refl

  pub get_all_inserted :
      (n : Text) (h m : Headers)
      → get_all n (insert_all H (entries (cors_headers H h)) m)
        ≡ one_or (assoc n (cors_pairs h)) (get_all n m)
  get_all_inserted n h m =
      get_all-insert_all n (entries (cors_headers H h)) m
      ∙ rw (← get_all-entries, get_all-cors_headers, last-one_or)

  -- Whatever the handler answers, each of the five CORS headers has exactly the one value that is
  -- computed from the request, and every other header but `vary` is the handler's.
  pub get_all-cors_layer :
      (next : Request H → Response H) (req : Request H) (n : Text)
      → n ≢ text "vary"
      → get_all n (cors_layer H next req).headers
        ≡ one_or (assoc n (cors_pairs req.headers)) (
            get_all n
              (next (record req { cors_extension = some (cors_headers H req.headers) })).headers)
  unfolding cors_layer
  get_all-cors_layer next req n other =
      let cors = cors_headers H req.headers in
      let m = (next (record req { cors_extension = some cors })).headers in
      let inserted = get_all_inserted n req.headers m in
      elim (Bool-cases (contains_key (text "origin") req.headers)) [
        | inl echoed ↦
            rw (echoed, cors_layer)
              (get_all-add_vary_field n (text "origin") (insert_all H (entries cors) m) other
                ∙ inserted)
        | inr plain ↦ rw (plain, cors_layer) inserted
      ]
