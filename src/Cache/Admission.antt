-- ===== src/Cache/Admission.antt =====
-- What every stored entry satisfies.
use mathlib.Core.List.{Memᴰ}
use corsget.Prelude.{
  ℕ, ◌≤◌, ◌<◌, ◌≡◌, refl, sym, subst, ◌∙◌, Bool, true, false, ◌||◌, not, Option, none, some, List,
  [], ◌∷◌, ◌++◌, All, All-append, arith, if◌then◌else◌, OnSome, OnSome-eq, inl, inr, Bool-cases,
  Option-cases, is_empty, ◌==◌,
}
use corsget.Text.{Text, text, text_eq, member}
use corsget.External.Http.{Http}
use corsget.Cors.{get_str}
use corsget.Cors.Names.{member_iff}
use corsget.Cache.{
  CachePlan, CacheEntry, cache_version, supported_vary_headers, add_vary_names, vary_names,
  parse_vary_from, parse_vary, cacheable_headers,
}
use corsget.Cache.Lifetime.{effective_ttl_le}
use corsget.Cache.Writing.{is_success, new_entry, admit}

abbrev pub IsSupported : Text → Type 0
IsSupported name = Memᴰ name supported_vary_headers

add_vary_names-IsSupported :
    (vary names : List Text)
    → All IsSupported vary
    → OnSome (All IsSupported) (add_vary_names vary names)
unfolding add_vary_names
add_vary_names-IsSupported vary [] known = known
add_vary_names-IsSupported vary (name ∷ names) known =
    elim (Bool-cases (text_eq name (text "*") || not (member name supported_vary_headers))) [
      | inl refused ↦ rw (refused, add_vary_names) tt
      | inr accepted ↦
          let listed : IsSupported name =
            (member_iff name supported_vary_headers).0 (ground arith) in
          rw (accepted, add_vary_names)
            (add_vary_names-IsSupported (if member name vary then vary else vary ++ name ∷ []) names
              (grown (member name vary) listed))
    ]
  where
    grown : (b : Bool) → IsSupported name → All IsSupported (if b then vary else vary ++ name ∷ [])
    grown true listed = known
    grown false listed = All-append IsSupported vary (name ∷ []) known (listed, tt)

-- The last test of `admit`.
kept :
    (made entry : CacheEntry)
    → (if made.ttl == 0 then none else some made) ≡ some entry
    → (made ≡ entry) × (0 < made.ttl)
kept made entry h = elim (Bool-cases (made.ttl == 0)) [
  | inl zero_ttl ↦ cc (rw zero_ttl at h)
  | inr positive ↦ (OnSome-eq (λ e. made ≡ e) (some made) refl (rw positive at h), ground arith)
]

module _ (H : Http) where
  open H use {Value, Headers, to_str, get_all, contains_key, contains_key-get_all}

  parse_vary_from-IsSupported :
      (vary : List Text) (vs : List Value)
      → All IsSupported vary
      → OnSome (All IsSupported) (parse_vary_from H vary vs)
  unfolding parse_vary_from
  parse_vary_from-IsSupported vary [] known = known
  parse_vary_from-IsSupported vary (v ∷ vs) known = elim (Option-cases (to_str v)) [
    | inl unreadable ↦ rw (unreadable, parse_vary_from) tt
    | inr (value, read) ↦ elim (Option-cases (add_vary_names vary (vary_names value))) [
      | inl refused ↦ rw (read, parse_vary_from, refused) tt
      | inr (vary', more) ↦
          rw (read, parse_vary_from, more)
            (parse_vary_from-IsSupported vary' vs (
              OnSome-eq (All IsSupported) _
                (add_vary_names-IsSupported vary (vary_names value) known) more))
    ]
  ]

  -- The entry varies by supported headers only, has the plan's key and the cache's version, and its
  -- lifetime is positive
  -- and within the planned one.
  abbrev pub Follows : CachePlan → CacheEntry → Type 0
  Follows plan entry =
      All IsSupported entry.vary
      × (0 < entry.ttl)
      × (entry.ttl ≤ plan.ttl)
      × (entry.key ≡ plan.key)
      × (entry.version ≡ cache_version)

  -- The response is a success without cookies, to a request without credentials.
  abbrev pub IsPublic : ℕ → Headers → Headers → Type 0
  IsPublic status headers request_headers =
      (200 ≤ status)
      × (status < 300)
      × (get_all (text "set-cookie") headers ≡ [])
      × (get_all (text "authorization") request_headers ≡ [])

  new_entry-Follows :
      (parse_http_date : Text → Option ℕ) (created accessed dated : ℕ) (root : Text)
      (plan : CachePlan) (status : ℕ) (headers : Headers) (vary : List Text)
      (request_headers : Headers)
      → All IsSupported vary
      → 0
        < (new_entry H parse_http_date created accessed dated root plan status headers vary
            request_headers).ttl
      → Follows plan (
          new_entry H parse_http_date created accessed dated root plan status headers vary
            request_headers)
  unfolding new_entry
  new_entry-Follows date created accessed dated root plan status headers vary request known
        positive =
      (known, positive, effective_ttl_le H date dated plan.ttl headers, refl, refl)

  parse_vary-IsSupported : (h : Headers) → OnSome (All IsSupported) (parse_vary H h)
  unfolding parse_vary
  parse_vary-IsSupported h = parse_vary_from-IsSupported [] (get_all (text "vary") h) tt

  no_cookie :
      (headers : Headers)
      → cacheable_headers H headers ≡ true
      → contains_key (text "set-cookie") headers ≡ false
  unfolding cacheable_headers
  no_cookie headers h = elim (Option-cases (get_str H (text "cache-control") headers)) [
    | inl absent ↦ let e = rw (absent, cacheable_headers) at h in ground arith
    | inr (value, read) ↦ let e = rw (read, cacheable_headers) at h in ground arith
  ]

  absent_of_contains_key : (n : Text) (h : Headers) → contains_key n h ≡ false → get_all n h ≡ []
  absent_of_contains_key n h e = nothing (get_all n h) (sym (contains_key-get_all n h) ∙ e)
    where
      nothing : (vs : List Value) → not (is_empty vs) ≡ false → vs ≡ []
      nothing [] e = refl
      nothing (v ∷ vs) e = cc

  is_success-lem : (status : ℕ) → is_success status ≡ true → (200 ≤ status) × (status < 300)
  unfolding is_success
  is_success-lem status h = (ground arith, ground arith)

  pub admit-IsStorable :
      (parse_http_date : Text → Option ℕ) (created accessed dated : ℕ) (root : Text)
      (plan : CachePlan) (status : ℕ) (headers request_headers : Headers) (entry : CacheEntry)
      → admit H parse_http_date created accessed dated root plan status headers request_headers
        ≡ some entry
      → IsPublic status headers request_headers × Follows plan entry
  unfolding admit
  admit-IsStorable date created accessed dated root plan status headers request entry h =
      elim (Bool-cases (not (is_success status) || not (cacheable_headers H headers))) [
        | inl refused ↦ cc (rw (refused, admit) at h)
        | inr passed ↦ elim (Option-cases (parse_vary H headers)) [
          | inl unsupported ↦ cc (rw (passed, admit, unsupported) at h)
          | inr (vary, read) ↦ elim (Bool-cases (contains_key (text "authorization") request)) [
            | inl private ↦ cc (rw (passed, admit, read, private) at h)
            | inr public ↦
                let made =
                  new_entry H date created accessed dated root plan status headers vary request in
                let (same, positive) = kept made entry (rw (passed, admit, read, public) at h) in
                let known =
                  OnSome-eq (All IsSupported) (parse_vary H headers)
                    (parse_vary-IsSupported headers) read in
                let success = is_success-lem status (ground arith) in
                (
                  (
                    success.0,
                    success.1,
                    absent_of_contains_key (text "set-cookie") headers
                        (no_cookie headers (ground arith)),
                    absent_of_contains_key (text "authorization") request public,
                  ),
                  subst (Follows plan) same (
                      new_entry-Follows date created accessed dated root plan status headers vary
                        request known positive),
                )
          ]
        ]
      ]
