-- ===== src/Proxy/Serving.antt =====
-- The rate limit in front, and the bounds on a response behind it.
use mathlib.Core.List.{Memᴰ}
use corsget.Prelude.{
  ℕ, ◌≤◌, ◌<◌, ◌≡◌, ◌≢◌, refl, ap, ◌∙◌, ◌↔◌, inl, inr, true, false, not, Option, none, some, List,
  [], ◌∷◌, Result, ok, err, arith, min, saturating_mul, u64_max, Bool-cases, Option-cases,
  ok-injective, OnOk, ◌==◌,
}
use corsget.Text.{Text, text, text_eq}
use corsget.External.Http.{Http}
use corsget.External.Urls.{Urls}
use corsget.External.Regexes.{Regexes}
use corsget.External.Maps.{Maps}
use corsget.External.Limits.{Limits}
use corsget.Messages.{Response}
use corsget.Error.{AppError}
use corsget.Limit.{LimitTier, WindowState, BandwidthLimiter, MeteredError, new_guard}
use corsget.Limit.Stream.{bytes_of, metered_stream-le_cap}
use corsget.Config.{ResponseHeaderOverrideConfig}
use corsget.Headers.{compile_policy}
use corsget.Headers.Managed.{IsManaged, apply-IsManaged}
use corsget.Cache.{add_cache_header, cache_diagnostic_header}
use corsget.Cache.Writing.{CacheWriter}
use corsget.Proxy.{copy_response_headers}
use corsget.Proxy.Forwarding.{copy_response_headers-get_all}
use corsget.Proxy.Fetch.{UpstreamResponse}
use corsget.Disk.{Disk}
use corsget.External.Codecs.{Codec}
use corsget.Cache.{CacheEntry}
use corsget.Cache.Files.{persisted}
use corsget.Proxy.Filing.{tee_files, write_files}
use corsget.Proxy.Handler.{
  after_check, check_rate, Serving, metered, upstream_response_headers, declared_excess, pass_on,
}

module _ (L : Limits) where
  open L use {State, Snapshot, check, allowed}

  -- Each tier, checked in the state that the tiers before it left, allows the request.
  abbrev pub AllAllow : ℕ → Text → List LimitTier → State → Type 0
  AllAllow usize_max bucket [] s = Unit
  AllAllow usize_max bucket (tier ∷ tiers) s =
      let answer = check bucket (min tier.max usize_max) (saturating_mul tier.window 1000) s in
      ((snapshot : Snapshot) × (answer.1 ≡ ok snapshot) × (allowed snapshot ≡ true))
      × AllAllow usize_max bucket tiers answer.0

  passes :
      {A : Type 0} (r : Result Text Snapshot) (s : State)
      (rest : State × Result AppError (Option Snapshot))
      → ((rest.1 ≡ ok none) ↔ A)
      → ((after_check L r s rest).1 ≡ ok none)
        ↔ (((snapshot : Snapshot) × (r ≡ ok snapshot) × (allowed snapshot ≡ true)) × A)
  unfolding after_check
  passes (err e) s rest f = (λ h. cc, λ h. cc h.0.1)
  passes (ok snapshot) s rest f = elim (Bool-cases (allowed snapshot)) [
    | inl yes' ↦ (λ h. ((snapshot, refl, yes'), f.0 (rw yes' at h)), λ h. rw yes' (f.1 h.1))
    | inr no' ↦
        (λ h. cc (rw no' at h), λ ((other, same, allows), _). cc (ap allowed (ok-injective same)))
  ]

  -- A request passes the rate limit exactly when every tier allows it, each checked in the state that
  -- the tiers before it left.
  pub check_rate_iff :
      (usize_max : ℕ) (bucket : Text) (tiers : List LimitTier) (s : State)
      → ((check_rate L usize_max bucket tiers s).1 ≡ ok none) ↔ AllAllow usize_max bucket tiers s
  unfolding check_rate
  check_rate_iff usize_max bucket [] s = (λ _. tt, λ _. refl)
  check_rate_iff usize_max bucket (tier ∷ tiers) s =
      let (s', r) = check bucket (min tier.max usize_max) (saturating_mul tier.window 1000) s in
      passes r s' (check_rate L usize_max bucket tiers s')
        (check_rate_iff usize_max bucket tiers s')

tee_files-bytes :
    (C : Codec CacheEntry persisted) (process : ℕ) (writer : Option CacheWriter)
    (items : List (Result MeteredError Text)) (disk : Disk)
    → bytes_of (tee_files C process writer items disk).0 ≤ bytes_of items
unfolding tee_files bytes_of
tee_files-bytes C process writer [] disk = omega arith
tee_files-bytes C process writer (err e ∷ items) disk = omega arith
tee_files-bytes C process writer (ok bytes ∷ items) disk =
    let (disk', writer') = write_files bytes writer disk in
    omega (arith, tee_files-bytes C process writer' items disk')

content_length-IsManaged : IsManaged (text "content-length")
content_length-IsManaged = inr (Memᴰ.head refl)

not_diagnostic : text_eq (text "content-length") cache_diagnostic_header ≡ false
unfolding text_eq text
not_diagnostic = refl

module _ (H : Http) (U : Urls) (R : Regexes) (D : Maps WindowState) where
  open H use {Headers, get_all, get_all-insert}
  open U use {Url}

  -- What the client gets of a response under a cap.
  abbrev pub IsCapped : ℕ → Response H × BandwidthLimiter D × Disk → Type 0
  IsCapped result_max r =
      (bytes_of r.0.body ≤ result_max) × (get_all (text "content-length") r.0.headers ≡ [])

  get_all-add_cache_header :
      (value : Text) (h : Headers)
      → get_all (text "content-length") (add_cache_header H value h)
        ≡ get_all (text "content-length") h
  unfolding add_cache_header
  get_all-add_cache_header value h = rw (get_all-insert, not_diagnostic)

  no_declared_length :
      (s : Serving H U R D) (diagnostic : Option Text) (target_url final_url : Url)
      (source : Headers) (configs : List ResponseHeaderOverrideConfig)
      → s.result_max ≢ 0
      → compile_policy H R configs ≡ ok s.header_overrides
      → get_all
          (text "content-length")
          (upstream_response_headers H U R D s diagnostic target_url final_url source)
        ≡ []
  unfolding upstream_response_headers
  no_declared_length s diagnostic target final source configs cap compiled =
      apply-IsManaged (text "content-length") H content_length-IsManaged R U configs
        s.header_overrides _ target final compiled
      ∙ marked diagnostic
    where
      copied : Headers
      copied = copy_response_headers H source (not (s.result_max == 0))

      withheld : get_all (text "content-length") copied ≡ []
      withheld =
          elim (copy_response_headers-get_all H source (not (s.result_max == 0))
            (text "content-length")) [
              | inl (_, gone) ↦ gone
              | inr (passed, _) ↦ absurd (passed (inr (ground arith, refl)))
            ]

      marked :
          (o : Option Text)
          → get_all
              (text "content-length")
              (elim o [ none ↦ copied | some value ↦ add_cache_header H value copied ])
            ≡ []
      marked none = withheld
      marked (some value) = get_all-add_cache_header value copied ∙ withheld

  -- Under a cap every response that is passed on stays within it, and declares no length: its body
  -- has at most that many bytes, whatever the upstream declares or sends and whatever is stored of
  -- it, and no `Content-Length`, whatever the override rules.
  pub pass_on-IsCapped :
      (C : Codec CacheEntry persisted) (process : ℕ) (s : Serving H U R D)
      (diagnostic : Option Text) (begin : Disk → Disk × Option CacheWriter)
      (target_url final_url : Url) (limiter : BandwidthLimiter D) (disk : Disk)
      (resp : UpstreamResponse H) (configs : List ResponseHeaderOverrideConfig)
      → s.result_max ≢ 0
      → s.result_max < u64_max
      → compile_policy H R configs ≡ ok s.header_overrides
      → OnOk
          (IsCapped s.result_max)
          (pass_on H U R D C process s diagnostic begin target_url final_url limiter disk resp)
  unfolding pass_on metered
  pass_on-IsCapped C process s diagnostic begin target final limiter disk resp configs cap small
        compiled =
      elim (Option-cases (declared_excess s.result_max resp.content_length)) [
        | inr (n, over) ↦ rw (over, pass_on) tt
        | inl fits ↦
            let bound =
              metered_stream-le_cap D s.clock s.others s.bucket limiter (new_guard s.result_max)
                resp.body cap small (omega arith) in
            let client =
              tee_files-bytes C process (begin disk).1 (metered H U R D s limiter resp.body).0
                (begin disk).0 in
            rw (fits, pass_on)
              (
                omega arith,
                no_declared_length s diagnostic target final resp.headers configs cap compiled,
              )
      ]
