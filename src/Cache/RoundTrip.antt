-- ===== src/Cache/RoundTrip.antt =====
-- From the headers of a response to those of the stored entry, and back.
use corsget.Prelude.{
  ◌≡◌, refl, ap, ◌∙◌, true, false, Option, none, some, List, [], ◌∷◌, ◌++◌, append-nil,
  append_assoc, All, arith, ok, if◌then◌else◌, filter_map, Bool-cases, Option-cases, inl, inr,
}
use corsget.Text.{Text, text_eq}
use corsget.Text.Equality.{text_eq_iff}
use corsget.External.Http.{Http, values_of}
use corsget.Cors.{is_cors_response_header}
use corsget.Cache.{CacheEntry, is_not_stored, cache_headers, append_stored, headers_from_entry}

stored_no_cors : (name : Text) → is_not_stored name ≡ false → is_cors_response_header name ≡ false
unfolding is_not_stored
stored_no_cors name h = ground arith

module _ (H : Http) where
  open H use {
    Value, Headers, to_str, from_str, parse_name, empty, entries, get_all, append, get_all-append,
    get_all-empty, get_all-entries, to_str_visible, from_str_visible,
  }

  -- The values that are text.
  abbrev pub texts : List Value → List Text
  texts vs = filter_map to_str vs

  texts-append : (vs ws : List Value) → texts (vs ++ ws) ≡ texts vs ++ texts ws
  unfolding filter_map
  texts-append [] ws = refl
  texts-append (v ∷ vs) ws = ground (arith, texts-append vs ws)

  -- What the entry keeps of one header.
  abbrev keep : Text × Value → Option (Text × Text)
  keep = λ (name, value).
      if is_not_stored name
      then none
      else elim (to_str value) [ none ↦ none | some s ↦ some (name, s) ]

  -- Every name reads back as itself, as the names of a map of headers do.
  abbrev pub IsNamed : Text × Value → Type 0
  IsNamed e = parse_name e.0 ≡ ok e.0

  restored :
      (n : Text) (es : List (Text × Value)) (out : Headers)
      → All IsNamed es
      → texts (get_all n (append_stored H (filter_map keep es) out))
        ≡ texts (get_all n out) ++ (if is_not_stored n then [] else texts (values_of n es))
  unfolding append_stored filter_map values_of
  restored n [] out named = ground (arith, append-nil (texts (get_all n out)))
  restored n ((m, v) ∷ es) out (here, named) = elim (Bool-cases (is_not_stored m)) [
    | inl dropped ↦
        rw (filter_map, dropped)
          (restored n es out named ∙ ap (λ vs. texts (get_all n out) ++ vs) (hidden dropped))
    | inr kept ↦ elim (Option-cases (to_str v)) [
      | inl unreadable ↦
          rw (filter_map, kept, unreadable)
            (restored n es out named ∙ ap (λ vs. texts (get_all n out) ++ vs) (skipped unreadable))
      | inr (s, read) ↦
          let (v', valid, same) = from_str_visible s (to_str_visible v s read) in
          let plain = stored_no_cors m kept in
          rw (filter_map, kept, read, here, append_stored, valid, plain)
            (restored n es (append m v' out) named ∙ added kept read same)
    ]
  ]
    where
      hidden :
          is_not_stored m ≡ true
          → (if is_not_stored n then [] else texts (values_of n es)) ≡ (
              if is_not_stored n
              then []
              else texts (if text_eq n m then v ∷ values_of n es else values_of n es))
      hidden dropped = elim (Bool-cases (text_eq n m)) [
        | inl same ↦ let alike = ap is_not_stored ((text_eq_iff n m).0 same) in ground arith
        | inr other ↦ rw other
      ]

      skipped :
          to_str v ≡ none
          → (if is_not_stored n then [] else texts (values_of n es)) ≡ (
              if is_not_stored n
              then []
              else texts (if text_eq n m then v ∷ values_of n es else values_of n es))
      skipped unreadable = ground arith

      added :
          {v' : Value} {s : Text}
          → is_not_stored m ≡ false
          → to_str v ≡ some s
          → to_str v' ≡ some s
          → texts (get_all n (append m v' out))
              ++ (if is_not_stored n then [] else texts (values_of n es))
            ≡ texts (get_all n out)
              ++ (if is_not_stored n
                  then []
                  else texts (if text_eq n m then v ∷ values_of n es else values_of n es))
      added {v'} {s} kept read same = elim (Bool-cases (text_eq n m)) [
        | inr other ↦ rw (get_all-append, other)
        | inl alike ↦
            let stored = ap is_not_stored ((text_eq_iff n m).0 alike) in
            rw (get_all-append, alike, stored, kept, texts-append)
              (ground (
                arith,
                same,
                read,
                append_assoc (texts (get_all n out)) (s ∷ []) (texts (values_of n es)),
              ))
      ]

  pub headers_from_entry-cache_headers :
      (h : Headers) (entry : CacheEntry) (n : Text)
      → entry.headers ≡ cache_headers H h
      → All IsNamed (entries h)
      → texts (get_all n (headers_from_entry H entry))
        ≡ (if is_not_stored n then [] else texts (get_all n h))
  unfolding headers_from_entry cache_headers filter_map
  headers_from_entry-cache_headers h entry n stored named =
      ap (λ hs. texts (get_all n (append_stored H hs empty))) stored
      ∙ restored n (entries h) empty named
      ∙ rw (get_all-empty, ← get_all-entries) refl
