-- ===== src/Headers/Managed.antt =====
-- Compiled rules, and the headers that the proxy manages itself.
use mathlib.Core.List.{Memᴰ}
use corsget.Prelude.{
  ◌≡◌, refl, sym, ◌∙◌, ap, ◌⊎◌, inl, inr, Bool, true, false, List, [], ◌∷◌, All, ok, map_err,
  if◌then◌else◌, collect, OnOk, OnOk-eq, bind-OnOk, then-OnOk, collect-All, Bool-cases,
  Result-cases,
}
use corsget.Text.{Text, text_eq, member, trim, to_ascii_lowercase}
use corsget.Text.Equality.{text_eq_iff}
use corsget.External.Http.{Http}
use corsget.External.Urls.{Urls}
use corsget.External.Regexes.{Regexes}
use corsget.Matcher.{parse}
use corsget.Config.{HeaderPair, ResponseHeaderOverrideConfig}
use corsget.Cors.{is_hop_by_hop, insert_all}
use corsget.Cors.Names.{IsHopByHop, is_hop_by_hop_iff, member_iff}
use corsget.Headers.{
  forbidden_header_names, parse_header_name, parse_header_pair, parse_header_pairs, remove_all,
  append_all, HeaderOverrideRule, HeaderOverrideError, header_value, compile_rule, apply_rule,
  HeaderOverridePolicy, compile_policy, matches, apply,
}

-- Hop-by-hop and proxy-injected headers, the length, the CORS headers, and the diagnostic header.
abbrev pub IsManaged : Text → Type 0
IsManaged n = IsHopByHop n ⊎ Memᴰ n forbidden_header_names

module _ (n : Text) where
  abbrev IsOther : Text → Type 0
  IsOther name = text_eq n name ≡ false

  abbrev IsOtherPair {ℓ} : {V : Type ℓ} → Text × V → Type 0
  IsOtherPair p = IsOther p.0

  IsOther-of_guards :
      (name : Text)
      → IsManaged n
      → is_hop_by_hop name ≡ false
      → member name forbidden_header_names ≡ false
      → IsOther name
  IsOther-of_guards name managed plain free = elim (Bool-cases (text_eq n name)) [
    | inr other ↦ other
    | inl same ↦
        let alike = (text_eq_iff n name).0 same in
        elim managed [
          | inl hop ↦ cc (sym (ap is_hop_by_hop alike) ∙ (is_hop_by_hop_iff n).1 hop)
          | inr listed ↦ cc ((member_iff n forbidden_header_names).1 listed)
        ]
  ]

  module _ (H : Http) (managed : IsManaged n) where
    open H use {
      Value, Headers, parse_name, parse_name-lowercase, from_str, get_all, get_all-insert,
      get_all-append, get_all-remove, append, insert, remove,
    }

    parse_header_name-IsOther : (name : Text) → OnOk IsOther (parse_header_name H name)
    unfolding parse_header_name
    parse_header_name-IsOther name =
        elim (Bool-cases (is_hop_by_hop (to_ascii_lowercase (trim name)))) [
          | inl hop ↦ rw (hop, parse_header_name) tt
          | inr plain ↦
              elim (Bool-cases (member (to_ascii_lowercase (trim name)) forbidden_header_names)) [
                | inl listed ↦ rw (plain, listed, parse_header_name) tt
                | inr free ↦ elim (Result-cases (parse_name (trim name))) [
                  | inr (e, bad) ↦ rw (plain, free, bad, parse_header_name) tt
                  | inl (m, good) ↦
                      let lower = parse_name-lowercase (trim name) m good in
                      rw (plain, free, good, parse_header_name)
                        (rw lower
                          (IsOther-of_guards (to_ascii_lowercase (trim name)) managed plain free))
                ]
              ]
        ]

    parse_header_pair-IsOther : (pair : HeaderPair) → OnOk IsOtherPair (parse_header_pair H pair)
    unfolding parse_header_pair
    parse_header_pair-IsOther pair =
        bind-OnOk IsOther IsOtherPair (parse_header_name H pair.name) _
          (parse_header_name-IsOther pair.name)
          (λ name o.
            then-OnOk IsOtherPair (map_err (header_value pair.name) (from_str (trim pair.value))) _
              (λ v. o))

    parse_header_pairs-IsOther :
        (pairs : List HeaderPair) → OnOk (All IsOtherPair) (parse_header_pairs H pairs)
    unfolding parse_header_pairs
    parse_header_pairs-IsOther pairs =
        collect-All IsOtherPair (parse_header_pair H) parse_header_pair-IsOther pairs

    -- The header is not touched by the actions.
    abbrev Spares : List Text → List (Text × Value) → List (Text × Value) → Type 0
    Spares removed added set = All IsOther removed × All IsOtherPair added × All IsOtherPair set

    get_all-removed :
        (names : List Text) (h : Headers)
        → All IsOther names
        → get_all n (remove_all H names h) ≡ get_all n h
    unfolding remove_all
    get_all-removed [] h other = refl
    get_all-removed (name ∷ names) h (here, later) =
        get_all-removed names (remove name h) later ∙ rw (get_all-remove, here)

    get_all-appended :
        (pairs : List (Text × Value)) (h : Headers)
        → All IsOtherPair pairs
        → get_all n (append_all H pairs h) ≡ get_all n h
    unfolding append_all
    get_all-appended [] h other = refl
    get_all-appended ((name, v) ∷ pairs) h (here, later) =
        get_all-appended pairs (append name v h) later ∙ rw (get_all-append, here)

    get_all-set :
        (pairs : List (Text × Value)) (h : Headers)
        → All IsOtherPair pairs
        → get_all n (insert_all H pairs h) ≡ get_all n h
    unfolding insert_all
    get_all-set [] h other = refl
    get_all-set ((name, v) ∷ pairs) h (here, later) =
        get_all-set pairs (insert name v h) later ∙ rw (get_all-insert, here)

    module _ (R : Regexes) where
      abbrev SparesRule : HeaderOverrideRule H R → Type 0
      SparesRule rule = Spares rule.remove rule.add rule.set

      get_all-apply_rule :
          (rule : HeaderOverrideRule H R) (h : Headers)
          → SparesRule rule
          → get_all n (apply_rule H R rule h) ≡ get_all n h
      unfolding apply_rule
      get_all-apply_rule rule h (removed, added, set) =
          get_all-set rule.set _ set
          ∙ get_all-appended rule.add _ added
          ∙ get_all-removed rule.remove h removed

      compile_rule-Spares :
          (config : ResponseHeaderOverrideConfig) → OnOk SparesRule (compile_rule H R config)
      unfolding compile_rule
      compile_rule-Spares config =
          then-OnOk SparesRule
            (map_err (HeaderOverrideError.site config.site) (parse R config.site)) _
            λ entry.
              bind-OnOk (All IsOther) SparesRule
                (collect (parse_header_name H) config.remove_headers) _
                (collect-All IsOther (parse_header_name H) parse_header_name-IsOther
                  config.remove_headers)
                λ removed r.
                  bind-OnOk (All IsOtherPair) SparesRule (parse_header_pairs H config.add_headers) _
                    (parse_header_pairs-IsOther config.add_headers)
                    λ added a.
                      bind-OnOk (All IsOtherPair) SparesRule
                        (parse_header_pairs H config.set_headers) _
                        (parse_header_pairs-IsOther config.set_headers)
                        (λ set s. let all : Spares removed added set = (r, a, s) in all)

      module _ (U : Urls) where
        get_all-apply :
            (rules : HeaderOverridePolicy H R) (h : Headers) (requested final_url : U.Url)
            → All SparesRule rules
            → get_all n (apply H R U rules h requested final_url) ≡ get_all n h
        unfolding apply
        get_all-apply [] h requested final_url spared = refl
        get_all-apply (rule ∷ rules) h requested final_url (here, later) =
            get_all-apply rules _ requested final_url later
            ∙ applied (matches H R U rule requested final_url)
          where
            applied : (b : Bool) → get_all n (if b then apply_rule H R rule h else h) ≡ get_all n h
            applied true = get_all-apply_rule rule h here
            applied false = refl

        -- A policy that compiled changes no value of a header that the proxy manages, whatever its
        -- rules and whichever of them match: hop-by-hop and proxy-injected headers, the length, the
        -- CORS headers, and the diagnostic header.
        pub apply-IsManaged :
            (configs : List ResponseHeaderOverrideConfig) (policy : HeaderOverridePolicy H R)
            (h : Headers) (requested final_url : U.Url)
            → compile_policy H R configs ≡ ok policy
            → get_all n (apply H R U policy h requested final_url) ≡ get_all n h
        unfolding compile_policy
        apply-IsManaged configs policy h requested final_url compiled =
            get_all-apply policy h requested final_url (
              OnOk-eq (All SparesRule) _
                (collect-All SparesRule (compile_rule H R) compile_rule-Spares configs) compiled)
