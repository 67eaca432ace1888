-- ===== src/Samples/Codecs.antt =====
-- A codec of cache entries: each field in turn, lists and texts behind their lengths.
use corsget.Prelude.{
  ℕ, zero, suc, ◌≡◌, refl, sym, ap, ◌∙◌, Bool, true, false, Option, none, some, List, [], ◌∷◌, ok,
  ok_or, length, ok-injective,
}
use corsget.Text.{Text, text}
use corsget.External.Codecs.{Codec}
use corsget.Cache.{CacheEntry}
use corsget.Cache.Files.{persisted}

-- A value in front of other bytes, and the reading of it.
pub record Field (A : Type 0) : Type 0 where
  pub enc : A → Text → Text
  pub dec : Text → Option (A × Text)
  pub dec-enc : (a : A) (rest : Text) → dec (enc a rest) ≡ some (a, rest)

abbrev pub and_then : {A B : Type 0} → Option (A × Text) → (A → Text → Option B) → Option B
and_then none f = none
and_then (some (a, rest)) f = f a rest

abbrev pub dec_number : Text → Option (ℕ × Text)
dec_number [] = none
dec_number (n ∷ rest) = some (n, rest)

abbrev pub number : Field ℕ
number = record { enc = λ n rest. n ∷ rest; dec = dec_number; dec-enc = λ n rest. refl }

abbrev pub enc_flag : Bool → Text → Text
enc_flag true rest = 1 ∷ rest
enc_flag false rest = 0 ∷ rest

abbrev pub dec_flag : Text → Option (Bool × Text)
dec_flag [] = none
dec_flag (zero ∷ rest) = some (false, rest)
dec_flag (suc n ∷ rest) = some (true, rest)

pub flag_law : (b : Bool) (rest : Text) → dec_flag (enc_flag b rest) ≡ some (b, rest)
flag_law true rest = refl
flag_law false rest = refl

abbrev pub flag : Field Bool
flag = record { enc = enc_flag; dec = dec_flag; dec-enc = flag_law }

module _ {A : Type 0} (F : Field A) where
  open F use {enc, dec, dec-enc}

  abbrev pub enc_all : List A → Text → Text
  enc_all [] rest = rest
  enc_all (a ∷ xs) rest = enc a (enc_all xs rest)

  abbrev pub dec_all : ℕ → Text → Option (List A × Text)
  dec_all zero s = some ([], s)
  dec_all (suc n) s = and_then (dec s) λ a s'. and_then (dec_all n s') λ xs s''. some (a ∷ xs, s'')

  pub all_law :
      (xs : List A) (rest : Text) → dec_all (length xs) (enc_all xs rest) ≡ some (xs, rest)
  all_law [] rest = refl
  all_law (a ∷ xs) rest = rw (dec_all, dec-enc a (enc_all xs rest), all_law xs rest)

  abbrev pub dec_list : Text → Option (List A × Text)
  dec_list [] = none
  dec_list (n ∷ s) = dec_all n s

  abbrev pub many : Field (List A)
  many = record { enc = λ xs rest. length xs ∷ enc_all xs rest; dec = dec_list; dec-enc = all_law }

  abbrev pub enc_option : Option A → Text → Text
  enc_option none rest = 0 ∷ rest
  enc_option (some a) rest = 1 ∷ enc a rest

  abbrev pub dec_option : Text → Option (Option A × Text)
  dec_option [] = none
  dec_option (zero ∷ s) = some (none, s)
  dec_option (suc n ∷ s) = and_then (dec s) λ a s'. some (some a, s')

  pub option_law : (o : Option A) (rest : Text) → dec_option (enc_option o rest) ≡ some (o, rest)
  option_law none rest = refl
  option_law (some a) rest = rw (dec_option, dec-enc a rest)

  abbrev pub optional : Field (Option A)
  optional = record { enc = enc_option; dec = dec_option; dec-enc = option_law }

abbrev pub string : Field Text
string = many number

abbrev pub pair : Field (Text × Text)
pair = record {
  enc = λ (a, b) rest. string.enc a (string.enc b rest);
  dec = λ s. and_then (string.dec s) λ a s'. and_then (string.dec s') λ b s''. some ((a, b), s'');
  dec-enc = λ (a, b) rest. rw (all_law number a (string.enc b rest), all_law number b rest);
}

abbrev pub enc_entry : CacheEntry → Text
enc_entry e = number.enc e.version (
    number.enc e.status (
      (many pair).enc e.headers (
        number.enc e.body_len (
          number.enc e.created_at (
            number.enc e.last_access (
              number.enc e.ttl (
                flag.enc e.revalidate (
                  (optional string).enc e.etag (
                    (optional string).enc e.last_modified
                      ((many string).enc e.vary ((many pair).enc e.request_variants [])))))))))))

abbrev pub dec_entry : Text → Option CacheEntry
dec_entry s = and_then (number.dec s) λ version s1. and_then (number.dec s1) λ status s2.
    and_then ((many pair).dec s2) λ headers s3. and_then (number.dec s3) λ body_len s4.
      and_then (number.dec s4) λ created_at s5. and_then (number.dec s5) λ last_access s6.
        and_then (number.dec s6) λ ttl s7. and_then (flag.dec s7) λ revalidate s8.
          and_then ((optional string).dec s8) λ etag s9.
            and_then ((optional string).dec s9) λ last_modified s10.
              and_then ((many string).dec s10) λ vary s11.
                and_then ((many pair).dec s11) λ request_variants s12. some (record {
                  version = version;
                  status = status;
                  headers = headers;
                  body_len = body_len;
                  created_at = created_at;
                  last_access = last_access;
                  ttl = ttl;
                  revalidate = revalidate;
                  etag = etag;
                  last_modified = last_modified;
                  vary = vary;
                  request_variants = request_variants;
                  key = [];
                  body_path = [];
                })

pub dec_entry-enc_entry : (e : CacheEntry) → dec_entry (enc_entry e) ≡ some (persisted e)
dec_entry-enc_entry e =
    let s11 = (many pair).enc e.request_variants [] in
    let s10 = (many string).enc e.vary s11 in
    let s9 = (optional string).enc e.last_modified s10 in
    let s8 = (optional string).enc e.etag s9 in
    let s7 = flag.enc e.revalidate s8 in
    let s3 =
      number.enc e.body_len
        (number.enc e.created_at (number.enc e.last_access (number.enc e.ttl s7))) in
    rw (
      dec_entry,
      (many pair).dec-enc e.headers s3,
      flag.dec-enc e.revalidate s8,
      (optional string).dec-enc e.etag s9,
      (optional string).dec-enc e.last_modified s10,
      (many string).dec-enc e.vary s11,
      (many pair).dec-enc e.request_variants [],
    )

-- Every entry is written.
abbrev pub entry_codec : Codec CacheEntry persisted
entry_codec = record {
  to_vec = λ e. ok (enc_entry e);
  from_slice = λ s. ok_or (text "expected value") (dec_entry s);
  from_slice-to_vec = λ e bytes same.
      ap (λ s. ok_or (text "expected value") (dec_entry s)) (sym (ok-injective same))
      ∙ ap (ok_or (text "expected value")) (dec_entry-enc_entry e);
}
