-- ===== src/Pusher/Urls.antt =====
-- Addresses with a port and a path, read back.
use native.Mathlib.Numerals.{add-one}
use capacity_agent.Base.{
  ℕ, suc, ◌≡◌, refl, ap, ◌∙◌, Bool, false, ◌==◌, ◌||◌, Option, none, some, [], ◌∷◌, ◌++◌, Text,
  codes, text_eq, take, drop, length, arith,
}
use capacity_agent.Base.Int.{ℤ}
use capacity_agent.Pipe.{find}
use capacity_agent.Pusher.{
  find_text, rfind, parsed, slash, colon, parse_authority, parse_rest, parse_url,
}

-- Whether a byte is in a text.
unfoldable pub has : ℕ → Text → Bool
has c [] = false
has c (b ∷ text) = (b == c) || has c text

find-append : (c : ℕ) (s t : Text) → has c s ≡ false → find c (s ++ c ∷ t) ≡ some (length s)
unfolding find has
find-append c [] t h = ground arith
find-append c (b ∷ s) t h = ground (arith, find-append c s t)

rfind-none : (c : ℕ) (t : Text) → has c t ≡ false → rfind c t ≡ none
unfolding rfind has
rfind-none c [] h = refl
rfind-none c (b ∷ t) h = ground (arith, rfind-none c t)

rfind-append : (c : ℕ) (s t : Text) → has c t ≡ false → rfind c (s ++ c ∷ t) ≡ some (length s)
unfolding rfind
rfind-append c [] t h = let e = rfind-none c t h in ground arith
rfind-append c (b ∷ s) t h = rw (rfind-append c s t h) refl

has-append : (c : ℕ) (s t : Text) → has c (s ++ t) ≡ (has c s || has c t)
unfolding has
has-append c [] t = refl
has-append c (b ∷ s) t = ground (arith, has-append c s t)

take-append_lem : (s t : Text) → take (length s) (s ++ t) ≡ s
take-append_lem [] [] = refl
take-append_lem [] (c ∷ t) = refl
take-append_lem (c ∷ s) t = ap (λ r. c ∷ r) (take-append_lem s t)

drop-append_lem : (s t : Text) → drop (length s) (s ++ t) ≡ t
drop-append_lem [] t = refl
drop-append_lem (c ∷ s) t = drop-append_lem s t

drop-append_suc : (s : Text) (c : ℕ) (t : Text) → drop (suc (length s)) (s ++ c ∷ t) ≡ t
drop-append_suc [] c t = refl
drop-append_suc (b ∷ s) c t = drop-append_suc s c t

-- The address "http://host:port/path".
abbrev pub address : ℕ → Text → Text → Text → Text
address first host digits path =
    codes "http://" ++ ((first ∷ host) ++ colon ∷ digits) ++ slash ∷ path

module _ (stoi : Text → Option ℤ) where
  authority_lem :
      (first : ℕ) (host digits path : Text) (port : ℤ)
      → has colon digits ≡ false
      → stoi digits ≡ some port
      → parse_authority stoi false ((first ∷ host) ++ colon ∷ digits) path
        ≡ parsed (record { host = first ∷ host; port = port; path = path })
  unfolding parse_authority
  authority_lem first host digits path port h e =
      rw
        (
          rfind-append colon (first ∷ host) digits h,
          add-one (length (first ∷ host)),
          drop-append_suc (first ∷ host) colon digits,
          e,
          take-append_lem (first ∷ host) (colon ∷ digits),
        )
        refl

  rest_lem :
      (authority path : Text)
      → has slash authority ≡ false
      → parse_rest stoi false (authority ++ slash ∷ path)
        ≡ parse_authority stoi false authority (slash ∷ path)
  unfolding parse_rest
  rest_lem authority path h =
      rw
        (
          parse_rest,
          find-append slash authority path h,
          take-append_lem authority (slash ∷ path),
          drop-append_lem authority (slash ∷ path),
        )
        refl

  -- An address "http://host:port/path" whose host is not empty and has no slash, and whose port has
  -- neither slash nor colon and is read by `stoi`, is taken apart into its host, its port and its path,
  -- with the slash.
  pub parse_url-address :
      (first : ℕ) (host digits path : Text) (port : ℤ)
      → has slash (first ∷ host) ≡ false
      → has slash digits ≡ false
      → has colon digits ≡ false
      → stoi digits ≡ some port
      → parse_url stoi (address first host digits path)
        ≡ parsed (record { host = first ∷ host; port = port; path = slash ∷ path })
  unfolding parse_url find_text text_eq
  parse_url-address first host digits path port h k l e =
      let authority = (first ∷ host) ++ colon ∷ digits in
      let no_slash : has slash authority ≡ false =
        has-append slash (first ∷ host) (colon ∷ digits) ∙ (unfold has in ground arith) in
      rest_lem authority path no_slash ∙ authority_lem first host digits (slash ∷ path) port l e
