-- ===== src/Cookie/Stored.antt =====
-- src/cookie.zig: cookies that were set and come back in a Cookie header, by RFC 6265 sections 5.2
-- and 5.4: a user agent keeps the text before the first semicolon and joins what it has with "; ".
use dusty.Base.{
  ℕ, ◌≡◌, ◌⊎◌, refl, ap, sym, ◌∙◌, subst, Bool, true, false, List, [], ◌∷◌, ◌++◌, Option, none,
  some, arith, if◌then◌else◌, push_first, split_scalar, split_scalar-Lacks, split_scalar-append,
  Lacks, codes, bytes_eq, Bool-cases, inl, inr, append-nil,
}
use dusty.Cookie.{
  trim_start, value_in, or_rest, get_in, get_cookie, validate_cookie_name, validate_cookie_value,
  quoted, CookieOpts, attributes, serialize_cookie, text_or_none, max_age_text, same_site_text,
  SameSite, lax, strict, none_site, bad_in_name, one_of,
}
use dusty.Cookie.Jar.{value_in-pair, name-Lacks, quoted-Lacks, Lacks-append}

abbrev pub first_part : List (List ℕ) → List ℕ
first_part [] = []
first_part (part ∷ parts) = part

-- Cookies by name and value, and the header that a user agent makes of their Set-Cookie texts.
pub data SentBack : List (List ℕ × List ℕ) → List ℕ → Type 0 where
  last :
      (name value : List ℕ) (opts : CookieOpts) (text : List ℕ)
      → serialize_cookie name value opts ≡ some text
      → SentBack ((name, value) ∷ []) (first_part (split_scalar b';' text))
  more :
      {cookies : List (List ℕ × List ℕ)} {header : List ℕ} (name value : List ℕ) (opts : CookieOpts)
      (text : List ℕ)
      → serialize_cookie name value opts ≡ some text
      → SentBack cookies header
      → SentBack
          ((name, value) ∷ cookies)
          (first_part (split_scalar b';' text) ++ b';' ∷ b' ' ∷ header)

-- The first of the cookies with a name, in the quotes that it was written with.
unfoldable pub first_named : List ℕ → List (List ℕ × List ℕ) → Option (List ℕ)
first_named name [] = none
first_named name ((k, v) ∷ cookies) =
    if bytes_eq k name then some (quoted v) else first_named name cookies

-- Nothing, or a semicolon first.
abbrev Attached : List ℕ → Type 0
Attached xs = (xs ≡ []) ⊎ ((rest : List ℕ) × (xs ≡ b';' ∷ rest))

Attached-append : (xs ys : List ℕ) → Attached xs → Attached ys → Attached (xs ++ ys)
Attached-append xs ys (inl e) b = subst (λ t. Attached (t ++ ys)) (sym e) b
Attached-append xs ys (inr x) b = inr (x.0 ++ ys, ap (λ t. t ++ ys) x.1)

Attached-text_or_none : (label text : List ℕ) → Attached (text_or_none (b';' ∷ label) text)
Attached-text_or_none label [] = inl refl
Attached-text_or_none label (b ∷ bs) = inr (label ++ (b ∷ bs), refl)

Attached-max_age_text : (age : Option (List ℕ)) → Attached (max_age_text age)
Attached-max_age_text none = inl refl
Attached-max_age_text (some seconds) = inr (_, refl)

Attached-flag : (b : Bool) (label : List ℕ) → Attached (if b then b';' ∷ label else [])
Attached-flag true label = inr (label, refl)
Attached-flag false label = inl refl

Attached-same_site_text : (site : Option SameSite) → Attached (same_site_text site)
Attached-same_site_text none = inl refl
Attached-same_site_text (some lax) = inr (_, refl)
Attached-same_site_text (some strict) = inr (_, refl)
Attached-same_site_text (some none_site) = inr (_, refl)

Attached-attributes : (opts : CookieOpts) → Attached (attributes opts)
unfolding attributes
Attached-attributes opts =
    Attached-append _ _ (Attached-text_or_none (codes " Path=") (opts.path)) (
      Attached-append _ _ (Attached-text_or_none (codes " Domain=") (opts.domain)) (
        Attached-append _ _ (Attached-max_age_text (opts.max_age)) (
          Attached-append _ _ (Attached-flag (opts.http_only) (codes " HttpOnly")) (
            Attached-append _ _ (Attached-flag (opts.secure) (codes " Secure")) (
              Attached-append _ _ (Attached-flag (opts.partitioned) (codes " Partitioned"))
                (Attached-same_site_text (opts.same_site)))))))

first_part-Attached :
    (pair xs : List ℕ)
    → Lacks b';' pair
    → Attached xs
    → first_part (split_scalar b';' (pair ++ xs)) ≡ pair
first_part-Attached pair xs h (inl e) =
    ap (λ t. first_part (split_scalar b';' t)) (ap (λ t. pair ++ t) e ∙ append-nil pair)
    ∙ ap first_part (split_scalar-Lacks b';' pair h)
first_part-Attached pair xs h (inr x) =
    ap (λ t. first_part (split_scalar b';' (pair ++ t))) x.1
    ∙ ap first_part (split_scalar-append b';' pair x.0 h)

abbrev pair_of : List ℕ → List ℕ → List ℕ
pair_of name value = name ++ b'=' ∷ quoted value

-- What is known of a cookie that was written.
abbrev IsWritten : List ℕ → List ℕ → List ℕ → Type 0
IsWritten name value text =
    (validate_cookie_name name ≡ true)
    × Lacks b';' (pair_of name value)
    × (first_part (split_scalar b';' text) ≡ pair_of name value)

IsWritten-serialize_cookie :
    (name value : List ℕ) (opts : CookieOpts) (text : List ℕ)
    → serialize_cookie name value opts ≡ some text
    → IsWritten name value text
unfolding serialize_cookie bad_in_name one_of
IsWritten-serialize_cookie name value opts text h = elim (Bool-cases (validate_cookie_name name)) [
  | inr e ↦ absurd (ground (arith, e, h))
  | inl e ↦ elim (Bool-cases (validate_cookie_value value)) [
    | inr f ↦ absurd (ground (arith, e, f, h))
    | inl f ↦
        let whole : pair_of name value ++ attributes opts ≡ text = ground (arith, e, f, h) in
        let lacks : Lacks b';' (pair_of name value) =
          Lacks-append b';' name (b'=' ∷ quoted value) (name-Lacks b';' name refl e)
            (refl, quoted-Lacks value f) in
        (
          e,
          lacks,
          subst (λ t. first_part (split_scalar b';' t) ≡ pair_of name value) whole
              (first_part-Attached (pair_of name value) (attributes opts) lacks
                (Attached-attributes opts)),
        )
  ]
]

trim_start-name :
    (name rest : List ℕ)
    → validate_cookie_name name ≡ true
    → trim_start (name ++ rest) ≡ name ++ rest
unfolding trim_start validate_cookie_name bad_in_name one_of
trim_start-name [] rest h = absurd (ground (arith, h))
trim_start-name (b ∷ bs) rest h =
    let not_space = (name-Lacks b' ' (b ∷ bs) refl h).0 in rw not_space refl

-- The pair's part of the header, whatever follows.
part_value :
    (name key value text : List ℕ)
    → Lacks b'=' name
    → IsWritten key value text
    → value_in name (trim_start (pair_of key value))
      ≡ (if bytes_eq key name then some (quoted value) else none)
unfolding bad_in_name one_of
part_value name key value text h w =
    ap (value_in name) (trim_start-name key (b'=' ∷ quoted value) w.0)
    ∙ value_in-pair name key (quoted value) h (name-Lacks b'=' key refl w.0)

or_rest-found :
    (b : Bool) (v : List ℕ) (o : Option (List ℕ))
    → or_rest (if b then some v else none) o ≡ (if b then some v else o)
or_rest-found true v o = refl
or_rest-found false v o = refl

skips_space :
    (name : List ℕ) (parts : List (List ℕ))
    → get_in name (push_first b' ' parts) ≡ get_in name parts
unfolding push_first get_in trim_start value_in
skips_space name [] = ground arith
skips_space name (part ∷ parts) = refl

-- The space behind a semicolon is not seen.
get_in-space :
    (name header : List ℕ)
    → get_in name (split_scalar b';' (b' ' ∷ header)) ≡ get_in name (split_scalar b';' header)
unfolding split_scalar
get_in-space name header = skips_space name (split_scalar b';' header)

get_in-SentBack :
    (name : List ℕ) (cookies : List (List ℕ × List ℕ)) (header : List ℕ)
    → Lacks b'=' name
    → SentBack cookies header
    → get_in name (split_scalar b';' header) ≡ first_named name cookies
unfolding get_in first_named
get_in-SentBack name _ _ h (last key value opts text written) =
    let w = IsWritten-serialize_cookie key value opts text written in
    ap (λ t. get_in name (split_scalar b';' t)) w.2
    ∙ ap (get_in name) (split_scalar-Lacks b';' (pair_of key value) w.1)
    ∙ ap (λ o. or_rest o none) (part_value name key value text h w)
    ∙ or_rest-found (bytes_eq key name) (quoted value) none
get_in-SentBack name _ _ h
      (more {cookies = cookies} {header = header} key value opts text written back) =
    let w = IsWritten-serialize_cookie key value opts text written in
    ap (λ t. get_in name (split_scalar b';' (t ++ b';' ∷ b' ' ∷ header))) w.2
    ∙ ap (get_in name) (split_scalar-append b';' (pair_of key value) (b' ' ∷ header) w.1)
    ∙ ap (λ o. or_rest o (get_in name (split_scalar b';' (b' ' ∷ header))))
        (part_value name key value text h w)
    ∙ or_rest-found (bytes_eq key name) (quoted value)
        (get_in name (split_scalar b';' (b' ' ∷ header)))
    ∙ ap (λ o. if bytes_eq key name then some (quoted value) else o)
        (get_in-space name header ∙ get_in-SentBack name cookies header h back)

-- When cookies are written without an error, whatever their options, and a user agent sends them
-- back in one header, each cut at the first semicolon of its text, then a lookup of a name without
-- an equals sign gives the value of the first cookie with that name, in quotes if it was written in
-- quotes, and none when no cookie has the name: no value or option of one cookie is read as
-- another.
pub get_cookie-SentBack :
    (name : List ℕ) (cookies : List (List ℕ × List ℕ)) (header : List ℕ)
    → Lacks b'=' name
    → SentBack cookies header
    → get_cookie name header ≡ first_named name cookies
unfolding get_cookie
get_cookie-SentBack name cookies header h back = get_in-SentBack name cookies header h back
