-- ===== src/Cookie.antt =====
-- src/cookie.zig: a cookie read from a request's Cookie header, and one written for Set-Cookie.
pub mod Jar
pub mod Stored
mod Examples
use dusty.Base.{
  ℕ, suc, ◌+◌, Bool, true, false, ◌&&◌, ◌||◌, not, List, [], ◌∷◌, ◌++◌, Option, none, some, ◌==◌,
  leb, ltb, if◌then◌else◌, length, drop, get_or, split_scalar, codes,
}

-- `std.mem.trimStart` of spaces, and `std.mem.startsWith`.
unfoldable pub trim_start : List ℕ → List ℕ
trim_start [] = []
trim_start (b ∷ bs) = let rest = trim_start bs in if b == b' ' then rest else b ∷ bs

unfoldable pub starts_with : List ℕ → List ℕ → Bool
starts_with bs [] = true
starts_with [] (p ∷ ps) = false
starts_with (b ∷ bs) (p ∷ ps) = b == p && starts_with bs ps

-- The value in a part of the header, none where the loop continues.
unfoldable pub value_in : List ℕ → List ℕ → Option (List ℕ)
unfolding starts_with
value_in name trimmed =
    if leb (length trimmed) (length name)
    then none
    else if not (starts_with trimmed name)
    then none
    else if get_or trimmed (length name) 0 == b'='
    then some (drop (length name + 1) trimmed)
    else none

abbrev pub or_rest : Option (List ℕ) → Option (List ℕ) → Option (List ℕ)
or_rest none rest = rest
or_rest (some value) rest = some value

unfoldable pub get_in : List ℕ → List (List ℕ) → Option (List ℕ)
unfolding value_in trim_start
get_in name [] = none
get_in name (kv ∷ parts) = or_rest (value_in name (trim_start kv)) (get_in name parts)

unfoldable pub get_cookie : List ℕ → List ℕ → Option (List ℕ)
unfolding get_in split_scalar
get_cookie name header = get_in name (split_scalar b';' header)

unfoldable pub one_of : List ℕ → ℕ → Bool
one_of [] b = false
one_of (c ∷ cs) b = b == c || one_of cs b

unfoldable pub bad_in_name : ℕ → Bool
unfolding one_of
bad_in_name b = leb b 0x20 || (leb 0x7f b || one_of (codes "()<>@,;:\\\"/[]?={}") b)

unfoldable pub bad_in_value : ℕ → Bool
unfolding one_of
bad_in_value b = ltb b 0x20 || (leb 0x7f b || one_of (codes ";\\\"") b)

unfoldable pub any_byte : (ℕ → Bool) → List ℕ → Bool
any_byte test [] = false
any_byte test (b ∷ bs) = test b || any_byte test bs

-- Whether `validateCookieName` and `validateCookieValue` return without an error.
unfoldable pub validate_cookie_name : List ℕ → Bool
unfolding any_byte bad_in_name
validate_cookie_name [] = false
validate_cookie_name (b ∷ bs) = not (any_byte bad_in_name (b ∷ bs))

unfoldable pub validate_cookie_value : List ℕ → Bool
unfolding any_byte bad_in_value
validate_cookie_value value = not (any_byte bad_in_value value)

-- The value in quotes when it has a space or a comma.
unfoldable pub quoted : List ℕ → List ℕ
unfolding any_byte one_of
quoted value = if any_byte (one_of (codes ", ")) value then b'"' ∷ (value ++ b'"' ∷ []) else value

pub data SameSite : Type 0 where
  lax strict none_site : SameSite

-- `max_age` is the text of its seconds.
pub record CookieOpts : Type 0 where
  pub path : List ℕ
  pub domain : List ℕ
  pub max_age : Option (List ℕ)
  pub secure : Bool
  pub http_only : Bool
  pub partitioned : Bool
  pub same_site : Option SameSite

abbrev pub site_text : SameSite → List ℕ
site_text lax = codes "; SameSite=Lax"
site_text strict = codes "; SameSite=Strict"
site_text none_site = codes "; SameSite=None"

abbrev pub text_or_none : List ℕ → List ℕ → List ℕ
text_or_none label [] = []
text_or_none label (b ∷ bs) = label ++ (b ∷ bs)

abbrev pub max_age_text : Option (List ℕ) → List ℕ
max_age_text none = []
max_age_text (some seconds) = codes "; Max-Age=" ++ seconds

abbrev pub same_site_text : Option SameSite → List ℕ
same_site_text none = []
same_site_text (some site) = site_text site

unfoldable pub attributes : CookieOpts → List ℕ
attributes opts =
    text_or_none (codes "; Path=") (opts.path)
    ++ (text_or_none (codes "; Domain=") (opts.domain)
        ++ (max_age_text (opts.max_age)
            ++ ((if opts.http_only then codes "; HttpOnly" else [])
                ++ ((if opts.secure then codes "; Secure" else [])
                    ++ ((if opts.partitioned then codes "; Partitioned" else [])
                        ++ same_site_text (opts.same_site))))))

-- None is an error.
unfoldable pub serialize_cookie : List ℕ → List ℕ → CookieOpts → Option (List ℕ)
unfolding validate_cookie_name validate_cookie_value quoted attributes
serialize_cookie name value opts =
    if not (validate_cookie_name name)
    then none
    else if not (validate_cookie_value value)
    then none
    else some ((name ++ b'=' ∷ quoted value) ++ attributes opts)
