-- ===== src/Response/Cookies.antt =====
-- src/response.zig, `setCookie`.
use dusty.Base.{ℕ, not, List, Option, none, some, if◌then◌else◌, codes}
use dusty.Headers.{Headers, add}
use dusty.Cookie.{CookieOpts, serialize_cookie}
use dusty.Response.{
  Response, Result, done, failed, headers_already_sent, invalid_cookie, invalid_header_value,
  too_many_headers, validate_header_value,
}

abbrev pub add_header : Response → Option Headers → Result
add_header r none = failed too_many_headers r
add_header r (some headers) = done (record r { headers = headers })

abbrev pub add_cookie : Response → Option (List ℕ) → Result
unfolding validate_header_value add
add_cookie r none = failed invalid_cookie r
add_cookie r (some serialized) =
    if not (validate_header_value serialized)
    then failed invalid_header_value r
    else add_header r (add (codes "Set-Cookie") serialized (r.headers))

unfoldable pub set_cookie : List ℕ → List ℕ → CookieOpts → Response → Result
unfolding serialize_cookie add_cookie
set_cookie name value opts r =
    if r.headers_written
    then failed headers_already_sent r
    else add_cookie r (serialize_cookie name value opts)
