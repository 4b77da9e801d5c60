-- ===== src/Client/Redirect.antt =====
-- src/client.zig, `fetchInternal` where it follows a redirect, and `writeRequest`. A URI is the parts
-- that are used of it.
pub mod Domain
pub mod Secret
use dusty.Base.{
  ℕ, suc, ◌+◌, ◌-◌, Bool, true, false, not, ◌||◌, ◌&&◌, List, [], ◌∷◌, ◌++◌, Option, none, some,
  ◌==◌, leb, ltb, if◌then◌else◌, length, drop, get_or, eql_ignore_case, codes,
}
use dusty.Cookie.{any_byte, one_of}
use dusty.Response.{decimal, validate_header_name, validate_header_value}
use dusty.Client.{Protocol, http, https, default_port, same_protocol}

unfoldable pub is_domain_or_subdomain : List ℕ → List ℕ → Bool
unfolding eql_ignore_case any_byte one_of
is_domain_or_subdomain sub parent =
    if eql_ignore_case sub parent
    then true
    else if any_byte (one_of (codes ":%")) sub
    then false
    else if leb (length sub) (length parent + 1)
    then false
    else (let dot_idx = length sub - length parent - 1 in
        get_or sub dot_idx 0 == b'.' && eql_ignore_case (drop (dot_idx + 1) sub) parent)

-- The methods that the code tells apart, by name otherwise.
pub data Method : Type 0 where
  get head : Method
  other_method : List ℕ → Method

abbrev pub method_name : Method → List ℕ
method_name get = codes "GET"
method_name head = codes "HEAD"
method_name (other_method name) = name

abbrev pub get_or_head : Method → Bool
get_or_head get = true
get_or_head head = true
get_or_head (other_method name) = false

abbrev pub Fields : Type 0
Fields = List (List ℕ × List ℕ)

-- `target` is the path and the query. `written` is what the URI is in a Referer, without userinfo and
-- fragment, none when it is too long.
pub record Uri : Type 0 where
  pub host : List ℕ
  pub port : ℕ
  pub protocol : Protocol
  pub target : List ℕ
  pub written : Option (List ℕ)

pub record FetchOptions : Type 0 where
  pub method : Method
  pub headers : Fields
  pub body : Option (List ℕ)
  pub decompress : Bool

pub record FetchState : Type 0 where
  pub uri : Uri
  pub options : FetchOptions
  pub redirects_remaining : ℕ
  pub initial_host : List ℕ
  pub strip_sensitive_headers : Bool
  pub strip_body_headers : Bool
  pub referer : Option (List ℕ)

-- The state that `fetch` starts from.
abbrev pub fetch : Uri → FetchOptions → ℕ → FetchState
fetch uri options max_redirects = record {
  uri = uri;
  options = options;
  redirects_remaining = max_redirects;
  initial_host = [];
  strip_sensitive_headers = false;
  strip_body_headers = false;
  referer = none;
}

abbrev pub redirect_options : ℕ → FetchOptions → FetchOptions
redirect_options status options =
    if status == 301 || (status == 302 || status == 303)
    then (if not (get_or_head (options.method))
        then record options { method = get; body = none }
        else if status == 303
        then record options { body = none }
        else options)
    else options

abbrev pub or_host : List ℕ → List ℕ → List ℕ
or_host [] host = host
or_host (b ∷ bs) host = b ∷ bs

abbrev pub is_downgrade : Protocol → Protocol → Bool
is_downgrade https http = true
is_downgrade https https = false
is_downgrade http to = false

abbrev pub is_none : Option (List ℕ) → Bool
is_none none = true
is_none (some body) = false

-- `headers.get`, without regard to case.
unfoldable pub field_value : List ℕ → Fields → Option (List ℕ)
unfolding eql_ignore_case
field_value name [] = none
field_value name ((k, v) ∷ fields) =
    if eql_ignore_case k name then some v else field_value name fields

abbrev pub or_written : Option (List ℕ) → Option (List ℕ) → Option (List ℕ)
or_written none written = written
or_written (some existing) written = some existing

abbrev pub redirect_referer : FetchState → Uri → Option (List ℕ)
unfolding field_value
redirect_referer state to =
    if is_downgrade (state.uri.protocol) (to.protocol)
    then none
    else or_written (field_value (codes "Referer") (state.options.headers)) (state.uri.written)

abbrev pub effective_initial_host : FetchState → List ℕ
effective_initial_host state = or_host (state.initial_host) (state.uri.host)

unfoldable pub follow : ℕ → Uri → FetchState → FetchState
unfolding redirect_referer is_domain_or_subdomain
follow status to state = record {
  uri = to;
  options = redirect_options status (state.options);
  redirects_remaining = state.redirects_remaining - 1;
  initial_host = effective_initial_host state;
  strip_sensitive_headers =
      state.strip_sensitive_headers
      || (not (is_domain_or_subdomain (to.host) (effective_initial_host state))
          || is_downgrade (state.uri.protocol) (to.protocol));
  strip_body_headers = is_none ((redirect_options status (state.options)).body);
  referer = redirect_referer state to;
}

-- A response with this status and a Location that resolves is followed.
abbrev pub is_followed : ℕ → FetchState → Bool
is_followed status state = leb 300 status && (ltb status 400 && ltb 0 (state.redirects_remaining))

-- The request after some redirects, none when one of them is not followed.
unfoldable pub follow_all : List (ℕ × Uri) → FetchState → Option FetchState
unfolding follow
follow_all [] state = some state
follow_all ((status, to) ∷ redirects) state =
    let later = follow_all redirects (follow status to state) in
    if is_followed status state then later else none
