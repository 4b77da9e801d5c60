-- ===== src/Client/Write.antt =====
-- src/client.zig, `writeRequest`: the request that is sent for a fetch. None is an error of a
-- check, with which the connection is closed.
pub mod Sent
pub mod Plain
use dusty.Base.{
  ℕ, Bool, true, false, not, ◌||◌, ◌&&◌, List, [], ◌∷◌, ◌++◌, Option, none, some, ◌==◌,
  if◌then◌else◌, length, eql_ignore_case, codes,
}
use dusty.Response.{decimal, validate_header_name, validate_header_value}
use dusty.Client.{Protocol, http, https, default_port}
use dusty.Client.Redirect.{Fields, Method, method_name, Uri, FetchOptions, FetchState}

unfoldable pub named : List (List ℕ) → List ℕ → Bool
unfolding eql_ignore_case
named [] name = false
named (n ∷ names) name = eql_ignore_case name n || named names name

abbrev pub sensitive_headers : List (List ℕ)
sensitive_headers =
    codes "Authorization"
    ∷ codes "Www-Authenticate"
    ∷ codes "Cookie"
    ∷ codes "Cookie2"
    ∷ codes "Proxy-Authorization"
    ∷ codes "Proxy-Authenticate"
    ∷ []

abbrev pub body_headers : List (List ℕ)
body_headers =
    codes "Content-Encoding"
    ∷ codes "Content-Language"
    ∷ codes "Content-Location"
    ∷ codes "Content-Type"
    ∷ []

-- Whether the loop continues without writing a field.
unfoldable pub skipped : Bool → Bool → List ℕ → Bool
unfolding named
skipped strip_sensitive strip_body name =
    named (codes "Host" ∷ codes "Content-Length" ∷ []) name
    || (strip_sensitive && named sensitive_headers name || strip_body && named body_headers name)

abbrev pub joined : Option Fields → Option Fields → Option Fields
joined none rest = none
joined (some fields) none = none
joined (some fields) (some rest) = some (fields ++ rest)

-- A field whose value is checked, and whose name need not be.
abbrev pub checked : List ℕ → List ℕ → Option Fields
unfolding validate_header_value
checked name value = if validate_header_value value then some ((name, value) ∷ []) else none

unfoldable pub user_fields : Bool → Bool → Fields → Option Fields
unfolding skipped checked validate_header_name
user_fields strip_sensitive strip_body [] = some []
user_fields strip_sensitive strip_body ((name, value) ∷ fields) =
    let rest = user_fields strip_sensitive strip_body fields in
    if skipped strip_sensitive strip_body name
    then rest
    else if not (validate_header_name name)
    then none
    else joined (checked name value) rest

-- `has_referer` and the like.
unfoldable pub has_named : List ℕ → Fields → Bool
unfolding eql_ignore_case
has_named name [] = false
has_named name ((k, v) ∷ fields) = eql_ignore_case k name || has_named name fields

abbrev pub unless_given : Bool → List ℕ → Option (List ℕ) → Option Fields
unfolding checked
unless_given given name none = some []
unless_given given name (some value) = if given then some [] else checked name value

abbrev pub host_value : Uri → List ℕ
host_value uri =
    if uri.port == default_port (uri.protocol)
    then uri.host
    else uri.host ++ b':' ∷ decimal (uri.port)

abbrev pub length_fields : Option (List ℕ) → Fields
length_fields none = []
length_fields (some body) = (codes "Content-Length", decimal (length body)) ∷ []

abbrev pub accept_encoding : FetchOptions → Option Fields
unfolding has_named
accept_encoding options =
    if options.decompress && not (has_named (codes "Accept-Encoding") (options.headers))
    then some ((codes "Accept-Encoding", codes "gzip, deflate") ∷ [])
    else some []

-- The fields of the request that come behind `Host` and `Content-Length`.
unfoldable pub later_fields : Option (List ℕ) → FetchState → Option Fields
unfolding user_fields unless_given accept_encoding has_named
later_fields user_agent state =
    let given = state.options.headers in
    joined (user_fields (state.strip_sensitive_headers) (state.strip_body_headers) given) (
      joined (unless_given (has_named (codes "Referer") given) (codes "Referer") (state.referer)) (
        joined (unless_given (has_named (codes "User-Agent") given) (codes "User-Agent") user_agent)
          (accept_encoding (state.options))))

unfoldable pub request_fields : Option (List ℕ) → FetchState → Option Fields
unfolding later_fields validate_header_value
request_fields user_agent state =
    if not (validate_header_value (state.uri.host))
    then none
    else joined (some ((codes "Host", host_value (state.uri)) ∷ length_fields (state.options.body)))
        (later_fields user_agent state)

abbrev crlf : List ℕ
crlf = 13 ∷ 10 ∷ []

unfoldable pub print_fields : Fields → List ℕ
print_fields [] = crlf
print_fields ((name, value) ∷ fields) =
    name ++ (codes ": " ++ (value ++ (crlf ++ print_fields fields)))

abbrev body_bytes : Option (List ℕ) → List ℕ
body_bytes none = []
body_bytes (some body) = body

abbrev printed : FetchState → Option Fields → Option (List ℕ)
unfolding print_fields
printed state none = none
printed state (some fields) = some (
    method_name (state.options.method)
    ++ (b' '
        ∷ (state.uri.target
            ++ (codes " HTTP/1.1"
                ++ (crlf ++ (print_fields fields ++ body_bytes (state.options.body)))))))

unfoldable pub write_request : Option (List ℕ) → FetchState → Option (List ℕ)
unfolding printed request_fields
write_request user_agent state = printed state (request_fields user_agent state)
