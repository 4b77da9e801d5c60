-- ===== src/Llhttp/Bodies.antt =====
-- The framing of a message body in RFC 7230, section 3.3.3, on the fields of the parser of
-- src/llhttp.
use dusty.Base.{ℕ, ◌/◌, ◌<◌, ◌≡◌, Bool, true, false, not, ◌&&◌, ◌||◌, ◌==◌, ltb, if◌then◌else◌}
use dusty.Llhttp.{
  Parser, f_upgrade, f_connection_upgrade, has, is_request, is_response, f_chunked,
  f_content_length, f_skipbody, f_transfer_encoding, lenient_chunked_length,
  lenient_transfer_encoding, http_connect,
}

-- How a body goes on.
pub data Body : Type 0 where
  no_body other_protocol chunked sized until_close malformed : Body

-- The numbers that the generated machine is given for them.
abbrev pub code : Body → ℕ
code no_body = 0
code other_protocol = 1
code chunked = 2
code sized = 3
code until_close = 4
code malformed = 5

-- The cases of section 3.3.3 in their order, after a switch of protocols.
abbrev pub framing :
    (request switches bodiless transfer_encoding final_chunked lenient has_length
      zero_length : Bool)
    → Body
framing request switches bodiless transfer_encoding final_chunked lenient has_length zero_length =
    if switches
    then other_protocol
    else if bodiless
    then no_body
    else if transfer_encoding
    then (if final_chunked
        then chunked
        else if request && not lenient
        then malformed
        else until_close)
    else if has_length
    then (if zero_length then no_body else sized)
    else if request
    then no_body
    else until_close

-- A response with one of these has no body.
abbrev pub bodiless_status : ℕ → Bool
bodiless_status status = status / 100 == 1 || (status == 204 || status == 304)

-- The fields ask for another protocol, and announce a body.
abbrev pub asks_upgrade : Parser → Bool
asks_upgrade p = has p.flags f_upgrade && has p.flags f_connection_upgrade

abbrev pub announces_body : Parser → Bool
announces_body p = has p.flags f_chunked || ltb 0 p.content_length

-- Another protocol follows the headers: behind a CONNECT, behind a request that asks for it and has
-- no body, and behind a response 101.
abbrev pub switches : Parser → Bool
switches p =
    if is_request p.kind
    then p.method == http_connect
      || (asks_upgrade p && (has p.flags f_skipbody || not (announces_body p)))
    else p.status_code == 101

abbrev pub bodiless : Parser → Bool
bodiless p = has p.flags f_skipbody || (is_response p.kind && bodiless_status p.status_code)

abbrev pub lenient : Parser → Bool
lenient p =
    has p.lenient_flags lenient_chunked_length || has p.lenient_flags lenient_transfer_encoding

-- What the generated machine has established behind the headers: the flags that it sets are below
-- 1024, the message is a request or a response, a response has no method, and the chunked coding is a
-- transfer coding.
pub record IsParsed (p : Parser) : Type 0 where
  pub flags : p.flags < 1024
  pub request_or_response : is_response p.kind ≡ not (is_request p.kind)
  pub no_method : is_request p.kind ≡ false → (p.method == http_connect) ≡ false
  pub chunked : has p.flags f_chunked ≡ true → has p.flags f_transfer_encoding ≡ true

-- A response with an interim status that no test of the code names.
abbrev pub unlisted : Parser → Bool
unlisted p = is_response p.kind && (ltb 103 p.status_code && ltb p.status_code 200)

-- The framing of the message whose headers a parser holds.
unfoldable pub framed : Parser → Body
framed p =
    framing (is_request p.kind) (switches p) (bodiless p) (has p.flags f_transfer_encoding)
      (has p.flags f_chunked) (lenient p) (has p.flags f_content_length) (p.content_length == 0)

-- The framing of one that has a body just when its fields announce one.
unfoldable pub announced : Parser → Body
announced p =
    framing true false (has p.flags f_skipbody) (has p.flags f_transfer_encoding)
      (has p.flags f_chunked) true (has p.flags f_content_length) (p.content_length == 0)

-- The bodies with an unknown coding that are read on though no test of the end of the message says
-- so: of a response with an unlisted status, and of a request that is read leniently.
abbrev pub read_on : Parser → Bool
read_on p =
    has p.flags f_transfer_encoding
    && (not (has p.flags f_chunked)
        && (not (has p.flags f_skipbody) && (unlisted p || (is_request p.kind && lenient p))))
