-- ===== src/Llhttp/Http.antt =====
-- src/llhttp/http.c: what the parser does between the headers, the body and the next message.
use dusty.Base.{ℕ, ◌/◌, Bool, true, false, not, ◌&&◌, ◌||◌, ◌==◌, ltb, if◌then◌else◌, bit_or}
use dusty.Llhttp.{
  Parser, has, is_request, is_response, finish_safe, f_connection_keep_alive, f_connection_close,
  f_connection_upgrade, f_chunked, f_upgrade, f_content_length, f_skipbody, f_transfer_encoding,
  lenient_chunked_length, lenient_transfer_encoding, http_connect,
}

unfoldable pub before_headers_complete : Parser → ℕ × Parser
before_headers_complete p =
    if has p.flags f_upgrade && has p.flags f_connection_upgrade
    then (0, record p { upgrade = is_request p.kind || p.status_code == 101 })
    else (0, record p { upgrade = p.method == http_connect })

unfoldable pub message_needs_eof : Parser → Bool
message_needs_eof p =
    if is_request p.kind
    then false
    else if p.status_code / 100 == 1
        || (p.status_code == 204 || (p.status_code == 304 || has p.flags f_skipbody))
    then false
    else if has p.flags f_transfer_encoding && not (has p.flags f_chunked)
    then true
    else if has p.flags (bit_or f_chunked f_content_length)
    then false
    else true

unfoldable pub should_keep_alive : Parser → Bool
unfolding message_needs_eof
should_keep_alive p =
    if ltb 0 p.http_major && ltb 0 p.http_minor
    then (if has p.flags f_connection_close then false else not (message_needs_eof p))
    else (if not (has p.flags f_connection_keep_alive) then false else not (message_needs_eof p))

-- The returned number says how the body goes on: see the comment of the source.
unfoldable pub after_headers_complete : Parser → ℕ
unfolding message_needs_eof
after_headers_complete p =
    let has_body = has p.flags f_chunked || ltb 0 p.content_length in
    if (p.upgrade && (p.method == http_connect || (has p.flags f_skipbody || not has_body)))
      || (is_response p.kind && p.status_code == 101)
    then 1
    else if is_response p.kind && p.status_code == 100
    then 0
    else if has p.flags f_skipbody
        || (is_response p.kind
            && (p.status_code == 102
                || (p.status_code == 103 || (p.status_code == 204 || p.status_code == 304))))
    then 0
    else if has p.flags f_chunked
    then 2
    else if has p.flags f_transfer_encoding
    then (if is_request p.kind
          && (not (has p.lenient_flags lenient_chunked_length)
              && not (has p.lenient_flags lenient_transfer_encoding))
        then 5
        else 4)
    else if not (has p.flags f_content_length)
    then (if not (message_needs_eof p) then 0 else 4)
    else if p.content_length == 0
    then 0
    else 3

unfoldable pub after_message_complete : Parser → Bool × Parser
unfolding should_keep_alive
after_message_complete p = (should_keep_alive p, record p { finish = finish_safe; flags = 0 })
