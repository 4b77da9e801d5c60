-- ===== src/Llhttp/Examples.antt =====
-- Heads and parsers at concrete values.
use dusty.Base.{
  some, ◌≡◌, ◌↔◌, refl, true, false, ◌||◌, if◌then◌else◌, none, List, [], ◌∷◌, arith, ◌==◌,
}
use dusty.Llhttp.{
  span_callback_error, span_body, Parser, http_request, http_response, paused, finish_safe,
}
use dusty.Llhttp.Http.{
  before_headers_complete, after_headers_complete, message_needs_eof, should_keep_alive,
  after_message_complete,
}
use dusty.Llhttp.Api.{finish}
use dusty.Llhttp.Bodies.{IsParsed, code, framed, announced, unlisted, read_on, switches}
use dusty.Llhttp.Framing.{
  at_body, after_headers_complete-framed, until_close-needs_eof, until_close-not_kept,
}
use dusty.Llhttp.Control.{IsFailed, Call, run_all, run_all-IsFailed, Mode, Same, run_all-IsIn}
use dusty.Llhttp.Callbacks.{Settings, SpanCallback, minus_one, hpe_user}
use dusty.Llhttp.Spans.{on_span, callback_of, on_span-user_error}

-- A response of HTTP/1.1 with status 200 and no length, kept alive by default.
abbrev response : Parser
response = record {
  index = 0;
  span_pos0 = 0;
  span_cb0 = 0;
  error = 0;
  reason = paused;
  error_pos = 0;
  user = 7;
  current = 3;
  content_length = 0;
  kind = http_response;
  method = 0;
  http_major = 1;
  http_minor = 1;
  header_state = 0;
  lenient_flags = 0x10;
  upgrade = false;
  finish = finish_safe;
  flags = 0;
  status_code = 200;
  initial_message_completed = 0;
  settings = 9;
}

response-IsParsed : IsParsed response
response-IsParsed = record {
  flags = omega arith;
  request_or_response = refl;
  no_method = λ h. refl;
  chunked = λ h. absurd (ground (arith, h));
}

-- A request with Transfer-Encoding: gzip is refused.
abbrev gzip_request : Parser
gzip_request = record response { kind = http_request; flags = 0x200; method = 3 }

gzip_refused : after_headers_complete gzip_request ≡ 5
unfolding after_headers_complete
gzip_refused = refl

after_headers_complete-framed_example :
    after_headers_complete (at_body response)
    ≡ code (if unlisted response then announced response else framed response)
after_headers_complete-framed_example = after_headers_complete-framed response response-IsParsed

until_close-needs_eof_example : (after_headers_complete (at_body response) ≡ 4) ↔ (
    (switches response ≡ false)
    × ((message_needs_eof (at_body response) || read_on response) ≡ true))
until_close-needs_eof_example = until_close-needs_eof response response-IsParsed

response_until_close : after_headers_complete (at_body response) ≡ 4
unfolding after_headers_complete before_headers_complete
response_until_close = refl

until_close-not_kept_example :
    (should_keep_alive (at_body response) ≡ false)
    × ((after_message_complete (at_body response)).0 ≡ false)
until_close-not_kept_example =
    until_close-not_kept response response-IsParsed refl response_until_close

-- A response 104 with Transfer-Encoding: gzip is read until the connection closes, and is kept.
abbrev hinted : Parser
hinted = record response { status_code = 104; flags = 0x200; lenient_flags = 0 }

hinted_kept :
    (after_headers_complete (at_body hinted) ≡ 4)
    × (message_needs_eof (at_body hinted) ≡ false)
    × (should_keep_alive (at_body hinted) ≡ true)
unfolding after_headers_complete before_headers_complete message_needs_eof should_keep_alive
hinted_kept = (refl, refl, refl)

abbrev failed : Parser
failed = record response { error = 8 }

failed-IsFailed : IsFailed failed
failed-IsFailed = record { error = refl; not_paused = refl; not_upgrade = refl }

abbrev calls : List Call
calls = Call.pause_call ∷ Call.resume_call ∷ Call.resume_after_upgrade_call ∷ []

run_all-IsFailed_example :
    (run_all calls failed ≡ failed) × (finish none (run_all calls failed) ≡ (0, failed))
run_all-IsFailed_example = run_all-IsFailed calls none failed failed-IsFailed

-- A parser that stopped for an upgrade: only the last of these calls lets it go on.
abbrev upgrading : Parser
upgrading = record response { error = 22 }

abbrev calls_behind : List Call
calls_behind = Call.resume_call ∷ calls

run_all-IsIn_example :
    ((run_all calls_behind upgrading).error ≡ 0) × Same upgrading (run_all calls_behind upgrading)
run_all-IsIn_example = run_all-IsIn calls_behind Mode.paused_for_upgrade upgrading refl

-- Settings whose one callback fails on every body.
abbrev failing : SpanCallback
failing start len p = (minus_one, p)

abbrev body_settings : Settings
body_settings = record {
  on_message_begin = none;
  on_protocol = none;
  on_url = none;
  on_status = none;
  on_method = none;
  on_version = none;
  on_header_field = none;
  on_header_value = none;
  on_chunk_extension_name = none;
  on_chunk_extension_value = none;
  on_headers_complete = none;
  on_body = some failing;
  on_message_complete = none;
  on_protocol_complete = none;
  on_url_complete = none;
  on_status_complete = none;
  on_method_complete = none;
  on_version_complete = none;
  on_header_field_complete = none;
  on_header_value_complete = none;
  on_chunk_extension_name_complete = none;
  on_chunk_extension_value_complete = none;
  on_chunk_header = none;
  on_chunk_complete = none;
  on_reset = none;
}

on_span-user_error_example :
    (((on_span (some body_settings) span_body 0 4 response).0 == minus_one) ≡ false)
    × ((s : Settings) (f : SpanCallback)
        → some body_settings ≡ some s
        → callback_of s span_body ≡ some f
        → (f 0 4 response).0 ≡ minus_one
        → on_span (some body_settings) span_body 0 4 response
          ≡ (hpe_user, record (f 0 4 response).1 { reason = span_callback_error span_body }))
on_span-user_error_example = on_span-user_error (some body_settings) span_body 0 4 response
