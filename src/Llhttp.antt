-- ===== src/Llhttp.antt =====
-- src/llhttp: the parser's state in llhttp.h, `llhttp__internal_t`, and its enumerations.
pub mod Http
pub mod Api
pub mod Bodies
pub mod Framing
pub mod Control
pub mod Lenient
pub mod Callbacks
pub mod Spans
mod Examples
use dusty.Base.{ℕ, Bool, true, false, bit_and, ◌!=◌}

-- `enum llhttp_type`
pub data Kind : Type 0 where
  http_both http_request http_response : Kind

-- `enum llhttp_finish`
pub data Finish : Type 0 where
  finish_safe finish_safe_with_cb finish_unsafe : Finish

-- The callbacks that take a span of the input.
pub data SpanName : Type 0 where
  span_protocol span_url span_status span_method span_version : SpanName
  span_header_field span_header_value span_body span_chunk_extension_name
        span_chunk_extension_value :
      SpanName

-- The texts that `reason` can point to, with those of others by number.
pub data Reason : Type 0 where
  no_reason paused invalid_eof_state : Reason
  span_callback_error : SpanName → Reason
  other_reason : ℕ → Reason

-- Pointers are numbers, and `current` is the state of the generated machine. `user` is `data`.
pub record Parser : Type 0 where
  pub index : ℕ
  pub span_pos0 : ℕ
  pub span_cb0 : ℕ
  pub error : ℕ
  pub reason : Reason
  pub error_pos : ℕ
  pub user : ℕ
  pub current : ℕ
  pub content_length : ℕ
  pub kind : Kind
  pub method : ℕ
  pub http_major : ℕ
  pub http_minor : ℕ
  pub header_state : ℕ
  pub lenient_flags : ℕ
  pub upgrade : Bool
  pub finish : Finish
  pub flags : ℕ
  pub status_code : ℕ
  pub initial_message_completed : ℕ
  pub settings : ℕ

-- `flags & mask`, as a condition.
abbrev pub has : ℕ → ℕ → Bool
has flags mask = bit_and flags mask != 0

abbrev pub is_request : Kind → Bool
is_request http_request = true
is_request _ = false

abbrev pub is_response : Kind → Bool
is_response http_response = true
is_response _ = false

abbrev pub f_connection_keep_alive : ℕ
f_connection_keep_alive = 0x1

abbrev pub f_connection_close : ℕ
f_connection_close = 0x2

abbrev pub f_connection_upgrade : ℕ
f_connection_upgrade = 0x4

abbrev pub f_chunked : ℕ
f_chunked = 0x8

abbrev pub f_upgrade : ℕ
f_upgrade = 0x10

abbrev pub f_content_length : ℕ
f_content_length = 0x20

abbrev pub f_skipbody : ℕ
f_skipbody = 0x40

abbrev pub f_transfer_encoding : ℕ
f_transfer_encoding = 0x200

abbrev pub lenient_chunked_length : ℕ
lenient_chunked_length = 0x2

abbrev pub lenient_transfer_encoding : ℕ
lenient_transfer_encoding = 0x8

-- `HTTP_CONNECT`
abbrev pub http_connect : ℕ
http_connect = 5
