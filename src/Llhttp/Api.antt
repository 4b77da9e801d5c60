-- ===== src/Llhttp/Api.antt =====
-- src/llhttp/api.c: the calls that an application makes of a parser.
use dusty.Base.{ℕ, ◌-◌, Bool, true, false, Option, none, some, ◌!=◌, if◌then◌else◌, bit_and, bit_or}
use dusty.Llhttp.{
  Parser, Kind, http_both, finish_safe, finish_safe_with_cb, finish_unsafe, no_reason, paused,
  invalid_eof_state,
}

-- `llhttp__internal_init` clears the state and enters the start state of the generated machine,
-- which is a parameter here.
module _ (start : ℕ) where
  unfoldable pub internal_init : Parser
  internal_init = record {
    index = 0;
    span_pos0 = 0;
    span_cb0 = 0;
    error = 0;
    reason = no_reason;
    error_pos = 0;
    user = 0;
    current = start;
    content_length = 0;
    kind = http_both;
    method = 0;
    http_major = 0;
    http_minor = 0;
    header_state = 0;
    lenient_flags = 0;
    upgrade = false;
    finish = finish_safe;
    flags = 0;
    status_code = 0;
    initial_message_completed = 0;
    settings = 0;
  }

  unfoldable pub init : Kind → ℕ → Parser
  unfolding internal_init
  init kind settings = record internal_init { kind = kind; settings = settings }

  unfoldable pub reset : Parser → Parser
  unfolding internal_init
  reset p = record internal_init {
    kind = p.kind;
    settings = p.settings;
    user = p.user;
    lenient_flags = p.lenient_flags;
  }

-- `HPE_PAUSED`, `HPE_PAUSED_UPGRADE`, `HPE_INVALID_EOF_STATE`
abbrev pub hpe_paused : ℕ
hpe_paused = 21

abbrev pub hpe_paused_upgrade : ℕ
hpe_paused_upgrade = 22

abbrev pub hpe_invalid_eof_state : ℕ
hpe_invalid_eof_state = 14

-- `CALLBACK_MAYBE`: what the settings hold under a name, called when there is a function.
abbrev pub callback_maybe : Option (Parser → ℕ × Parser) → Parser → ℕ × Parser
callback_maybe none p = (0, p)
callback_maybe (some f) p = f p

unfoldable pub finish : Option (Parser → ℕ × Parser) → Parser → ℕ × Parser
finish on_message_complete p =
    let called = callback_maybe on_message_complete p in
    if p.error != 0 then (0, p) else elim p.finish [
      | finish_safe_with_cb ↦ if called.0 != 0 then called else (0, called.1)
      | finish_safe ↦ (0, p)
      | finish_unsafe ↦ (hpe_invalid_eof_state, record p { reason = invalid_eof_state })
    ]

unfoldable pub pause : Parser → Parser
pause p = if p.error != 0 then p else record p { error = hpe_paused; reason = paused }

unfoldable pub resume : Parser → Parser
resume p = if p.error != hpe_paused then p else record p { error = 0 }

unfoldable pub resume_after_upgrade : Parser → Parser
resume_after_upgrade p = if p.error != hpe_paused_upgrade then p else record p { error = 0 }

-- `flags |= mask` and `flags &= ~mask`, on 16 bits.
abbrev set_flag : ℕ → Bool → Parser → Parser
set_flag mask true p = record p { lenient_flags = bit_or p.lenient_flags mask }
set_flag mask false p = record p { lenient_flags = bit_and p.lenient_flags (65535 - mask) }

unfoldable pub set_lenient_headers : Parser → Bool → Parser
set_lenient_headers p enabled = set_flag 0x1 enabled p

unfoldable pub set_lenient_chunked_length : Parser → Bool → Parser
set_lenient_chunked_length p enabled = set_flag 0x2 enabled p

unfoldable pub set_lenient_keep_alive : Parser → Bool → Parser
set_lenient_keep_alive p enabled = set_flag 0x4 enabled p

unfoldable pub set_lenient_transfer_encoding : Parser → Bool → Parser
set_lenient_transfer_encoding p enabled = set_flag 0x8 enabled p

unfoldable pub set_lenient_version : Parser → Bool → Parser
set_lenient_version p enabled = set_flag 0x10 enabled p

unfoldable pub set_lenient_data_after_close : Parser → Bool → Parser
set_lenient_data_after_close p enabled = set_flag 0x20 enabled p

unfoldable pub set_lenient_optional_lf_after_cr : Parser → Bool → Parser
set_lenient_optional_lf_after_cr p enabled = set_flag 0x40 enabled p

unfoldable pub set_lenient_optional_crlf_after_chunk : Parser → Bool → Parser
set_lenient_optional_crlf_after_chunk p enabled = set_flag 0x80 enabled p

unfoldable pub set_lenient_optional_cr_before_lf : Parser → Bool → Parser
set_lenient_optional_cr_before_lf p enabled = set_flag 0x100 enabled p

unfoldable pub set_lenient_spaces_after_chunk_size : Parser → Bool → Parser
set_lenient_spaces_after_chunk_size p enabled = set_flag 0x200 enabled p
