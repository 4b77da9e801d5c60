-- ===== src/Llhttp/Callbacks.antt =====
-- src/llhttp/api.c, `llhttp__on_...`: how the generated machine calls back.
use dusty.Base.{ℕ, ◌-◌, ◌^◌, Option, none, some, ◌==◌, if◌then◌else◌}
use dusty.Llhttp.{
  Parser, span_callback_error, SpanName, span_protocol, span_url, span_status, span_method,
  span_version, span_header_field, span_header_value, span_body, span_chunk_extension_name,
  span_chunk_extension_value,
}
use dusty.Llhttp.Api.{callback_maybe}

-- What a callback returns is a C int: its number, -1 as `minus_one`.
abbrev pub Callback : Type 0
Callback = Parser → ℕ × Parser

-- A span is a position and a length.
abbrev pub SpanCallback : Type 0
SpanCallback = ℕ → ℕ → Parser → ℕ × Parser

abbrev pub minus_one : ℕ
minus_one = 2 ^ 32 - 1

-- `HPE_USER`
abbrev pub hpe_user : ℕ
hpe_user = 24

-- `llhttp_settings_t`
pub record Settings : Type 0 where
  pub on_message_begin : Option Callback
  pub on_protocol : Option SpanCallback
  pub on_url : Option SpanCallback
  pub on_status : Option SpanCallback
  pub on_method : Option SpanCallback
  pub on_version : Option SpanCallback
  pub on_header_field : Option SpanCallback
  pub on_header_value : Option SpanCallback
  pub on_chunk_extension_name : Option SpanCallback
  pub on_chunk_extension_value : Option SpanCallback
  pub on_headers_complete : Option Callback
  pub on_body : Option SpanCallback
  pub on_message_complete : Option Callback
  pub on_protocol_complete : Option Callback
  pub on_url_complete : Option Callback
  pub on_status_complete : Option Callback
  pub on_method_complete : Option Callback
  pub on_version_complete : Option Callback
  pub on_header_field_complete : Option Callback
  pub on_header_value_complete : Option Callback
  pub on_chunk_extension_name_complete : Option Callback
  pub on_chunk_extension_value_complete : Option Callback
  pub on_chunk_header : Option Callback
  pub on_chunk_complete : Option Callback
  pub on_reset : Option Callback

abbrev pub under {ℓ} : {A : Type ℓ} → Option Settings → (Settings → Option A) → Option A
under none field = none
under (some settings) field = field settings

-- `SPAN_CALLBACK_MAYBE`, behind the call.
abbrev pub span_result : SpanName → ℕ × Parser → ℕ × Parser
span_result name (err, p) =
    if err == minus_one
    then (hpe_user, record p { reason = span_callback_error name })
    else (err, p)

abbrev pub span_callback_maybe : SpanName → Option SpanCallback → ℕ → ℕ → Parser → ℕ × Parser
span_callback_maybe name none start len p = (0, p)
span_callback_maybe name (some f) start len p = span_result name (f start len p)

-- The settings are those that the parser points to, or none.
module _ (settings : Option Settings) where
  unfoldable pub on_message_begin : Parser → ℕ × Parser
  on_message_begin p = callback_maybe (under settings (λ s. s.on_message_begin)) p

  unfoldable pub on_protocol : ℕ → ℕ → Parser → ℕ × Parser
  on_protocol start len p =
      span_callback_maybe span_protocol (under settings (λ s. s.on_protocol)) start len p

  unfoldable pub on_protocol_complete : Parser → ℕ × Parser
  on_protocol_complete p = callback_maybe (under settings (λ s. s.on_protocol_complete)) p

  unfoldable pub on_url : ℕ → ℕ → Parser → ℕ × Parser
  on_url start len p = span_callback_maybe span_url (under settings (λ s. s.on_url)) start len p

  unfoldable pub on_url_complete : Parser → ℕ × Parser
  on_url_complete p = callback_maybe (under settings (λ s. s.on_url_complete)) p

  unfoldable pub on_status : ℕ → ℕ → Parser → ℕ × Parser
  on_status start len p =
      span_callback_maybe span_status (under settings (λ s. s.on_status)) start len p

  unfoldable pub on_status_complete : Parser → ℕ × Parser
  on_status_complete p = callback_maybe (under settings (λ s. s.on_status_complete)) p

  unfoldable pub on_method : ℕ → ℕ → Parser → ℕ × Parser
  on_method start len p =
      span_callback_maybe span_method (under settings (λ s. s.on_method)) start len p

  unfoldable pub on_method_complete : Parser → ℕ × Parser
  on_method_complete p = callback_maybe (under settings (λ s. s.on_method_complete)) p

  unfoldable pub on_version : ℕ → ℕ → Parser → ℕ × Parser
  on_version start len p =
      span_callback_maybe span_version (under settings (λ s. s.on_version)) start len p

  unfoldable pub on_version_complete : Parser → ℕ × Parser
  on_version_complete p = callback_maybe (under settings (λ s. s.on_version_complete)) p

  unfoldable pub on_header_field : ℕ → ℕ → Parser → ℕ × Parser
  on_header_field start len p =
      span_callback_maybe span_header_field (under settings (λ s. s.on_header_field)) start len p

  unfoldable pub on_header_field_complete : Parser → ℕ × Parser
  on_header_field_complete p = callback_maybe (under settings (λ s. s.on_header_field_complete)) p

  unfoldable pub on_header_value : ℕ → ℕ → Parser → ℕ × Parser
  on_header_value start len p =
      span_callback_maybe span_header_value (under settings (λ s. s.on_header_value)) start len p

  unfoldable pub on_header_value_complete : Parser → ℕ × Parser
  on_header_value_complete p = callback_maybe (under settings (λ s. s.on_header_value_complete)) p

  unfoldable pub on_headers_complete : Parser → ℕ × Parser
  on_headers_complete p = callback_maybe (under settings (λ s. s.on_headers_complete)) p

  unfoldable pub on_message_complete : Parser → ℕ × Parser
  on_message_complete p = callback_maybe (under settings (λ s. s.on_message_complete)) p

  unfoldable pub on_body : ℕ → ℕ → Parser → ℕ × Parser
  on_body start len p = span_callback_maybe span_body (under settings (λ s. s.on_body)) start len p

  unfoldable pub on_chunk_header : Parser → ℕ × Parser
  on_chunk_header p = callback_maybe (under settings (λ s. s.on_chunk_header)) p

  unfoldable pub on_chunk_extension_name : ℕ → ℕ → Parser → ℕ × Parser
  on_chunk_extension_name start len p =
      span_callback_maybe span_chunk_extension_name
        (under settings (λ s. s.on_chunk_extension_name)) start len p

  unfoldable pub on_chunk_extension_name_complete : Parser → ℕ × Parser
  on_chunk_extension_name_complete p =
      callback_maybe (under settings (λ s. s.on_chunk_extension_name_complete)) p

  unfoldable pub on_chunk_extension_value : ℕ → ℕ → Parser → ℕ × Parser
  on_chunk_extension_value start len p =
      span_callback_maybe span_chunk_extension_value
        (under settings (λ s. s.on_chunk_extension_value)) start len p

  unfoldable pub on_chunk_extension_value_complete : Parser → ℕ × Parser
  on_chunk_extension_value_complete p =
      callback_maybe (under settings (λ s. s.on_chunk_extension_value_complete)) p

  unfoldable pub on_chunk_complete : Parser → ℕ × Parser
  on_chunk_complete p = callback_maybe (under settings (λ s. s.on_chunk_complete)) p

  unfoldable pub on_reset : Parser → ℕ × Parser
  on_reset p = callback_maybe (under settings (λ s. s.on_reset)) p
