-- ===== src/Llhttp/Spans.antt =====
-- src/llhttp/api.c: what a callback on a span can hand to the generated machine.
use dusty.Base.{ℕ, ◌≡◌, inl, inr, refl, ap, ◌∙◌, false, Option, none, some, ◌==◌, Bool-cases}
use dusty.Llhttp.{
  Parser, span_callback_error, SpanName, span_protocol, span_url, span_status, span_method,
  span_version, span_header_field, span_header_value, span_body, span_chunk_extension_name,
  span_chunk_extension_value,
}
use dusty.Llhttp.Callbacks.{
  Settings, SpanCallback, minus_one, hpe_user, under, span_result, span_callback_maybe, on_protocol,
  on_url, on_status, on_method, on_version, on_header_field, on_header_value, on_body,
  on_chunk_extension_name, on_chunk_extension_value,
}

abbrev pub callback_of : Settings → SpanName → Option SpanCallback
callback_of s span_protocol = s.on_protocol
callback_of s span_url = s.on_url
callback_of s span_status = s.on_status
callback_of s span_method = s.on_method
callback_of s span_version = s.on_version
callback_of s span_header_field = s.on_header_field
callback_of s span_header_value = s.on_header_value
callback_of s span_body = s.on_body
callback_of s span_chunk_extension_name = s.on_chunk_extension_name
callback_of s span_chunk_extension_value = s.on_chunk_extension_value

module _ (settings : Option Settings) where
  abbrev pub on_span : SpanName → ℕ → ℕ → Parser → ℕ × Parser
  on_span span_protocol = on_protocol settings
  on_span span_url = on_url settings
  on_span span_status = on_status settings
  on_span span_method = on_method settings
  on_span span_version = on_version settings
  on_span span_header_field = on_header_field settings
  on_span span_header_value = on_header_value settings
  on_span span_body = on_body settings
  on_span span_chunk_extension_name = on_chunk_extension_name settings
  on_span span_chunk_extension_value = on_chunk_extension_value settings

  -- Each wrapper calls the callback of its own name.
  on_span-own :
      (name : SpanName) (start len : ℕ) (p : Parser)
      → on_span name start len p
        ≡ span_callback_maybe name (under settings (λ s. callback_of s name)) start len p
  unfolding on_protocol on_url on_status on_method on_version on_header_field on_header_value
      on_body on_chunk_extension_name on_chunk_extension_value
  on_span-own span_protocol start len p = refl
  on_span-own span_url start len p = refl
  on_span-own span_status start len p = refl
  on_span-own span_method start len p = refl
  on_span-own span_version start len p = refl
  on_span-own span_header_field start len p = refl
  on_span-own span_header_value start len p = refl
  on_span-own span_body start len p = refl
  on_span-own span_chunk_extension_name start len p = refl
  on_span-own span_chunk_extension_value start len p = refl

span_result-not_minus_one :
    (name : SpanName) (err : ℕ) (p : Parser) → ((span_result name (err, p)).0 == minus_one) ≡ false
span_result-not_minus_one name err p = elim (Bool-cases (err == minus_one)) [
  | inl h ↦ rw h
  | inr h ↦ rw h h
]

span_callback_maybe-not_minus_one :
    (name : SpanName) (o : Option SpanCallback) (start len : ℕ) (p : Parser)
    → ((span_callback_maybe name o start len p).0 == minus_one) ≡ false
span_callback_maybe-not_minus_one name none start len p = refl
span_callback_maybe-not_minus_one name (some f) start len p =
    span_result-not_minus_one name (f start len p).0 (f start len p).1

-- The generated machine never sees -1 from a span: whichever of the ten callbacks on spans is
-- called, with any settings, the number it hands on is not -1, and a callback that returned -1
-- becomes HPE_USER with the reason that names this callback.
pub on_span-user_error :
    (settings : Option Settings) (name : SpanName) (start len : ℕ) (p : Parser)
    → (((on_span settings name start len p).0 == minus_one) ≡ false)
      × ((s : Settings) (f : SpanCallback)
          → settings ≡ some s
          → callback_of s name ≡ some f
          → (f start len p).0 ≡ minus_one
          → on_span settings name start len p
            ≡ (hpe_user, record (f start len p).1 { reason = span_callback_error name }))
on_span-user_error settings name start len p =
    let own = on_span-own settings name start len p in
    (
      ap (λ r. r.0 == minus_one) own
          ∙ span_callback_maybe-not_minus_one name (under settings (λ s. callback_of s name)) start
              len p,
      λ s f has sets minus.
          own
          ∙ ap (λ o. span_callback_maybe name (under o (λ s. callback_of s name)) start len p) has
          ∙ ap (λ o. span_callback_maybe name o start len p) sets
          ∙ ap (λ e. span_result name (e, (f start len p).1)) minus,
    )
