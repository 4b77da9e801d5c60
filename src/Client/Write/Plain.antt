-- ===== src/Client/Write/Plain.antt =====
-- src/client.zig, `writeRequest`: the fields of a request end no line and frame its body once.
use dusty.Base.{
  ℕ, suc, ◌+◌, ◌≡◌, refl, sym, ◌∙◌, subst, Bool, true, false, List, [], ◌∷◌, ◌++◌, All, Option,
  none, some, arith, ◌==◌, if◌then◌else◌, length, eql_ignore_case, codes, Bool-cases, inl, inr,
  if_true, if_false,
}
use dusty.Response.{decimal, all_tchars, validate_header_name, validate_header_value}
use dusty.Response.Values.{validate_header_value-append, validate_header_value-decimal}
use dusty.Client.{default_port}
use dusty.Client.Redirect.{Fields, Uri, FetchState, is_none}
use dusty.Client.Write.{named, skipped, host_value, length_fields, request_fields}
use dusty.Client.Write.Sent.{
  Every, IsPlain, start_fields, Every-later_fields, request_fields-parts, All-append,
}

unfoldable pub times_named : List ℕ → Fields → ℕ
times_named name [] = 0
times_named name ((k, v) ∷ fields) =
    let rest = times_named name fields in if eql_ignore_case k name then suc rest else rest

times_named-append :
    (name : List ℕ) (xs ys : Fields)
    → times_named name (xs ++ ys) ≡ times_named name xs + times_named name ys
unfolding times_named
times_named-append name [] ys = omega arith
times_named-append name ((k, v) ∷ xs) ys = ground (arith, times_named-append name xs ys)

-- What holds of each of the later fields: it is plain, and has neither of the first two names.
abbrev IsLater : List ℕ × List ℕ → Type 0
IsLater (name, value) =
    IsPlain (name, value)
    × (eql_ignore_case name (codes "Host") ≡ false)
    × (eql_ignore_case name (codes "Content-Length") ≡ false)

IsLater-skipped :
    (s b : Bool) (name value : List ℕ)
    → skipped s b name ≡ false
    → validate_header_name name ≡ true
    → validate_header_value value ≡ true
    → IsLater (name, value)
unfolding skipped named
IsLater-skipped s b name value h n v = ((n, v), ground (arith, h), ground (arith, h))

no_times :
    (fields : Fields)
    → All IsLater fields
    → All IsPlain fields
      × (times_named (codes "Host") fields ≡ 0)
      × (times_named (codes "Content-Length") fields ≡ 0)
unfolding times_named
no_times [] h = (tt, refl, refl)
no_times ((k, v) ∷ fields) ((plain, host, size), rest) =
    let (plain_rest, hosts, sizes) = no_times fields rest in
    ((plain, plain_rest), ground (arith, host, hosts), ground (arith, size, sizes))

host_value-plain :
    (uri : Uri)
    → validate_header_value (uri.host) ≡ true
    → validate_header_value (host_value uri) ≡ true
unfolding validate_header_value
host_value-plain uri h = elim (Bool-cases (uri.port == default_port (uri.protocol))) [
  | inl e ↦ subst (λ t. validate_header_value t ≡ true) (sym (if_true _ _ _ e)) h
  | inr e ↦
      subst (λ t. validate_header_value t ≡ true) (sym (if_false _ _ _ e))
        (validate_header_value-append (uri.host) (b':' ∷ decimal (uri.port))
          ∙ rw h (validate_header_value-decimal (uri.port)))
]

start_names :
    (validate_header_name (codes "Host") ≡ true)
    × (validate_header_name (codes "Content-Length") ≡ true)
unfolding validate_header_name all_tchars
start_names = (refl, refl)

abbrev framing_fields : Option (List ℕ) → ℕ
framing_fields body = if is_none body then 0 else 1

start_fields-IsPlain :
    (state : FetchState)
    → validate_header_value (state.uri.host) ≡ true
    → All IsPlain (start_fields state)
      × (times_named (codes "Host") (start_fields state) ≡ 1)
      × (times_named (codes "Content-Length") (start_fields state)
          ≡ framing_fields (state.options.body))
unfolding times_named eql_ignore_case
start_fields-IsPlain state h = by_body (state.options.body)
  where
    by_body :
        (body : Option (List ℕ))
        → All IsPlain ((codes "Host", host_value (state.uri)) ∷ length_fields body)
          × (times_named
                (codes "Host")
                ((codes "Host", host_value (state.uri)) ∷ length_fields body)
              ≡ 1)
          × (times_named
                (codes "Content-Length")
                ((codes "Host", host_value (state.uri)) ∷ length_fields body)
              ≡ framing_fields body)
    by_body none = (((start_names.0, host_value-plain (state.uri) h), tt), refl, refl)
    by_body (some body) = (
      (
        (start_names.0, host_value-plain (state.uri) h),
        ((start_names.1, validate_header_value-decimal (length body)), tt),
      ),
      refl,
      refl,
    )

-- Whatever URL, headers and body a request is made of, when it passes the checks and is written,
-- every one of its fields has a token for a name and a value without CR, LF and NUL, so that none
-- of them can end its line; and there is exactly one Host, and one Content-Length with a body and
-- none without, whatever fields of these names the caller gave.
pub request_fields-IsPlain :
    (user_agent : Option (List ℕ)) (state : FetchState) (fields : Fields)
    → request_fields user_agent state ≡ some fields
    → All IsPlain fields
      × (times_named (codes "Host") fields ≡ 1)
      × (times_named (codes "Content-Length") fields ≡ framing_fields (state.options.body))
request_fields-IsPlain user_agent state fields h =
    let (host, (rest, later, parts)) = request_fields-parts user_agent state fields h in
    let each =
      Every-later_fields IsLater user_agent state
        (IsLater-skipped (state.strip_sensitive_headers) (state.strip_body_headers)) in
    let (plain_rest, hosts, sizes) = no_times rest (subst (Every IsLater) later each) in
    let (plain, one_host, one_size) = start_fields-IsPlain state host in
    subst
      (λ t.
        All IsPlain t
        × (times_named (codes "Host") t ≡ 1)
        × (times_named (codes "Content-Length") t ≡ framing_fields (state.options.body)))
      (sym parts)
      (
        All-append IsPlain (start_fields state) rest plain plain_rest,
        times_named-append (codes "Host") (start_fields state) rest
            ∙ omega (arith, one_host, hosts),
        times_named-append (codes "Content-Length") (start_fields state) rest
            ∙ omega (arith, one_size, sizes),
      )
