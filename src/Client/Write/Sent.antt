-- ===== src/Client/Write/Sent.antt =====
-- src/client.zig, `writeRequest`: what stands in the fields of a request.
use dusty.Base.{
  ℕ, ◌≡◌, refl, ap, sym, ◌∙◌, subst, Bool, true, false, not, ◌&&◌, List, [], ◌∷◌, ◌++◌, All, Option,
  none, some, arith, eql_ignore_case, codes, Bool-cases, inl, inr, if_true, if_false,
}
use dusty.Response.{all_tchars, validate_header_name, validate_header_value}
use dusty.Client.Redirect.{Fields, FetchOptions, FetchState}
use dusty.Client.Write.{
  named, skipped, joined, checked, user_fields, has_named, unless_given, host_value, length_fields,
  accept_encoding, later_fields, request_fields,
}

-- A predicate that holds of every field of a result.
abbrev pub Every : (List ℕ × List ℕ → Type 0) → Option Fields → Type 0
Every P none = Unit
Every P (some fields) = All P fields

pub All-append {ℓ κ} :
    {A : Type ℓ} (P : A → Type κ) (xs ys : List A) → All P xs → All P ys → All P (xs ++ ys)
All-append P [] ys h g = g
All-append P (x ∷ xs) ys h g = (h.0, All-append P xs ys h.1 g)

Every-joined :
    (P : List ℕ × List ℕ → Type 0) (a b : Option Fields)
    → Every P a
    → Every P b
    → Every P (joined a b)
Every-joined P none b h g = tt
Every-joined P (some xs) none h g = tt
Every-joined P (some xs) (some ys) h g = All-append P xs ys h g

-- The predicate of fields that are not skipped and have a valid name and value.
module _ (P : List ℕ × List ℕ → Type 0) (strip_sensitive strip_body : Bool)
    (kept : (name value : List ℕ)
      → skipped strip_sensitive strip_body name ≡ false
      → validate_header_name name ≡ true
      → validate_header_value value ≡ true
      → P (name, value)) where
  Every-checked :
      (name value : List ℕ)
      → (validate_header_value value ≡ true → P (name, value))
      → Every P (checked name value)
  unfolding checked
  Every-checked name value h = elim (Bool-cases (validate_header_value value)) [
    | inl e ↦ subst (Every P) (sym (if_true _ _ _ e)) (h e, tt)
    | inr e ↦ subst (Every P) (sym (if_false _ _ _ e)) tt
  ]

  Every-user_fields : (fields : Fields) → Every P (user_fields strip_sensitive strip_body fields)
  unfolding user_fields
  Every-user_fields [] = tt
  Every-user_fields ((name, value) ∷ fields) =
      elim (Bool-cases (skipped strip_sensitive strip_body name)) [
        | inl e ↦ subst (Every P) (sym (if_true _ _ _ e)) (Every-user_fields fields)
        | inr e ↦ elim (Bool-cases (validate_header_name name)) [
          | inr f ↦ subst (Every P) (sym (if_false _ _ _ e ∙ if_true _ _ _ (ap not f))) tt
          | inl f ↦ subst (Every P) (sym (if_false _ _ _ e ∙ if_false _ _ _ (ap not f))) (
              Every-joined P (checked name value) _ (Every-checked name value (kept name value e f))
                (Every-user_fields fields))
        ]
      ]

  Every-unless_given :
      (given : Bool) (name : List ℕ) (value : Option (List ℕ))
      → skipped strip_sensitive strip_body name ≡ false
      → validate_header_name name ≡ true
      → Every P (unless_given given name value)
  unfolding unless_given
  Every-unless_given given name none h g = tt
  Every-unless_given true name (some value) h g = tt
  Every-unless_given false name (some value) h g = Every-checked name value (kept name value h g)

  Every-accept_encoding :
      (options : FetchOptions)
      → P (codes "Accept-Encoding", codes "gzip, deflate")
      → Every P (accept_encoding options)
  unfolding accept_encoding
  Every-accept_encoding options h =
      elim (Bool-cases
        (options.decompress && not (has_named (codes "Accept-Encoding") (options.headers)))) [
          | inl e ↦ subst (Every P) (sym (if_true _ _ _ e)) (h, tt)
          | inr e ↦ subst (Every P) (sym (if_false _ _ _ e)) tt
        ]

-- The three fields that the client adds are never skipped.
unskipped :
    (strip_sensitive strip_body : Bool)
    → (skipped strip_sensitive strip_body (codes "Referer") ≡ false)
      × (skipped strip_sensitive strip_body (codes "User-Agent") ≡ false)
      × (skipped strip_sensitive strip_body (codes "Accept-Encoding") ≡ false)
unfolding skipped named eql_ignore_case
unskipped true true = (refl, refl, refl)
unskipped true false = (refl, refl, refl)
unskipped false true = (refl, refl, refl)
unskipped false false = (refl, refl, refl)

valid_names :
    (validate_header_name (codes "Referer") ≡ true)
    × (validate_header_name (codes "User-Agent") ≡ true)
    × (validate_header_name (codes "Accept-Encoding") ≡ true)
    × (validate_header_value (codes "gzip, deflate") ≡ true)
unfolding validate_header_name all_tchars validate_header_value
valid_names = (refl, refl, refl, refl)

-- What holds of every field that may be written holds of those behind Host and Content-Length.
pub Every-later_fields :
    (P : List ℕ × List ℕ → Type 0) (user_agent : Option (List ℕ)) (state : FetchState)
    → ((name value : List ℕ)
        → skipped (state.strip_sensitive_headers) (state.strip_body_headers) name ≡ false
        → validate_header_name name ≡ true
        → validate_header_value value ≡ true
        → P (name, value))
    → Every P (later_fields user_agent state)
unfolding later_fields
Every-later_fields P user_agent state kept =
    let s = state.strip_sensitive_headers in
    let b = state.strip_body_headers in
    let (referer, agent, encoding) = unskipped s b in
    let (referer_name, agent_name, encoding_name, coding) = valid_names in
    Every-joined P _ _ (Every-user_fields P s b kept (state.options.headers)) (
      Every-joined P _ _
        (Every-unless_given P s b kept _ (codes "Referer") (state.referer) referer referer_name)
        (Every-joined P _ _
          (Every-unless_given P s b kept _ (codes "User-Agent") user_agent agent agent_name)
          (Every-accept_encoding P s b kept (state.options) (
            kept (codes "Accept-Encoding") (codes "gzip, deflate") encoding encoding_name coding))))

-- A field whose bytes end no line and whose name is a token.
abbrev pub IsPlain : List ℕ × List ℕ → Type 0
IsPlain (name, value) = (validate_header_name name ≡ true) × (validate_header_value value ≡ true)

-- A field that the request may have, by the flags that it is sent with.
abbrev pub IsUnskipped : FetchState → List ℕ × List ℕ → Type 0
IsUnskipped state (name, value) =
    skipped (state.strip_sensitive_headers) (state.strip_body_headers) name ≡ false

abbrev pub start_fields : FetchState → Fields
start_fields state = (codes "Host", host_value (state.uri)) ∷ length_fields (state.options.body)

joined-some :
    (xs : Fields) (o : Option Fields) (fields : Fields)
    → joined (some xs) o ≡ some fields
    → (ys : Fields) × (o ≡ some ys) × (fields ≡ xs ++ ys)
joined-some xs none fields h = absurd (ground (arith, h))
joined-some xs (some ys) fields h = (ys, refl, ground (arith, h))

pub request_fields-parts :
    (user_agent : Option (List ℕ)) (state : FetchState) (fields : Fields)
    → request_fields user_agent state ≡ some fields
    → (validate_header_value (state.uri.host) ≡ true)
      × ((rest : Fields) × (later_fields user_agent state ≡ some rest)
          × (fields ≡ start_fields state ++ rest))
unfolding request_fields
request_fields-parts user_agent state fields h =
    elim (Bool-cases (validate_header_value (state.uri.host))) [
      | inr e ↦ absurd (let none_is = sym (if_true _ _ _ (ap not e)) ∙ h in ground (arith, none_is))
      | inl e ↦ (
        e,
        joined-some (start_fields state) (later_fields user_agent state) fields
            (sym (if_false _ _ _ (ap not e)) ∙ h),
      )
    ]
