-- ===== src/Client/Redirect/Secret.antt =====
-- src/client.zig: which hosts of a chain of redirects get the credentials of a request.
use dusty.Base.{
  ℕ, ◌-◌, ◌≤◌, ◌≡◌, refl, ap, sym, ◌∙◌, subst, Bool, true, false, ◌||◌, List, [], ◌∷◌, ◌++◌, All,
  Option, none, some, arith, length, eql_ignore_case, codes, Bool-cases, inl, inr, if_true,
  if_false,
}
use dusty.Client.{Protocol}
use dusty.Client.Redirect.{
  Fields, Uri, FetchOptions, FetchState, fetch, is_domain_or_subdomain, is_downgrade,
  effective_initial_host, or_host, follow, is_followed, follow_all,
}
use dusty.Client.Write.{
  named, sensitive_headers, skipped, length_fields, host_value, request_fields,
}
use dusty.Client.Write.Sent.{
  Every, IsUnskipped, start_fields, Every-later_fields, request_fields-parts,
}

-- Whether a credential stands in the fields.
unfoldable pub has_sensitive : Fields → Bool
unfolding named
has_sensitive [] = false
has_sensitive ((k, v) ∷ fields) = named sensitive_headers k || has_sensitive fields

-- No hop goes from https to http.
abbrev pub KeepsTls : Protocol → List (ℕ × Uri) → Type 0
KeepsTls from [] = Unit
KeepsTls from ((status, to) ∷ redirects) =
    (is_downgrade from (to.protocol) ≡ false) × KeepsTls (to.protocol) redirects

abbrev pub StaysIn : List ℕ → List (ℕ × Uri) → Type 0
StaysIn host = All (λ r. is_domain_or_subdomain (r.1.host) host ≡ true)

abbrev strip_of : Option FetchState → Bool
strip_of none = false
strip_of (some state) = state.strip_sensitive_headers

-- One hop that leaves the flag down.
follow-unstripped :
    (b : ℕ) (bs : List ℕ) (status : ℕ) (to : Uri) (state : FetchState)
    → effective_initial_host state ≡ b ∷ bs
    → (follow status to state).strip_sensitive_headers ≡ false
    → (state.strip_sensitive_headers ≡ false)
      × (is_domain_or_subdomain (to.host) (b ∷ bs) ≡ true)
      × (is_downgrade (state.uri.protocol) (to.protocol) ≡ false)
unfolding follow
follow-unstripped b bs status to state host down =
    let within : is_domain_or_subdomain (to.host) (effective_initial_host state) ≡ true =
      ground (arith, down) in
    (
      ground (arith, down),
      ap (is_domain_or_subdomain (to.host)) (sym host) ∙ within,
      ground (arith, down),
    )

effective_initial_host-follow :
    (b : ℕ) (bs : List ℕ) (status : ℕ) (to : Uri) (state : FetchState)
    → effective_initial_host state ≡ b ∷ bs
    → effective_initial_host (follow status to state) ≡ b ∷ bs
unfolding follow
effective_initial_host-follow b bs status to state host = ap (λ t. or_host t (to.host)) host

follow-facts :
    (status : ℕ) (to : Uri) (state : FetchState)
    → ((follow status to state).uri.protocol ≡ to.protocol)
      × ((follow status to state).redirects_remaining ≡ state.redirects_remaining - 1)
unfolding follow
follow-facts status to state = (refl, refl)

-- A chain after which the flag is still down.
follow_all-unstripped :
    (b : ℕ) (bs : List ℕ) (redirects : List (ℕ × Uri)) (state last : FetchState)
    → effective_initial_host state ≡ b ∷ bs
    → follow_all redirects state ≡ some last
    → last.strip_sensitive_headers ≡ false
    → (state.strip_sensitive_headers ≡ false)
      × StaysIn (b ∷ bs) redirects
      × KeepsTls (state.uri.protocol) redirects
unfolding follow_all
follow_all-unstripped b bs [] state last host h down = (ap strip_of h ∙ down, tt, tt)
follow_all-unstripped b bs ((status, to) ∷ redirects) state last host h down =
    elim (Bool-cases (is_followed status state)) [
      | inr e ↦ absurd (let stopped = sym (if_false _ _ _ e) ∙ h in ground (arith, stopped))
      | inl e ↦
          let (kept, within, tls) =
            follow_all-unstripped b bs redirects (follow status to state) last
              (effective_initial_host-follow b bs status to state host) (sym (if_true _ _ _ e) ∙ h)
              down in
          let (unstripped, inside, secure) = follow-unstripped b bs status to state host kept in
          (
            unstripped,
            (inside, within),
            (secure, subst (λ p. KeepsTls p redirects) ((follow-facts status to state).0) tls),
          )
    ]

-- No more redirects are followed than the configured number.
follow_all-length :
    (redirects : List (ℕ × Uri)) (state last : FetchState)
    → follow_all redirects state ≡ some last
    → length redirects ≤ state.redirects_remaining
unfolding follow_all
follow_all-length [] state last h = omega arith
follow_all-length ((status, to) ∷ redirects) state last h =
    elim (Bool-cases (is_followed status state)) [
      | inr e ↦ absurd (let stopped = sym (if_false _ _ _ e) ∙ h in ground (arith, stopped))
      | inl e ↦
          let rest =
            follow_all-length redirects (follow status to state) last (sym (if_true _ _ _ e) ∙ h) in
          let fewer = (follow-facts status to state).1 in ground (arith, e, rest, fewer)
    ]

has_sensitive-append :
    (xs ys : Fields) → has_sensitive (xs ++ ys) ≡ (has_sensitive xs || has_sensitive ys)
unfolding has_sensitive
has_sensitive-append [] ys = refl
has_sensitive-append ((k, v) ∷ xs) ys = ground (arith, has_sensitive-append xs ys)

-- Fields that were not skipped while the flag is up.
has_sensitive-IsUnskipped :
    (state : FetchState) (fields : Fields)
    → state.strip_sensitive_headers ≡ true
    → All (IsUnskipped state) fields
    → has_sensitive fields ≡ false
unfolding has_sensitive skipped
has_sensitive-IsUnskipped state [] up h = refl
has_sensitive-IsUnskipped state ((k, v) ∷ fields) up (first, rest) =
    ground (arith, up, first, has_sensitive-IsUnskipped state fields up rest)

has_sensitive-start_fields : (state : FetchState) → has_sensitive (start_fields state) ≡ false
unfolding has_sensitive named eql_ignore_case
has_sensitive-start_fields state =
    elim (state.options.body)
      as (λ body.
        has_sensitive ((codes "Host", host_value (state.uri)) ∷ length_fields body) ≡ false) [
          | none ↦ refl
          | some body ↦ refl
        ]

-- Without the flag.
has_sensitive-stripped :
    (user_agent : Option (List ℕ)) (state : FetchState) (fields : Fields)
    → request_fields user_agent state ≡ some fields
    → has_sensitive fields ≡ true
    → state.strip_sensitive_headers ≡ false
has_sensitive-stripped user_agent state fields h carried =
    elim (Bool-cases (state.strip_sensitive_headers)) [
      | inr e ↦ e
      | inl e ↦ absurd (
          let (host, (rest, later, parts)) = request_fields-parts user_agent state fields h in
          let each =
            subst (Every (IsUnskipped state)) later
              (Every-later_fields (IsUnskipped state) user_agent state (λ name value s n v. s)) in
          let clean = ap has_sensitive parts ∙ has_sensitive-append (start_fields state) rest in
          ground (
            arith,
            clean,
            carried,
            has_sensitive-start_fields state,
            has_sensitive-IsUnskipped state rest e each,
          ))
    ]

-- A request that is reached by following redirects, of any statuses to any places, from a fetch of
-- a URL with a host, and that has an Authorization, Cookie, Cookie2, Www-Authenticate,
-- Proxy-Authorization or Proxy-Authenticate field in it: then every host on the way, its own among
-- them, is the first host or below it, no hop went from https to http, and there were no more hops
-- than the configured number. Credentials that were dropped once are not sent again when a chain
-- comes back.
pub follow_all-has_sensitive :
    (uri : Uri) (options : FetchOptions) (max_redirects : ℕ) (b : ℕ) (bs : List ℕ)
    (redirects : List (ℕ × Uri)) (state : FetchState) (user_agent : Option (List ℕ))
    (fields : Fields)
    → uri.host ≡ b ∷ bs
    → follow_all redirects (fetch uri options max_redirects) ≡ some state
    → request_fields user_agent state ≡ some fields
    → has_sensitive fields ≡ true
    → StaysIn (b ∷ bs) redirects
      × KeepsTls (uri.protocol) redirects
      × (length redirects ≤ max_redirects)
follow_all-has_sensitive uri options max_redirects b bs redirects state user_agent fields host h
      sent carried =
    let down = has_sensitive-stripped user_agent state fields sent carried in
    let (flag, within, tls) =
      follow_all-unstripped b bs redirects (fetch uri options max_redirects) state host h down in
    (within, tls, follow_all-length redirects (fetch uri options max_redirects) state h)
