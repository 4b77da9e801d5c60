-- ===== src/Session/Execute/Return.antt =====
-- src/middleware/Session.zig, src/response.zig and src/cookie.zig: a session that goes to the user
-- agent in a Set-Cookie field and comes back with the next request.
use dusty.Base.{
  ℕ, ◌≤◌, ◌≡◌, refl, ap, ◌∙◌, Bool, true, false, not, ◌&&◌, List, [], ◌∷◌, ◌++◌, All, some, arith,
  leb, length, codes, bytes_eq_self, split_scalar, if_true, if_false,
}
use dusty.Headers.{add, hash_fn}
use dusty.Cookie.{
  CookieOpts, serialize_cookie, validate_cookie_name, validate_cookie_value, quoted, attributes,
  bad_in_name, bad_in_value, one_of, any_byte,
}
use dusty.Cookie.Jar.{name-Lacks}
use dusty.Cookie.Stored.{SentBack, more, first_part, first_named, get_cookie-SentBack}
use dusty.Response.{Response, done, validate_header_value}
use dusty.Response.Values.{validate_header_value-append}
use dusty.Response.Cookies.{set_cookie, add_cookie, add_header}
use dusty.Session.{Entries, SessionData, empty_session, max_entries}
use dusty.Session.Map.{IsTidy}
use dusty.Session.Sign.{
  Primitives, IsLawful, Config, url_safe, expires_at, sign_session, load, loaded, signed_bytes,
  payload_of, encoded,
}
use dusty.Session.Sign.Trip.{IsBytes, IsUnexpired, load-sign_session, IsByte-signed_bytes}
use dusty.Session.Execute.{
  returned, begin, finish, is_empty, with_age, set_signed, logged, load_found, or_kept,
}

abbrev IsSafe : List ℕ → Type 0
IsSafe = All (λ b. url_safe b ≡ true)

-- A test that fails on every url-safe byte fails on every text of them.
any_byte-IsSafe :
    (test : ℕ → Bool)
    → ((b : ℕ) → url_safe b ≡ true → test b ≡ false)
    → (bs : List ℕ) → IsSafe bs
    → any_byte test bs ≡ false
unfolding any_byte
any_byte-IsSafe test h [] safe = refl
any_byte-IsSafe test h (b ∷ bs) (good, safe) =
    ground (arith, h b good, any_byte-IsSafe test h bs safe)

safe-bad_in_value : (b : ℕ) → url_safe b ≡ true → bad_in_value b ≡ false
unfolding bad_in_value one_of
safe-bad_in_value b h = ground (arith, h)

safe-one_of : (b : ℕ) → url_safe b ≡ true → one_of (codes ", ") b ≡ false
unfolding one_of
safe-one_of b h = ground (arith, h)

validate_header_value-IsSafe : (bs : List ℕ) → IsSafe bs → validate_header_value bs ≡ true
unfolding validate_header_value
validate_header_value-IsSafe [] h = refl
validate_header_value-IsSafe (b ∷ bs) (good, safe) =
    ground (arith, good, validate_header_value-IsSafe bs safe)

validate_header_value-name :
    (bs : List ℕ) → any_byte bad_in_name bs ≡ false → validate_header_value bs ≡ true
unfolding validate_header_value any_byte bad_in_name
validate_header_value-name [] h = refl
validate_header_value-name (b ∷ bs) h =
    ground (arith, h, validate_header_value-name bs (ground (arith, h)))

validate_header_value-valid_name :
    (name : List ℕ) → validate_cookie_name name ≡ true → validate_header_value name ≡ true
unfolding validate_cookie_name
validate_header_value-valid_name [] h = absurd (ground (arith, h))
validate_header_value-valid_name (b ∷ bs) h =
    validate_header_value-name (b ∷ bs) (ground (arith, h))

quoted-IsSafe : (value : List ℕ) → IsSafe value → quoted value ≡ value
unfolding quoted
quoted-IsSafe value safe =
    if_false _ _ _ (any_byte-IsSafe (one_of (codes ", ")) safe-one_of value safe)

abbrev text_of : List ℕ → List ℕ → CookieOpts → List ℕ
text_of name value opts = (name ++ b'=' ∷ value) ++ attributes opts

serialize_cookie-IsSafe :
    (name value : List ℕ) (opts : CookieOpts)
    → validate_cookie_name name ≡ true
    → IsSafe value
    → serialize_cookie name value opts ≡ some (text_of name value opts)
unfolding serialize_cookie validate_cookie_value
serialize_cookie-IsSafe name value opts h safe =
    if_false _ _ _ (ap not h)
    ∙ if_false (not (not (any_byte bad_in_value value))) _ _
        (ap (λ b. not (not b)) (any_byte-IsSafe bad_in_value safe-bad_in_value value safe))
    ∙ ap (λ t. some ((name ++ b'=' ∷ t) ++ attributes opts)) (quoted-IsSafe value safe)

validate_header_value-text_of :
    (name value : List ℕ) (opts : CookieOpts)
    → validate_cookie_name name ≡ true
    → IsSafe value
    → validate_header_value (attributes opts) ≡ true
    → validate_header_value (text_of name value opts) ≡ true
unfolding validate_header_value
validate_header_value-text_of name value opts h safe ok =
    validate_header_value-append (name ++ b'=' ∷ value) (attributes opts)
    ∙ ap (λ b. b && validate_header_value (attributes opts))
        (validate_header_value-append name (b'=' ∷ value))
    ∙ rw (validate_header_value-valid_name name h) (rw (validate_header_value-IsSafe value safe) ok)

abbrev pub added : List ℕ → Response → Response
added text r = record r {
  headers = record r.headers {
    slots =
        r.headers.slots
        ++ record { key = codes "Set-Cookie"; value = text; hash = hash_fn (codes "Set-Cookie") }
          ∷ [];
  };
}

set_cookie-IsSafe :
    (name value : List ℕ) (opts : CookieOpts) (r : Response)
    → validate_cookie_name name ≡ true
    → IsSafe value
    → validate_header_value (attributes opts) ≡ true
    → r.headers_written ≡ false
    → leb (r.headers.capacity) (length (r.headers.slots)) ≡ false
    → set_cookie name value opts r ≡ done (added (text_of name value opts) r)
unfolding set_cookie add
set_cookie-IsSafe name value opts r h safe ok unsent room =
    if_false _ _ _ unsent
    ∙ ap (add_cookie r) (serialize_cookie-IsSafe name value opts h safe)
    ∙ if_false _ _ _ (ap not (validate_header_value-text_of name value opts h safe ok))
    ∙ ap (add_header r) (if_false _ _ _ room)

-- The session of the next request, when the cookie's pair stands first in its Cookie header.
begin-text_of :
    (p : Primitives) (config : Config) (later : ℕ) (signed : List ℕ) (opts : CookieOpts)
    (after : SessionData) (others : List (List ℕ × List ℕ)) (tail : List ℕ)
    → validate_cookie_name (config.cookie_name) ≡ true
    → IsSafe signed
    → SentBack others tail
    → load p config later signed empty_session ≡ loaded after
    → begin p config later
        (first_part (split_scalar b';' (text_of (config.cookie_name) signed opts))
          ++ b';' ∷ b' ' ∷ tail)
        empty_session
      ≡ some after
unfolding begin first_named bad_in_name one_of
begin-text_of p config later signed opts after others tail h safe back ok =
    let name = config.cookie_name in
    let written = serialize_cookie-IsSafe name signed opts h safe in
    let found =
      get_cookie-SentBack name ((name, signed) ∷ others) _ (name-Lacks b'=' name refl h)
        (more name signed opts _ written back) in
    ap (load_found p config later empty_session)
      (found ∙ if_true _ _ _ (bytes_eq_self name) ∙ ap some (quoted-IsSafe signed safe))
    ∙ ap (or_kept empty_session) ok

-- The options of the cookie that `finish` writes for a session with entries.
abbrev pub opts_of : Config → CookieOpts
opts_of config = with_age (config.max_age) (config.cookie_opts)

abbrev changed_session : Entries → SessionData
changed_session entries = record { entries = entries; modified = true }

finish-sign_session :
    (p : Primitives) (config : Config) (entries : Entries) (now : ℕ) (r : Response)
    (signed : List ℕ)
    → is_empty entries ≡ false
    → sign_session p config (changed_session entries) now ≡ some signed
    → finish p config now (changed_session entries) r
      ≡ logged (set_cookie (config.cookie_name) signed (opts_of config) r)
unfolding finish
finish-sign_session p config entries now r signed full h =
    if_false _ _ _ full ∙ ap (set_signed config r) h

-- A handler changed the session and left entries in it, the header block is not sent and has room
-- for a field, the cookie's name and options are ones that may be written, and the expiry fits its
-- cast. Then the middleware adds one Set-Cookie field, last, and nothing else changes; and when the
-- user agent sends its pair back, with any other cookies behind it, within the session's age, the
-- next request starts with exactly these entries, in order and unmodified.
pub finish-begin :
    (p : Primitives)
    → IsLawful p
    → (config : Config) (entries : Entries) (now later expires : ℕ) (r : Response)
      (others : List (List ℕ × List ℕ)) (tail : List ℕ)
    → IsTidy entries
    → length entries ≤ max_entries
    → IsBytes entries
    → is_empty entries ≡ false
    → validate_cookie_name (config.cookie_name) ≡ true
    → validate_header_value (attributes (opts_of config)) ≡ true
    → r.headers_written ≡ false
    → leb (r.headers.capacity) (length (r.headers.slots)) ≡ false
    → expires_at (config.max_age) now ≡ some expires
    → IsUnexpired (config.max_age) now later
    → SentBack others tail
    → (text : List ℕ) × (finish p config now (record { entries = entries; modified = true }) r
        ≡ returned (added text r))
      × (begin p config later
            (first_part (split_scalar b';' text) ++ b';' ∷ b' ' ∷ tail)
            empty_session
          ≡ some (record { entries = entries; modified = false }))
unfolding sign_session
finish-begin p laws config entries now later expires r others tail tidy small bytes full name_ok ok
      unsent room fits fresh back =
    let raw = signed_bytes p (config.secret_key) expires (payload_of entries) in
    let signed = p.encode raw in
    let safe =
      laws.safe raw (IsByte-signed_bytes p laws (config.secret_key) expires entries bytes) in
    let sign : sign_session p config (changed_session entries) now ≡ some signed =
      ap (encoded p config (changed_session entries)) fits in
    (
      text_of (config.cookie_name) signed (opts_of config),
      finish-sign_session p config entries now r signed full sign
          ∙ ap logged (
              set_cookie-IsSafe (config.cookie_name) signed (opts_of config) r name_ok safe ok
                unsent room),
      begin-text_of p config later signed (opts_of config) _ others tail name_ok safe back (
          load-sign_session p laws config entries true now later signed tidy small bytes fresh
            sign),
    )
