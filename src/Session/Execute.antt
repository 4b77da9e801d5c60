-- ===== src/Session/Execute.antt =====
-- src/middleware/Session.zig, `execute`: what a session middleware does before and after the rest.
pub mod Return
use dusty.Base.{
  ℕ, ◌+◌, ◌/◌, Bool, true, false, ◌&&◌, ◌||◌, not, List, [], ◌∷◌, Option, none, some, if◌then◌else◌,
  length, codes,
}
use dusty.Cookie.{CookieOpts, get_cookie}
use dusty.Response.{Response, Result, Error, done, failed, headers_already_sent, decimal}
use dusty.Response.Cookies.{set_cookie}
use dusty.Session.{Entries, SessionData}
use dusty.Session.Sign.{
  Primitives, Config, LoadResult, loaded, refused, panicked, ns_per_s, load, sign_session,
}

-- Whether the middleware returned, failed, or panicked on a cast.
pub data Ending : Type 0 where
  returned : Response → Ending
  threw : Error → Response → Ending
  panic : Ending

-- The session before `next`, none on a panic: an error of `load` is only logged.
abbrev pub or_kept : SessionData → LoadResult → Option SessionData
or_kept session (loaded after) = some after
or_kept session (refused e) = some session
or_kept session panicked = none

abbrev pub load_found : Primitives → Config → ℕ → SessionData → Option (List ℕ) → Option SessionData
unfolding load
load_found p config now session none = some session
load_found p config now session (some raw) = or_kept session (load p config now raw session)

-- `header` is the request's Cookie header, empty without one.
unfoldable pub begin : Primitives → Config → ℕ → List ℕ → SessionData → Option SessionData
unfolding load_found get_cookie
begin p config now header session =
    load_found p config now session (get_cookie (config.cookie_name) header)

abbrev pub is_set : Option ℕ → Bool
is_set none = false
is_set (some age) = true

abbrev pub is_empty : Entries → Bool
is_empty [] = true
is_empty (e ∷ entries) = false

abbrev pub should_set : Config → SessionData → Bool
should_set config session =
    session.modified || is_set (config.max_age) && not (is_empty (session.entries))

-- The options with the age of the session, and with an age of zero.
abbrev pub with_age : Option ℕ → CookieOpts → CookieOpts
with_age none opts = opts
with_age (some age) opts = record opts { max_age = some (decimal (age / ns_per_s)) }

abbrev pub delete_opts : CookieOpts → CookieOpts
delete_opts opts = record opts { max_age = some (codes "0") }

-- HeadersAlreadySent is logged only.
abbrev pub logged : Result → Ending
logged (done r) = returned r
logged (failed headers_already_sent r) = returned r
logged (failed e r) = threw e r

abbrev pub set_signed : Config → Response → Option (List ℕ) → Ending
unfolding set_cookie
set_signed config r none = panic
set_signed config r (some signed) =
    logged
      (set_cookie (config.cookie_name) signed (with_age (config.max_age) (config.cookie_opts)) r)

unfoldable pub finish : Primitives → Config → ℕ → SessionData → Response → Ending
unfolding set_signed sign_session
finish p config now session r =
    if not (should_set config session)
    then returned r
    else if is_empty (session.entries)
    then logged (set_cookie (config.cookie_name) [] (delete_opts (config.cookie_opts)) r)
    else set_signed config r (sign_session p config session now)

-- What `next` gives: the session as the handler left it, and how it ended.
abbrev pub Next : Type 0
Next = SessionData → Response → SessionData × Result

abbrev finish_result : Primitives → Config → ℕ → SessionData × Result → Ending
unfolding finish
finish_result p config now (session, done r) = finish p config now session r
finish_result p config now (session, failed e r) = threw e r

abbrev continue_with : Primitives → Config → ℕ → Next → Response → Option SessionData → Ending
unfolding finish_result
continue_with p config now next r none = panic
continue_with p config now next r (some session) = finish_result p config now (next session r)

-- The clock is read once before `next` and once behind it.
unfoldable pub execute :
    Primitives → Config → ℕ → ℕ → List ℕ → SessionData → Next → Response → Ending
unfolding begin continue_with
execute p config now later header session next r =
    continue_with p config later next r (begin p config now header session)
