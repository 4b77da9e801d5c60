-- ===== src/Cookie/Examples.antt =====
-- Cookies at concrete values.
use dusty.Base.{ℕ, ◌≡◌, refl, true, false, List, [], ◌∷◌, none, some, codes, split_scalar}
use dusty.Cookie.{CookieOpts, lax, get_cookie, serialize_cookie}
use dusty.Cookie.Stored.{SentBack, last, more, first_named, get_cookie-SentBack}

abbrev opts : CookieOpts
opts = record {
  path = codes "/";
  domain = [];
  max_age = some (codes "60");
  secure = false;
  http_only = true;
  partitioned = false;
  same_site = some lax;
}

abbrev session_text : List ℕ
session_text = codes "session=abc; Path=/; Max-Age=60; HttpOnly; SameSite=Lax"

abbrev theme_text : List ℕ
theme_text = codes "theme=\"dark, blue\"; Path=/; Max-Age=60; HttpOnly; SameSite=Lax"

session_written : serialize_cookie (codes "session") (codes "abc") opts ≡ some session_text
unfolding serialize_cookie
session_written = refl

theme_written : serialize_cookie (codes "theme") (codes "dark, blue") opts ≡ some theme_text
unfolding serialize_cookie
theme_written = refl

refused : serialize_cookie (codes "a") (codes "1; Secure") opts ≡ none
unfolding serialize_cookie
refused = refl

-- The quotes of a value with a space stay on it.
still_quoted :
    get_cookie (codes "theme") (codes "session=abc; theme=\"dark, blue\"")
    ≡ some (codes "\"dark, blue\"")
unfolding get_cookie
still_quoted = refl

abbrev jar : List (List ℕ × List ℕ)
jar = (codes "session", codes "abc") ∷ (codes "theme", codes "dark, blue") ∷ []

abbrev sent_header : List ℕ
sent_header = codes "session=abc; theme=\"dark, blue\""

jar_sent : SentBack jar sent_header
unfolding split_scalar
jar_sent =
    more (codes "session") (codes "abc") opts session_text session_written
      (last (codes "theme") (codes "dark, blue") opts theme_text theme_written)

get_cookie-SentBack_example :
    get_cookie (codes "theme") sent_header ≡ first_named (codes "theme") jar
get_cookie-SentBack_example =
    get_cookie-SentBack (codes "theme") jar sent_header (refl, (refl, (refl, (refl, (refl, tt)))))
      jar_sent
