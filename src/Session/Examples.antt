-- ===== src/Session/Examples.antt =====
-- Sessions at concrete values, with a mac and an encoding that meet what is asked of them.
use dusty.Base.{
  ℕ, zero, suc, ◌+◌, ◌-◌, ◌*◌, ◌/◌, ◌%◌, ◌<◌, ◌≡◌, refl, true, false, List, [], ◌∷◌, ◌++◌, All,
  Option, none, some, arith, replicate, length-replicate, codes, split_scalar, bytes_eq,
}
use dusty.Base.Bits.{IsByte}
use dusty.Headers.{init, add}
use dusty.Cookie.{lax, serialize_cookie, validate_cookie_name, attributes}
use dusty.Cookie.Stored.{SentBack, last, first_part}
use dusty.Response.{Response, validate_header_value, digits, decimal}
use dusty.Response.Cookies.{set_cookie}
use dusty.Response.Session.{fresh}
use dusty.Session.{Entries, empty_session, find_entry, get, has_zero}
use dusty.Session.Map.{IsTidy}
use dusty.Session.Calls.{
  Call, set_call, remove_call, perform_all, specified_all, empty_store, Implements,
  perform_all-Implements,
}
use dusty.Session.Sign.{
  Primitives, IsLawful, Config, loaded, refused, expired, url_safe, payload_of, signed_bytes,
  sign_session, load,
}
use dusty.Session.Sign.Trip.{IsBytes}
use dusty.Session.Sign.Accepted.{IsGenuine, session_in, load-IsGenuine}
use dusty.Session.Execute.{returned, begin, finish}
use dusty.Session.Execute.Return.{added, opts_of, finish-begin}

total : List ℕ → ℕ
total [] = 0
total (b ∷ bs) = b + total bs

-- The sum of the key and the message, 32 times, and two letters for each byte.
sum_mac : List ℕ → List ℕ → List ℕ
unfolding total
sum_mac key message = replicate 32 ((total key + 3 * total message) % 256)

letters : List ℕ → List ℕ
letters [] = []
letters (b ∷ bs) = (b'A' + b / 16) ∷ (b'A' + b % 16) ∷ letters bs

abbrev also : ℕ → Option (List ℕ) → Option (List ℕ)
also b none = none
also b (some bs) = some (b ∷ bs)

read_letters : List ℕ → Option (List ℕ)
read_letters [] = some []
read_letters (h ∷ []) = none
read_letters (h ∷ l ∷ rest) = also (16 * (h - b'A') + (l - b'A')) (read_letters rest)

toy : Primitives
unfolding sum_mac letters read_letters
toy = record { mac = sum_mac; encode = letters; decode = read_letters }

All-replicate : (n b : ℕ) → b < 256 → All IsByte (replicate n b)
All-replicate zero b h = tt
All-replicate (suc n) b h = (h, All-replicate n b h)

read_letters-letters : (bs : List ℕ) → All IsByte bs → read_letters (letters bs) ≡ some bs
unfolding letters read_letters
read_letters-letters [] h = refl
read_letters-letters (b ∷ bs) (small, rest) =
    let back : 16 * (b'A' + b / 16 - b'A') + (b'A' + b % 16 - b'A') ≡ b = omega (arith, small) in
    rw back (rw (read_letters-letters bs rest) refl)

letters-safe : (bs : List ℕ) → All IsByte bs → All (λ b. url_safe b ≡ true) (letters bs)
unfolding letters
letters-safe [] h = tt
letters-safe (b ∷ bs) (small, rest) =
    (ground (arith, small), (ground (arith, small), letters-safe bs rest))

toy-IsLawful : IsLawful toy
unfolding toy sum_mac
toy-IsLawful = record {
  mac_length = λ key message. length-replicate 32 ((total key + 3 * total message) % 256);
  mac_bytes = λ key message. All-replicate 32 ((total key + 3 * total message) % 256) (omega arith);
  decoded = read_letters-letters;
  safe = letters-safe;
}

-- Three keys, one of them removed again: the last entry moves to its place.
abbrev calls : List Call
calls =
    set_call (codes "a") (codes "1")
    ∷ set_call (codes "b") (codes "2")
    ∷ set_call (codes "c") []
    ∷ set_call (codes "bad") (0 ∷ [])
    ∷ remove_call (codes "a")
    ∷ set_call (codes "b") (codes "3")
    ∷ []

abbrev kept : Entries
kept = (codes "c", []) ∷ (codes "b", codes "3") ∷ []

swapped : (perform_all calls empty_session).1 ≡ record { entries = kept; modified = true }
unfolding perform_all bytes_eq
swapped = refl

perform_all-Implements_example :
    ((perform_all calls empty_session).0 ≡ (specified_all calls empty_store).0)
    × Implements ((perform_all calls empty_session).1) ((specified_all calls empty_store).1)
unfolding get find_entry
perform_all-Implements_example =
    perform_all-Implements calls empty_session empty_store
      (tt, (λ key. refl), refl, omega arith, refl)

abbrev config : Config
config = record {
  secret_key = codes "secret";
  cookie_name = codes "session";
  max_age = some 3600000000000;
  cookie_opts = record {
    path = codes "/";
    domain = [];
    max_age = none;
    secure = true;
    http_only = true;
    partitioned = false;
    same_site = some lax;
  };
}

abbrev signed_at : ℕ
signed_at = 1700000000000000000

abbrev loaded_at : ℕ
loaded_at = 1700003599000000000

abbrev raw : List ℕ
raw = signed_bytes toy (codes "secret") 1700003600 (payload_of kept)

abbrev text : List ℕ
text = letters raw

text_signed :
    sign_session toy config (record { entries = kept; modified = true }) signed_at ≡ some text
unfolding sign_session toy letters
text_signed = refl

text_expires : load toy config 1700003601000000000 text empty_session ≡ refused expired
unfolding load toy letters sum_mac total read_letters payload_of split_scalar bytes_eq
text_expires = refl

text_loaded :
    load toy config loaded_at text empty_session
    ≡ loaded (record { entries = kept; modified = false })
unfolding load toy letters sum_mac total read_letters payload_of split_scalar bytes_eq
text_loaded = refl

kept-IsTidy : IsTidy kept
unfolding find_entry has_zero bytes_eq
kept-IsTidy = (refl, refl, refl, (refl, refl, refl, tt))

kept-IsBytes : IsBytes kept
kept-IsBytes = (((omega arith, tt), tt), (((omega arith, tt), (omega arith, tt)), tt))

load-IsGenuine_example :
    (bytes : List ℕ) × (toy.decode text ≡ some bytes)
    × IsGenuine toy config loaded_at bytes
    × (session_in bytes empty_session ≡ record { entries = kept; modified = false })
load-IsGenuine_example =
    load-IsGenuine toy config loaded_at text empty_session
      (record { entries = kept; modified = false }) text_loaded

abbrev response : Response
response = fresh 200 (init 8) true false

abbrev theme : List (List ℕ × List ℕ)
theme = (codes "theme", codes "dark") ∷ []

theme_back : SentBack theme (codes "theme=dark")
unfolding split_scalar serialize_cookie
theme_back =
    last (codes "theme") (codes "dark") (config.cookie_opts)
      (codes "theme=dark; Path=/; HttpOnly; Secure; SameSite=Lax") refl

name_valid : validate_cookie_name (codes "session") ≡ true
unfolding validate_cookie_name
name_valid = refl

opts_valid : validate_header_value (attributes (opts_of config)) ≡ true
unfolding validate_header_value attributes decimal digits
opts_valid = refl

finish-begin_example :
    (text : List ℕ) × (finish toy config signed_at
        (record { entries = kept; modified = true })
        response
      ≡ returned (added text response))
    × (begin toy config loaded_at
          (first_part (split_scalar b';' text) ++ b';' ∷ b' ' ∷ codes "theme=dark")
          empty_session
        ≡ some (record { entries = kept; modified = false }))
finish-begin_example =
    finish-begin toy toy-IsLawful config kept signed_at loaded_at 1700003600 response theme
      (codes "theme=dark") kept-IsTidy (omega arith) kept-IsBytes refl name_valid opts_valid refl
      refl refl (omega arith, omega arith) theme_back

-- A response that is streamed already keeps its headers, and a session that was cleared deletes its
-- cookie.
too_late :
    finish toy config signed_at
      (record { entries = kept; modified = true })
      (record response { headers_written = true })
    ≡ returned (record response { headers_written = true })
unfolding finish set_cookie sign_session
too_late = refl

deleted :
    finish toy config signed_at (record { entries = []; modified = true }) response
    ≡ returned
        (added (codes "session=; Path=/; Max-Age=0; HttpOnly; Secure; SameSite=Lax") response)
unfolding finish set_cookie serialize_cookie validate_header_value add
deleted = refl
