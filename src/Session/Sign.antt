-- ===== src/Session/Sign.antt =====
-- src/middleware/Session.zig: `signSession` and `load`, the text of a session's cookie. The HMAC
-- and the base64 code are the standard library's: a record of functions, with what is relied on
-- apart.
pub mod Trip
pub mod Accepted
use dusty.Base.{
  ℕ, suc, ◌+◌, ◌*◌, ◌/◌, ◌%◌, ◌^◌, Bool, true, false, not, List, [], ◌∷◌, ◌++◌, All, Option, none,
  some, ◌≡◌, ◌==◌, leb, ltb, if◌then◌else◌, length, take, drop, get_or, min, bytes_eq, split_scalar,
}
use dusty.Base.Bits.{IsByte}
use dusty.Cookie.{CookieOpts}
use dusty.Session.{Entries, SessionData, max_entries}

pub record Primitives : Type 0 where
  pub mac : List ℕ → List ℕ → List ℕ
  pub encode : List ℕ → List ℕ
  pub decode : List ℕ → Option (List ℕ)

-- The letters and digits, "-" and "_".
abbrev pub url_safe : ℕ → Bool
url_safe b =
    if leb b'a' b
    then leb b b'z'
    else if leb b'A' b
    then (if leb b b'Z' then true else b == b'_')
    else if leb b'0' b
    then leb b b'9'
    else b == b'-'

-- A mac of 32 bytes; an encoding of url-safe letters that is decoded again.
pub record IsLawful (p : Primitives) : Type 0 where
  pub mac_length : (key message : List ℕ) → length (p.mac key message) ≡ 32
  pub mac_bytes : (key message : List ℕ) → All IsByte (p.mac key message)
  pub decoded : (bytes : List ℕ) → All IsByte bytes → p.decode (p.encode bytes) ≡ some bytes
  pub safe : (bytes : List ℕ) → All IsByte bytes → All (λ b. url_safe b ≡ true) (p.encode bytes)

-- Times and durations are nanoseconds.
pub record Config : Type 0 where
  pub secret_key : List ℕ
  pub cookie_name : List ℕ
  pub max_age : Option ℕ
  pub cookie_opts : CookieOpts

abbrev pub ns_per_s : ℕ
ns_per_s = 1000000000

abbrev pub overhead : ℕ
overhead = 40

-- The eight bytes of `Header`: the version, three reserved bytes and `expires_at`.
abbrev pub header_bytes : ℕ → List ℕ
header_bytes expires =
    1
    ∷ 0
    ∷ 0
    ∷ 0
    ∷ expires % 256
    ∷ expires / 256 % 256
    ∷ expires / 65536 % 256
    ∷ expires / 16777216 % 256
    ∷ []

abbrev pub read_expires : List ℕ → ℕ
read_expires bytes =
    get_or bytes 4 0
    + 256 * get_or bytes 5 0
    + 65536 * get_or bytes 6 0
    + 16777216 * get_or bytes 7 0

unfoldable pub payload_of : Entries → List ℕ
payload_of [] = []
payload_of ((key, value) ∷ entries) = key ++ 0 ∷ (value ++ 0 ∷ payload_of entries)

-- None where the cast of the seconds to an i64 fails.
abbrev pub expires_at : Option ℕ → ℕ → Option ℕ
expires_at none now = some 0
expires_at (some age) now =
    let seconds = (now + age) / ns_per_s in
    if leb (2 ^ 63) seconds then none else some (min seconds 4294967295)

abbrev pub signed_bytes : Primitives → List ℕ → ℕ → List ℕ → List ℕ
signed_bytes p key expires payload =
    header_bytes expires ++ (p.mac key (header_bytes expires ++ payload) ++ payload)

abbrev pub encoded : Primitives → Config → SessionData → Option ℕ → Option (List ℕ)
encoded p config session none = none
encoded p config session (some expires) =
    some (p.encode (signed_bytes p (config.secret_key) expires (payload_of (session.entries))))

unfoldable pub sign_session : Primitives → Config → SessionData → ℕ → Option (List ℕ)
sign_session p config session now = encoded p config session (expires_at (config.max_age) now)

pub data LoadError : Type 0 where
  invalid_encoding unsupported_version invalid_signature expired : LoadError

-- `panicked` is a cast of the time to an u32 that fails.
pub data LoadResult : Type 0 where
  loaded : SessionData → LoadResult
  refused : LoadError → LoadResult
  panicked : LoadResult

-- The last loop of `load`.
unfoldable pub parse_pairs : List (List ℕ) → Entries → Entries
parse_pairs [] entries = entries
parse_pairs (key ∷ []) entries = entries
parse_pairs (key ∷ value ∷ parts) entries =
    if leb max_entries (length entries)
    then entries
    else parse_pairs parts (entries ++ (key, value) ∷ [])

abbrev pub check_expiry : ℕ → ℕ → LoadResult → LoadResult
check_expiry expires now session =
    if expires == 0
    then session
    else if leb (2 ^ 32) (now / ns_per_s)
    then panicked
    else if ltb expires (now / ns_per_s)
    then refused expired
    else session

abbrev pub load_bytes : Primitives → Config → ℕ → Option (List ℕ) → SessionData → LoadResult
load_bytes p config now none session = refused invalid_encoding
load_bytes p config now (some bytes) session =
    if ltb (length bytes) overhead
    then refused invalid_encoding
    else if not (get_or bytes 0 0 == 1)
    then refused unsupported_version
    else if not (
        bytes_eq (take 32 (drop 8 bytes))
          (p.mac (config.secret_key) (take 8 bytes ++ drop overhead bytes)))
    then refused invalid_signature
    else check_expiry (read_expires bytes) now (
        loaded (record session {
          entries = parse_pairs (split_scalar 0 (drop overhead bytes)) (session.entries);
        }))

unfoldable pub load : Primitives → Config → ℕ → List ℕ → SessionData → LoadResult
unfolding parse_pairs
load p config now raw session = load_bytes p config now (p.decode raw) session
