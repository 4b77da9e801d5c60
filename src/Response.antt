-- ===== src/Response.antt =====
-- src/response.zig: a response and its two body writers. `sent` is what the connection's writer has
-- taken; it takes `room` bytes more, or any number when that is none, and then fails with
-- WriteFailed.
pub mod Head
pub mod Cookies
pub mod Values
pub mod Body
pub mod Chunks
pub mod Streaming
pub mod Session
pub mod Framing
mod Examples
use dusty.Base.{
  ℕ, zero, suc, ◌+◌, ◌-◌, ◌/◌, ◌%◌, ◌*◌, Bool, true, false, ◌&&◌, ◌||◌, not, List, [], ◌∷◌, ◌++◌,
  map, Option, none, some, ◌==◌, leb, ltb, if◌then◌else◌, length, take, replicate, codes,
}
use dusty.Headers.{Headers, Slot, get, put, remove}

pub record Response : Type 0 where
  pub status : ℕ
  pub body : List ℕ
  pub headers : Headers
  pub content_type : Option (List ℕ)
  pub buffer : List ℕ
  pub sent : List ℕ
  pub room : Option ℕ
  pub written : Bool
  pub headers_written : Bool
  pub keepalive : Bool
  pub chunked : Bool
  pub streaming : Bool
  pub head : Bool
  pub body_writer_open : Bool
  pub content_length : Option ℕ
  pub body_sent : ℕ

-- `assertion_failed` stands for a failed std.debug.assert.
pub data Error : Type 0 where
  write_failed headers_already_sent invalid_header_name invalid_header_value too_many_headers :
      Error
  invalid_content_length content_length_mismatch assertion_failed invalid_cookie : Error

pub data Result : Type 0 where
  done : Response → Result
  failed : Error → Response → Result

abbrev pub and_then : Result → (Response → Result) → Result
and_then (done r) next = next r
and_then (failed e r) next = failed e r

-- `writeAll` on the connection's writer.
pub write_all : List ℕ → Response → Result
write_all bytes r = elim (r.room) [
  | none ↦ done (record r { sent = r.sent ++ bytes })
  | some n ↦
      if leb (length bytes) n
      then done (record r { sent = r.sent ++ bytes; room = some (n - length bytes) })
      else failed write_failed (record r { sent = r.sent ++ take n bytes; room = some 0 })
]

pub write_pieces : List (List ℕ) → Response → Result
unfolding write_all
write_pieces [] r = done r
write_pieces (piece ∷ pieces) r = and_then (write_all piece r) (λ s. write_pieces pieces s)

-- `{d}` and `{x}` of std.fmt: the digits of a number, on fuel.
abbrev pub digit : ℕ → ℕ
digit d = if ltb d 10 then d + b'0' else d - 10 + b'a'

unfoldable pub digits : ℕ → ℕ → ℕ → List ℕ → List ℕ
digits base zero n behind = behind
digits base (suc fuel) n behind =
    let more = digits base fuel (n / base) (digit (n % base) ∷ behind) in
    if ltb n base then digit (n % base) ∷ behind else more

unfoldable pub decimal : ℕ → List ℕ
unfolding digits
decimal n = digits 10 (suc n) n []

abbrev pub hexadecimal : ℕ → List ℕ
unfolding digits
hexadecimal n = digits 16 (suc n) n []

abbrev crlf : List ℕ
crlf = 13 ∷ 10 ∷ []

-- The bytes of `allowed_header_name_bytes`.
abbrev is_tchar : ℕ → Bool
is_tchar b =
    any_of (codes "!#$%&'*+-.^_`|~0123456789abcdefghijklmnopqrstuvwxyzABCDEFGHIJKLMNOPQRSTUVWXYZ")
  where
    any_of : List ℕ → Bool
    any_of [] = false
    any_of (c ∷ cs) = b == c || any_of cs

unfoldable pub all_tchars : List ℕ → Bool
all_tchars [] = true
all_tchars (b ∷ bs) = is_tchar b && all_tchars bs

-- `validateHeaderName`
unfoldable pub validate_header_name : List ℕ → Bool
unfolding all_tchars
validate_header_name [] = false
validate_header_name (b ∷ bs) = all_tchars (b ∷ bs)

-- `validateHeaderValue`
unfoldable pub validate_header_value : List ℕ → Bool
validate_header_value [] = true
validate_header_value (b ∷ bs) = not (b == 13 || (b == 10 || b == 0)) && validate_header_value bs
