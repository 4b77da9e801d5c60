-- ===== src/Response/Examples.antt =====
-- Responses at concrete values.
use dusty.Base.{
  ℕ, ◌≡◌, refl, true, false, List, [], ◌∷◌, ◌++◌, Option, none, some, ◌==◌, if◌then◌else◌, length,
  codes,
}
use dusty.Headers.{Headers, Slot, get, init}
use dusty.Response.{Response, Result, done, failed, and_then, content_length_mismatch}
use dusty.Response.Head.{typed}
use dusty.Response.Body.{stream, write, reset_body, terminator}
use dusty.Response.Session.{Piece, all_bytes, fresh, unsent, declared, block, session}
use dusty.Response.Framing.{ReadAs, session-chunked, session-length}

-- The name of every status is OK here, and the one length that is read is 5.
abbrev status_name : ℕ → List ℕ
status_name status = codes "OK"

abbrev parse_int : List ℕ → Option ℕ
parse_int value = some 5

abbrev pieces : List Piece
pieces =
    record { pending = codes "he"; slices = codes "l" ∷ []; pattern = codes "l"; splat = 1 }
    ∷ record { pending = []; slices = []; pattern = []; splat = 1 }
    ∷ []

abbrev no_fields : Headers
no_fields = init 4

abbrev with_length_field : Headers
with_length_field = record {
  capacity = 4;
  slots = record { key = codes "Content-Length"; value = codes "5"; hash = 0x0f } ∷ [];
}

abbrev sent_by : Result → List ℕ
sent_by (done r) = r.sent
sent_by (failed e r) = r.sent

chunks_on_wire :
    sent_by (session status_name parse_int pieces (codes "o") (fresh 200 no_fields false false))
    ≡ codes
        "HTTP/1.1 200 OK\r\nConnection: close\r\nTransfer-Encoding: chunked\r\n\r\n4\r\nhell\r\n1\r\no\r\n0\r\n\r\n"
unfolding session
chunks_on_wire = refl

no_length : get (codes "Content-Length") no_fields ≡ none
unfolding get
no_length = refl

length_read : get (codes "Content-Length") with_length_field ≡ some (codes "5")
unfolding get
length_read = refl

abbrev html : Option (List ℕ)
html = some (codes "text/html")

-- The fields with the type; the hash is that of the lowered name.
abbrev with_type : List Slot → Headers
with_type slots = record {
  capacity = 4;
  slots =
      slots ++ record { key = codes "Content-Type"; value = codes "text/html"; hash = 0x0e } ∷ [];
}

html_fits : typed html no_fields ≡ some (with_type [])
unfolding typed
html_fits = refl

html_fits_behind : typed html with_length_field ≡ some (with_type (with_length_field.slots))
unfolding typed
html_fits_behind = refl

session-chunked_example :
    (r : Response) × (wire lines : List ℕ) × (session status_name parse_int pieces
        (codes "o")
        (unsent 200 no_fields html true false)
      ≡ done r)
    × (r.sent
        ≡ block status_name parse_int
            (declared (unsent 200 (with_type []) html true false) true none)
          ++ wire)
    × (block status_name parse_int (declared (unsent 200 (with_type []) html true false) true none)
        ≡ lines ++ codes "Transfer-Encoding: chunked\r\n\r\n")
    × ReadAs (all_bytes pieces ++ codes "o") false true wire
    × (r.keepalive ≡ true)
    × (write status_name r ≡ done r)
session-chunked_example =
    session-chunked status_name parse_int 200 no_fields true false pieces (codes "o") html
      (with_type []) html_fits no_length

session-length_example :
    (r : Response) × (wire : List ℕ) × (session status_name parse_int pieces []
        (unsent 200 with_length_field html true false)
      ≡ (if length (all_bytes pieces ++ []) == 5
          then done r
          else failed content_length_mismatch (record r { keepalive = false })))
    × (r.sent
        ≡ block status_name parse_int (
            declared
              (unsent 200 (with_type (with_length_field.slots)) html true false)
              false
              (some 5))
          ++ wire)
    × ReadAs (all_bytes pieces ++ []) false false wire
    × (r.keepalive ≡ true)
session-length_example =
    session-length status_name parse_int 200 with_length_field true false pieces [] html
      (with_type (with_length_field.slots)) html_fits_behind (codes "5") 5 length_read refl

-- A stream that fails on a full header map leaves the chunked framing chosen: the error response that
-- replaces it is a terminator alone, with no header block.
abbrev full : Response
full = record (fresh 200 (record { capacity = 0; slots = [] }) true false) {
  content_type = some (codes "text/plain");
}

abbrev replaced : Result → Result
unfolding reset_body write
replaced (done r) = done r
replaced (failed e r) =
    and_then (reset_body r) (λ s. write status_name (record s { status = 500; body = codes "500" }))

bare_terminator : sent_by (replaced (stream status_name parse_int full)) ≡ terminator
unfolding replaced stream
bare_terminator = refl
