-- ===== src/Response/Framing.antt =====
-- src/response.zig: what a peer reads of a streamed body.
use dusty.Base.{
  ℕ, zero, suc, ◌+◌, ◌≤◌, ◌<◌, ◌≡◌, refl, ap, sym, ◌∙◌, subst, Bool, true, false, List, [], ◌∷◌,
  ◌++◌, Option, none, some, arith, ◌==◌, if◌then◌else◌, length, length-append, append-nil,
  append_assoc, codes,
}
use dusty.Headers.{Headers, get}
use dusty.Response.{Response, hexadecimal, done, failed, and_then, content_length_mismatch}
use dusty.Response.Body.{terminator, write, or_close, check_length, end}
use dusty.Response.Head.{typed}
use dusty.Response.Chunks.{also_first, chunk_of, read_chunks, read_chunks-chunk_of, read_chunks-end}
use dusty.Response.Streaming.{sending, emitted, chunk_unless_empty}
use dusty.Response.Session.{
  Piece, bytes_of, all_bytes, emitted_all, closing, passing_all, drain_all, drain_all-passing,
  end-ended, block-chunked, unsent, declared, block, session, stream-chunked, stream-length,
}

-- With enough fuel the body and nothing behind it are read.
abbrev Reads : List ℕ → List ℕ → Type 0
Reads wire body = (fuel : ℕ) → length wire ≤ fuel → read_chunks fuel wire ≡ some (body, [])

Reads-terminator : Reads terminator []
Reads-terminator zero h = absurd (omega (arith, h))
Reads-terminator (suc fuel) h = read_chunks-end fuel

length_chunk : (b : ℕ) (bs : List ℕ) → 0 < length (chunk_of (b ∷ bs))
length_chunk b bs =
    let n =
      length-append (hexadecimal (length (b ∷ bs)))
        ((13 ∷ 10 ∷ []) ++ ((b ∷ bs) ++ 13 ∷ 10 ∷ [])) in
    omega (arith, n)

Reads-chunk :
    (bytes wire body : List ℕ)
    → Reads wire body
    → Reads (chunk_unless_empty bytes ++ wire) (bytes ++ body)
Reads-chunk [] wire body reads fuel h = reads fuel h
Reads-chunk (b ∷ bs) wire body reads zero h =
    absurd (omega (arith, h, length-append (chunk_of (b ∷ bs)) wire, length_chunk b bs))
Reads-chunk (b ∷ bs) wire body reads (suc fuel) h =
    let below =
      reads fuel (omega (arith, h, length-append (chunk_of (b ∷ bs)) wire, length_chunk b bs)) in
    read_chunks-chunk_of fuel b bs wire ∙ ap (also_first (b ∷ bs)) below

Reads-emitted_all :
    (ps : List Piece) (wire body : List ℕ)
    → Reads wire body
    → Reads (emitted_all false true ps ++ wire) (all_bytes ps ++ body)
Reads-emitted_all [] wire body reads = reads
Reads-emitted_all (p ∷ ps) wire body reads =
    subst (λ w. Reads w (all_bytes (p ∷ ps) ++ body))
      (sym (append_assoc (chunk_unless_empty (bytes_of p)) (emitted_all false true ps) wire))
      (subst (Reads (chunk_unless_empty (bytes_of p) ++ (emitted_all false true ps ++ wire)))
        (sym (append_assoc (bytes_of p) (all_bytes ps) body))
        (Reads-chunk (bytes_of p) (emitted_all false true ps ++ wire) (all_bytes ps ++ body)
          (Reads-emitted_all ps wire body reads)))

-- What follows the header block.
abbrev pub wire_of : Bool → Bool → List Piece → List ℕ → List ℕ
wire_of head chunked ps pending =
    emitted_all head chunked ps ++ (emitted head chunked (pending ++ []) ++ closing head chunked)

emitted_all_on_head : (chunked : Bool) (ps : List Piece) → emitted_all true chunked ps ≡ []
emitted_all_on_head chunked [] = refl
emitted_all_on_head chunked (p ∷ ps) = emitted_all_on_head chunked ps

emitted_all_as_is : (ps : List Piece) → emitted_all false false ps ≡ all_bytes ps
emitted_all_as_is [] = refl
emitted_all_as_is (p ∷ ps) = ap (λ t. bytes_of p ++ t) (emitted_all_as_is ps)

-- What a message whose body is these bytes has on the wire behind its header block.
abbrev pub ReadAs : List ℕ → Bool → Bool → List ℕ → Type 0
ReadAs body true chunked wire = wire ≡ []
ReadAs body false true wire = read_chunks (length wire) wire ≡ some (body, [])
ReadAs body false false wire = wire ≡ body

closed_unless :
    (same : Bool) (r : Response)
    → or_close (if same then done r else failed content_length_mismatch r)
      ≡ (if same then done r else failed content_length_mismatch (record r { keepalive = false }))
closed_unless true r = refl
closed_unless false r = refl

module _ (status_name : ℕ → List ℕ) (parse_int : List ℕ → Option ℕ) (status : ℕ) (headers : Headers)
    (keepalive head : Bool) (ps : List Piece) (pending : List ℕ) where
  abbrev body_bytes : List ℕ
  body_bytes = all_bytes ps ++ pending

  -- The response after the session, from the one whose header block is written.
  abbrev sent_off : Response → Response
  sent_off s = record s {
    body_writer_open = false;
    written = true;
    sent = block status_name parse_int s ++ wire_of (s.head) (s.chunked) ps pending;
    body_sent = length (all_bytes ps ++ pending);
  }

  finished :
      (s : Response)
      → s.room ≡ none
      → s.sent ≡ []
      → s.body_sent ≡ 0
      → s.body_writer_open ≡ true
      → and_then (drain_all ps (sending s (block status_name parse_int s))) (end pending)
        ≡ or_close (check_length (sent_off s) (s.content_length))
  finished s free unsent zero_sent is_open =
      let t = sending s (block status_name parse_int s) in
      ap (λ x. and_then x (end pending)) (drain_all-passing ps t free)
      ∙ end-ended pending (passing_all t ps) free is_open
      ∙ ap (λ r. or_close (check_length r (s.content_length)))
          (ap (λ n. record (sent_off s) { sent = on_wire; body_sent = n }) count
            ∙ ap (λ bytes. record (sent_off s) { sent = bytes }) regrouped)
    where
      head_block : List ℕ
      head_block = block status_name parse_int s

      first : List ℕ
      first = emitted_all (s.head) (s.chunked) ps

      second : List ℕ
      second = emitted (s.head) (s.chunked) (pending ++ [])

      on_wire : List ℕ
      on_wire = s.sent ++ head_block ++ first ++ second ++ closing (s.head) (s.chunked)

      count :
          s.body_sent + length (all_bytes ps) + length (pending ++ [])
          ≡ length (all_bytes ps ++ pending)
      count =
          omega (arith, zero_sent, length-append pending [], length-append (all_bytes ps) pending)

      regrouped : on_wire ≡ head_block ++ wire_of (s.head) (s.chunked) ps pending
      regrouped =
          ap (λ u. u ++ head_block ++ first ++ second ++ closing (s.head) (s.chunked)) unsent
          ∙ append_assoc (head_block ++ first) second (closing (s.head) (s.chunked))
          ∙ append_assoc head_block first (second ++ closing (s.head) (s.chunked))

  ReadAs-wire_of :
      (head chunked : Bool)
      → ReadAs (all_bytes ps ++ pending) head chunked (wire_of head chunked ps pending)
  ReadAs-wire_of true chunked = ap (λ t. t ++ ([] ++ [])) (emitted_all_on_head chunked ps)
  ReadAs-wire_of false true =
      let reads =
        Reads-emitted_all ps _ _ (Reads-chunk (pending ++ []) terminator [] Reads-terminator) in
      reads (length (wire_of false true ps pending)) (omega arith)
      ∙ ap (λ t. some (all_bytes ps ++ t, [])) (append-nil (pending ++ []) ∙ append-nil pending)
  ReadAs-wire_of false false =
      ap (λ t. t ++ ((pending ++ []) ++ [])) (emitted_all_as_is ps)
      ∙ ap (λ t. all_bytes ps ++ t) (append-nil (pending ++ []) ∙ append-nil pending)

  module _ (content_type : Option (List ℕ)) (block_headers : Headers)
      (can_type : typed content_type headers ≡ some block_headers) where
    -- The response of which nothing is sent yet, and what its header block is written from.
    abbrev pub before : Response
    before = unsent status headers content_type keepalive head

    abbrev pub opened : Bool → Option ℕ → Response
    opened chunked content_length =
        declared (unsent status block_headers content_type keepalive head) chunked content_length

    -- A handler starts from a response of which nothing was sent and whose body is not set, on a
    -- connection that takes everything. It has set no Content-Length, and its content type, if it
    -- has set one, is valid and has room among the header fields. When it streams a body it gets no
    -- error, whichever pieces the writer's buffer makes of the body. The wire has the header block
    -- with that type, which ends in the line that declares the chunked coding, then chunks that a
    -- peer reads back as just the bytes written, with nothing behind them, and for a HEAD request
    -- nothing. The connection is kept as it would have been, and a later write adds nothing.
    pub session-chunked :
        get (codes "Content-Length") headers ≡ none
        → (r : Response) × (wire lines : List ℕ) × (session status_name parse_int ps pending before
            ≡ done r)
          × (r.sent ≡ block status_name parse_int (opened true none) ++ wire)
          × (block status_name parse_int (opened true none)
              ≡ lines ++ codes "Transfer-Encoding: chunked\r\n\r\n")
          × ReadAs (all_bytes ps ++ pending) head true wire
          × (r.keepalive ≡ keepalive)
          × (write status_name r ≡ done r)
    unfolding session write
    session-chunked h =
        let s = opened true none in
        let coding = block-chunked status_name parse_int s refl in
        (
          sent_off s,
          wire_of head true ps pending,
          coding.0,
          ap (λ x. and_then x (λ s. and_then (drain_all ps s) (end pending)))
                (stream-chunked status_name parse_int status headers content_type keepalive head
                  block_headers can_type h)
              ∙ finished s refl refl refl refl,
          refl,
          coding.1,
          ReadAs-wire_of head true,
          refl,
          refl,
        )

    -- A handler starts from a response of which nothing was sent and whose body is not set, on a
    -- connection that takes everything. It has set a Content-Length that reads as n, and its content
    -- type, if it has set one, is valid and has room among the header fields. When it streams a body,
    -- the wire has the header block with that type and then the bytes written as they are, or nothing
    -- for a HEAD request. Its `end` succeeds just when n bytes were written, to a HEAD as well;
    -- otherwise it fails with ContentLengthMismatch and the connection is not kept.
    pub session-length :
        (value : List ℕ) (n : ℕ)
        → get (codes "Content-Length") headers ≡ some value
        → parse_int value ≡ some n
        → (r : Response) × (wire : List ℕ) × (session status_name parse_int ps pending before ≡ (
            if length (all_bytes ps ++ pending) == n
            then done r
            else failed content_length_mismatch (record r { keepalive = false })))
          × (r.sent ≡ block status_name parse_int (opened false (some n)) ++ wire)
          × ReadAs (all_bytes ps ++ pending) head false wire
          × (r.keepalive ≡ keepalive)
    unfolding session
    session-length value n h g =
        let s = opened false (some n) in
        (
          sent_off s,
          wire_of head false ps pending,
          ap (λ x. and_then x (λ s. and_then (drain_all ps s) (end pending)))
                (stream-length status_name parse_int status headers content_type keepalive head
                  block_headers can_type value n h g)
              ∙ finished s refl refl refl refl
              ∙ closed_unless (length (all_bytes ps ++ pending) == n) (sent_off s),
          refl,
          ReadAs-wire_of head false,
          refl,
        )
