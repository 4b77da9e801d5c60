-- ===== src/Response/Session.antt =====
-- src/response.zig: a streamed response from `stream` to `end` and the server's `write`.
use dusty.Base.{
  ℕ, ◌+◌, ◌≡◌, refl, ap, sym, ◌∙◌, Bool, true, false, ◌&&◌, not, List, [], ◌∷◌, ◌++◌, Option, none,
  some, arith, if◌then◌else◌, if_true, length, length-append, append-nil, append_assoc, codes,
}
use dusty.Headers.{Headers, get}
use dusty.Response.{Response, Result, done, and_then, write_all}
use dusty.Response.Head.{write_header, head_pieces, head_pieces-chunked, typed, write_header-typed}
use dusty.Response.Body.{
  parts, joined, drain, terminator, end, write_terminator, check_length, declare_length,
  with_length, stream, start_body, or_close,
}
use dusty.Response.Streaming.{
  sending, passing, emitted, drain-passing, write_pieces-sending, write_all-sending,
}

-- The arguments of a call of the writer's drain.
pub record Piece : Type 0 where
  pub pending : List ℕ
  pub slices : List (List ℕ)
  pub pattern : List ℕ
  pub splat : ℕ

abbrev pub bytes_of : Piece → List ℕ
bytes_of p = joined (parts (p.pending) (p.slices) (p.pattern) (p.splat))

unfoldable pub drain_all : List Piece → Response → Result
unfolding drain
drain_all [] r = done r
drain_all (p ∷ ps) r =
    and_then (drain (p.pending) (p.slices) (p.pattern) (p.splat) r) (λ s. drain_all ps s)

abbrev pub all_bytes : List Piece → List ℕ
all_bytes [] = []
all_bytes (p ∷ ps) = bytes_of p ++ all_bytes ps

abbrev pub emitted_all : Bool → Bool → List Piece → List ℕ
emitted_all head chunked [] = []
emitted_all head chunked (p ∷ ps) = emitted head chunked (bytes_of p) ++ emitted_all head chunked ps

abbrev pub passing_all : Response → List Piece → Response
passing_all r ps = record r {
  sent = r.sent ++ emitted_all (r.head) (r.chunked) ps;
  body_sent = r.body_sent + length (all_bytes ps);
}

same_sent :
    (r : Response) (xs ys : List ℕ) (m n : ℕ)
    → xs ≡ ys
    → m ≡ n
    → done (record r { sent = xs; body_sent = m }) ≡ done (record r { sent = ys; body_sent = n })
same_sent r xs ys m n e f =
    ap (λ t. done (record r { sent = t; body_sent = m })) e
    ∙ ap (λ k. done (record r { sent = ys; body_sent = k })) f

pub drain_all-passing :
    (ps : List Piece) (r : Response) → r.room ≡ none → drain_all ps r ≡ done (passing_all r ps)
unfolding drain_all
drain_all-passing [] r free =
    same_sent r (r.sent) (r.sent ++ []) (r.body_sent) (r.body_sent + 0) (sym (append-nil (r.sent)))
      (omega arith)
drain_all-passing (p ∷ ps) r free =
    ap (λ x. and_then x (λ s. drain_all ps s))
      (drain-passing (p.pending) (p.slices) (p.pattern) (p.splat) r free)
    ∙ drain_all-passing ps (passing r (bytes_of p)) free
    ∙ same_sent r _ _ _ _
        (append_assoc (r.sent) (emitted (r.head) (r.chunked) (bytes_of p))
          (emitted_all (r.head) (r.chunked) ps))
        (omega (arith, length-append (bytes_of p) (all_bytes ps)))

-- `end` adds what the buffer still held and, for a chunked body that is not of a HEAD, the
-- terminator.
abbrev pub closing : Bool → Bool → List ℕ
closing true chunked = []
closing false true = terminator
closing false false = []

terminated :
    (r : Response)
    → r.room ≡ none
    → write_terminator r ≡ done (sending r (closing (r.head) (r.chunked)))
unfolding write_terminator
terminated r free = by_flags (r.head) (r.chunked)
  where
    none_added : done r ≡ done (sending r [])
    none_added = ap (λ t. done (record r { sent = t })) (sym (append-nil (r.sent)))

    by_flags :
        (h c : Bool)
        → (if c && not h then write_all terminator r else done r) ≡ done (sending r (closing h c))
    by_flags true true = none_added
    by_flags true false = none_added
    by_flags false true = write_all-sending terminator r free
    by_flags false false = none_added

abbrev pub ended : Response → List ℕ → Response
ended r pending = record r {
  body_writer_open = false;
  written = true;
  sent = r.sent ++ emitted (r.head) (r.chunked) (pending ++ []) ++ closing (r.head) (r.chunked);
  body_sent = r.body_sent + length (pending ++ []);
}

pub end-ended :
    (pending : List ℕ) (r : Response)
    → r.room ≡ none
    → r.body_writer_open ≡ true
    → end pending r ≡ or_close (check_length (ended r pending) (r.content_length))
unfolding end
end-ended pending r free is_open =
    let u = record r { body_writer_open = false; written = true } in
    if_true (r.body_writer_open) _ _ is_open
    ∙ ap
        (λ x. or_close (
          and_then x (λ s. and_then (write_terminator s) (λ t. check_length t (t.content_length)))))
        (drain-passing pending [] [] 1 u free)
    ∙ ap (λ x. or_close (and_then x (λ t. check_length t (t.content_length))))
        (terminated (passing u (pending ++ [])) free)

joined-append : (xss yss : List (List ℕ)) → joined (xss ++ yss) ≡ joined xss ++ joined yss
joined-append [] yss = refl
joined-append (xs ∷ xss) yss =
    ap (λ t. xs ++ t) (joined-append xss yss) ∙ sym (append_assoc xs (joined xss) (joined yss))

-- A response that nothing was sent of, when its handler starts.
abbrev pub fresh : ℕ → Headers → Bool → Bool → Response
fresh status headers keepalive head = record {
  status = status;
  body = [];
  headers = headers;
  content_type = none;
  buffer = [];
  sent = [];
  room = none;
  written = false;
  headers_written = false;
  keepalive = keepalive;
  chunked = false;
  streaming = false;
  head = head;
  body_writer_open = false;
  content_length = none;
  body_sent = 0;
}

-- The same with the content type that the handler has set.
abbrev pub unsent : ℕ → Headers → Option (List ℕ) → Bool → Bool → Response
unsent status headers content_type keepalive head = record (fresh status headers keepalive head) {
  content_type = content_type;
}

-- A response when its header block is about to be written for a stream.
abbrev pub declared : Response → Bool → Option ℕ → Response
declared r chunked content_length = record r {
  body_writer_open = true;
  chunked = chunked;
  content_length = content_length;
  headers_written = true;
}

module _ (status_name : ℕ → List ℕ) (parse_int : List ℕ → Option ℕ) where
  abbrev pub block : Response → List ℕ
  block r = joined (head_pieces status_name r)

  -- The block ends in the declaration of the coding.
  pub block-chunked :
      (r : Response)
      → r.chunked ≡ true
      → (lines : List ℕ) × (block r ≡ lines ++ codes "Transfer-Encoding: chunked\r\n\r\n")
  block-chunked r h =
      let (front, e) = head_pieces-chunked status_name r h in
      (joined front, ap joined e ∙ joined-append front _)

  -- The handler's calls: a stream, the writer's drains and its end.
  unfoldable pub session : List Piece → List ℕ → Response → Result
  unfolding stream drain_all end
  session ps pending r =
      and_then (stream status_name parse_int r) (λ s. and_then (drain_all ps s) (end pending))

  module _ (status : ℕ) (headers : Headers) (content_type : Option (List ℕ)) (keepalive head : Bool)
      (block_headers : Headers) (can_type : typed content_type headers ≡ some block_headers) where
    abbrev pub opened : Bool → Option ℕ → Response
    opened chunked content_length =
        declared (unsent status block_headers content_type keepalive head) chunked content_length

    header_sent :
        (r : Response)
        → r.headers_written ≡ false
        → r.room ≡ none
        → r.headers ≡ headers
        → r.content_type ≡ content_type
        → write_header status_name r
          ≡ done (
              sending
                (record r { headers = block_headers; headers_written = true })
                (block (record r { headers = block_headers; headers_written = true })))
    header_sent r unwritten free has_headers has_type =
        let s = record r { headers = block_headers; headers_written = true } in
        write_header-typed status_name r block_headers unwritten
          (ap (λ t. typed t (r.headers)) has_type ∙ ap (typed content_type) has_headers ∙ can_type)
        ∙ write_pieces-sending (head_pieces status_name s) s free

    pub stream-chunked :
        get (codes "Content-Length") headers ≡ none
        → stream status_name parse_int (unsent status headers content_type keepalive head)
          ≡ done (sending (opened true none) (block (opened true none)))
    unfolding stream start_body
    stream-chunked h =
        let u = unsent status headers content_type keepalive head in
        let r = record u { body_writer_open = true } in
        ap (λ o. and_then (declare_length status_name parse_int r o) (write_header status_name)) h
        ∙ header_sent (record r { chunked = true }) refl refl refl refl

    pub stream-length :
        (value : List ℕ) (n : ℕ)
        → get (codes "Content-Length") headers ≡ some value
        → parse_int value ≡ some n
        → stream status_name parse_int (unsent status headers content_type keepalive head)
          ≡ done (sending (opened false (some n)) (block (opened false (some n))))
    unfolding stream start_body
    stream-length value n h g =
        let u = unsent status headers content_type keepalive head in
        let r = record u { body_writer_open = true } in
        ap (λ o. and_then (declare_length status_name parse_int r o) (write_header status_name)) h
        ∙ ap (λ o. and_then (with_length status_name parse_int r o) (write_header status_name)) g
        ∙ header_sent (record r { content_length = some n }) refl refl refl refl
