-- ===== src/Response/Body.antt =====
-- src/response.zig: the body writers, `stream`, `write` and what is thrown away on an error.
use dusty.Base.{
  ℕ, ◌+◌, Bool, true, false, ◌&&◌, ◌||◌, not, List, [], ◌∷◌, ◌++◌, Option, none, some, ◌==◌,
  if◌then◌else◌, length, replicate, codes,
}
use dusty.Headers.{get, remove}
use dusty.Response.{
  Response, Result, done, failed, and_then, assertion_failed, invalid_content_length,
  content_length_mismatch, write_all, write_pieces, hexadecimal,
}
use dusty.Response.Head.{write_header, whole_body}

abbrev is_empty : List ℕ → Bool
is_empty [] = true
is_empty (b ∷ bs) = false

unfoldable pub start_body : Response → Result
start_body r =
    if r.body_writer_open || (r.headers_written || not (is_empty (r.body) && is_empty (r.buffer)))
    then failed assertion_failed r
    else done (record r { body_writer_open = true })

-- `BodyWriter`: its bytes go to the buffer, and `end` marks the body complete.
abbrev pub writer : Response → Result
unfolding start_body
writer r = start_body r

abbrev pub drain_buffered : List ℕ → Response → Response
drain_buffered bytes r = record r { buffer = r.buffer ++ bytes }

abbrev pub end_buffered : Response → Response
end_buffered r = record r { body_writer_open = false }

-- `std.fmt.parseInt(usize, value, 10)` is `parse_int`, none for its errors.
module _ (status_name : ℕ → List ℕ) (parse_int : List ℕ → Option ℕ) where
  abbrev pub with_length : Response → Option ℕ → Result
  with_length r none = failed invalid_content_length r
  with_length r (some n) = done (record r { content_length = some n })

  abbrev pub declare_length : Response → Option (List ℕ) → Result
  declare_length r none = done (record r { chunked = true })
  declare_length r (some value) = with_length r (parse_int value)

  unfoldable pub stream : Response → Result
  unfolding start_body get write_header
  stream r = and_then (start_body r) (λ s.
      and_then (declare_length s (get (codes "Content-Length") (s.headers)))
        (write_header status_name))

-- `StreamingBodyWriter`: what its buffer holds, the slices, and the last of them a number of times.
abbrev pub parts : List ℕ → List (List ℕ) → List ℕ → ℕ → List (List ℕ)
parts pending slices pattern splat = pending ∷ (slices ++ replicate splat pattern)

abbrev pub joined : List (List ℕ) → List ℕ
joined [] = []
joined (xs ∷ xss) = xs ++ joined xss

abbrev crlf : List ℕ
crlf = 13 ∷ 10 ∷ []

abbrev pub terminator : List ℕ
terminator = codes "0" ++ crlf ++ crlf

-- The connection's flush hands on what it has taken.
abbrev flush : Response → Result
flush r = done r

unfoldable pub write_chunk : List (List ℕ) → ℕ → Response → Result
unfolding write_pieces hexadecimal
write_chunk pieces total r =
    and_then (write_pieces ((hexadecimal total ++ crlf) ∷ (pieces ++ crlf ∷ [])) r) flush

unfoldable pub write_body : List (List ℕ) → Response → Result
unfolding write_pieces
write_body pieces r = and_then (write_pieces pieces r) flush

abbrev charge : ℕ → Response → Response
charge total r = record r { body_sent = r.body_sent + total }

unfoldable pub drain : List ℕ → List (List ℕ) → List ℕ → ℕ → Response → Result
unfolding write_chunk write_body
drain pending slices pattern splat r =
    let pieces = parts pending slices pattern splat in
    let total = length (joined pieces) in
    if total == 0
    then done r
    else if r.head
    then done (charge total r)
    else and_then (if r.chunked then write_chunk pieces total r else write_body pieces r)
        (λ s. done (charge total s))

unfoldable pub write_terminator : Response → Result
unfolding write_all
write_terminator r = if r.chunked && not (r.head) then write_all terminator r else done r

-- What `end` compares at last.
abbrev pub check_length : Response → Option ℕ → Result
check_length r none = done r
check_length r (some declared) =
    if r.body_sent == declared then done r else failed content_length_mismatch r

abbrev pub or_close : Result → Result
or_close (done r) = done r
or_close (failed e r) = failed e (record r { keepalive = false })

abbrev finish : List ℕ → Response → Result
unfolding drain write_terminator
finish pending r = and_then (drain pending [] [] 1 r) (λ s.
    and_then (write_terminator s)
      (λ t. and_then (flush t) (λ u. check_length u (u.content_length))))

-- `StreamingBodyWriter.end`, with what its buffer still holds.
unfoldable pub end : List ℕ → Response → Result
unfolding finish
end pending r =
    if r.body_writer_open
    then or_close (finish pending (record r { body_writer_open = false; written = true }))
    else done r

abbrev close_if_short : Response → Option ℕ → Response
close_if_short r none = r
close_if_short r (some declared) =
    if r.body_sent == declared then r else record r { keepalive = false }

-- A streaming writer that was never ended, in `write`.
abbrev abandoned : Response → Result
unfolding write_all
abandoned r =
    let s = record r { body_writer_open = false } in
    and_then
      (if s.chunked
        then (if s.head then done s else write_all terminator s)
        else done (close_if_short s (s.content_length)))
      (λ t. and_then (flush t) (λ u. done (record u { written = true })))

module _ (status_name : ℕ → List ℕ) where
  abbrev write_rest : Response → Result
  unfolding write_all write_header
  write_rest r =
      let s = record r { body_writer_open = false; written = true } in
      if s.chunked
      then and_then (if s.head then done s else write_all terminator s) flush
      else and_then (write_header status_name s)
          (λ t. and_then (if t.head then done t else write_all (whole_body t) t) flush)

  unfoldable pub write : Response → Result
  unfolding abandoned write_rest
  write r =
      if r.written
      then done r
      else if r.body_writer_open && r.headers_written
      then abandoned r
      else write_rest r

unfoldable pub reset_body : Response → Result
unfolding remove
reset_body r =
    if r.headers_written
    then failed assertion_failed r
    else done (record r {
      buffer = [];
      body = [];
      body_writer_open = false;
      content_type = none;
      headers = (remove (codes "Content-Length") (remove (codes "Content-Type") (r.headers)).0).0;
    })
