-- ===== src/Response/Head.antt =====
-- src/response.zig, `header` and `writeHeader`. The name of a status comes from llhttp.
use dusty.Base.{
  ℕ, ◌≡◌, ap, sym, ◌∙◌, arith, if_true, if_false, Bool-cases, inl, inr, true, false, not, List, [],
  ◌∷◌, ◌++◌, map, Option, none, some, if◌then◌else◌, length, append_assoc, codes,
}
use dusty.Headers.{Headers, Slot, get, put}
use dusty.Response.{
  Response, Result, all_tchars, done, failed, and_then, headers_already_sent, invalid_header_name,
  invalid_header_value, too_many_headers, write_pieces, decimal, validate_header_name,
  validate_header_value,
}

abbrev put_header : Response → Option Headers → Result
put_header r none = failed too_many_headers r
put_header r (some headers) = done (record r { headers = headers })

unfoldable pub header : List ℕ → List ℕ → Response → Result
unfolding validate_header_name validate_header_value put
header name value r =
    if r.headers_written
    then failed headers_already_sent r
    else if not (validate_header_name name)
    then failed invalid_header_name r
    else if not (validate_header_value value)
    then failed invalid_header_value r
    else put_header r (put name value (r.headers))

abbrev crlf : List ℕ
crlf = 13 ∷ 10 ∷ []

abbrev field_line : Slot → List ℕ
field_line slot = slot.key ++ codes ": " ++ slot.value ++ crlf

-- The body that is sent when it was not streamed.
abbrev pub whole_body : Response → List ℕ
whole_body r = elim (r.buffer) [ [] ↦ r.body | b ∷ bs ↦ b ∷ bs ]

abbrev length_line : Response → Option (List ℕ) → List ℕ
length_line r (some value) = []
length_line r none = codes "Content-Length: " ++ decimal (length (whole_body r)) ++ crlf

abbrev framing_line : Response → List ℕ
framing_line r =
    if r.chunked
    then codes "Transfer-Encoding: chunked" ++ crlf
    else if r.streaming
    then []
    else length_line r (get (codes "Content-Length") (r.headers))

module _ (status_name : ℕ → List ℕ) where
  abbrev status_line : Response → List ℕ
  status_line r =
      codes "HTTP/1.1 " ++ decimal (r.status) ++ codes " " ++ status_name (r.status) ++ crlf

  -- What is written once the flag is set.
  pub head_pieces : Response → List (List ℕ)
  unfolding decimal get
  head_pieces r =
      status_line r
      ∷ (map field_line (r.headers.slots)
          ++ (if r.keepalive then [] else codes "Connection: close" ++ crlf)
            ∷ framing_line r
            ∷ crlf
            ∷ [])

  abbrev with_content_type : Response → Option (List ℕ) → Result
  unfolding header
  with_content_type r none = done r
  with_content_type r (some content_type) = header (codes "Content-Type") content_type r

  abbrev write_block : Response → Result
  unfolding head_pieces write_pieces
  write_block r = let s = record r { headers_written = true } in write_pieces (head_pieces s) s

  unfoldable pub write_header : Response → Result
  unfolding with_content_type write_block
  write_header r =
      if r.headers_written
      then done r
      else and_then (with_content_type r (r.content_type)) write_block

-- The fields with a content type, none when it is refused or has no room.
unfoldable pub typed : Option (List ℕ) → Headers → Option Headers
unfolding validate_header_value put
typed none headers = some headers
typed (some content_type) headers =
    if validate_header_value content_type
    then put (codes "Content-Type") content_type headers
    else none

option_inj : {a b : Headers} → some a ≡ some b → a ≡ b
option_inj h = cc

header-content_type :
    (content_type : List ℕ) (r : Response) (headers : Headers)
    → r.headers_written ≡ false
    → typed (some content_type) (r.headers) ≡ some headers
    → header (codes "Content-Type") content_type r ≡ done (record r { headers = headers })
unfolding header validate_header_name all_tchars typed
header-content_type content_type r headers h g =
    elim (Bool-cases (validate_header_value content_type)) [
      | inr e ↦ absurd (let stopped = sym (if_false _ _ _ e) ∙ g in ground (arith, stopped))
      | inl e ↦
          if_false _ _ _ h
          ∙ if_false _ _ _ (ap not e)
          ∙ ap (put_header r) (sym (if_true _ _ _ e) ∙ g)
    ]

module _ (status_name : ℕ → List ℕ) where
  write_typed :
      (content_type : Option (List ℕ)) (r : Response) (headers : Headers)
      → r.headers_written ≡ false
      → typed content_type (r.headers) ≡ some headers
      → with_content_type status_name r content_type ≡ done (record r { headers = headers })
  unfolding with_content_type typed
  write_typed none r headers h g = ap (λ hs. done (record r { headers = hs })) (option_inj g)
  write_typed (some content_type) r headers h g = header-content_type content_type r headers h g

  -- The header block of a response whose content type can be set.
  pub write_header-typed :
      (r : Response) (headers : Headers)
      → r.headers_written ≡ false
      → typed (r.content_type) (r.headers) ≡ some headers
      → write_header status_name r ≡ (
          let s = record r { headers = headers; headers_written = true } in
          write_pieces (head_pieces status_name s) s)
  unfolding write_header
  write_header-typed r headers h g =
      if_false _ _ _ h
      ∙ ap (λ x. and_then x (write_block status_name)) (write_typed (r.content_type) r headers h g)

  -- The lines before the framing of a chunked body, and the two that end the block.
  pub head_pieces-chunked :
      (r : Response)
      → r.chunked ≡ true
      → (front : List (List ℕ)) × (head_pieces status_name r
          ≡ front ++ codes "Transfer-Encoding: chunked\r\n" ∷ codes "\r\n" ∷ [])
  unfolding head_pieces
  head_pieces-chunked r h =
      let fields = map field_line (r.headers.slots) in
      let close = if r.keepalive then [] else codes "Connection: close" ++ crlf in
      (
        status_line status_name r ∷ (fields ++ close ∷ []),
        ap (λ line. status_line status_name r ∷ (fields ++ close ∷ line ∷ crlf ∷ []))
              (if_true _ _ _ h)
            ∙ ap (λ lines. status_line status_name r ∷ lines)
                (sym (
                  append_assoc fields (close ∷ [])
                    (codes "Transfer-Encoding: chunked\r\n" ∷ codes "\r\n" ∷ []))),
      )
