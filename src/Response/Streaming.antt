-- ===== src/Response/Streaming.antt =====
-- src/response.zig: a body that is streamed from its `stream` to its `end`, on a connection that
-- takes all that is written.
use dusty.Base.{
  ℕ, suc, ◌+◌, ◌≡◌, ◌⊎◌, refl, ap, sym, ◌∙◌, Bool, true, false, List, [], ◌∷◌, ◌++◌, none, arith,
  ◌==◌, if◌then◌else◌, if_true, if_false, ne_zero, length, append-nil, append_assoc, Bool-cases,
  inl, inr,
}
use dusty.Response.{Response, Result, done, and_then, write_all, write_pieces, hexadecimal}
use dusty.Response.Body.{parts, joined, drain, write_chunk, write_body}
use dusty.Response.Chunks.{chunk_of}

abbrev pub sending : Response → List ℕ → Response
sending r bytes = record r { sent = r.sent ++ bytes }

pub write_all-sending :
    (bytes : List ℕ) (r : Response) → r.room ≡ none → write_all bytes r ≡ done (sending r bytes)
unfolding write_all
write_all-sending bytes r free = rw free refl

sending_twice : (r : Response) (xs ys : List ℕ) → sending (sending r xs) ys ≡ sending r (xs ++ ys)
sending_twice r xs ys = ap (λ t. record r { sent = t }) (append_assoc (r.sent) xs ys)

pub write_pieces-sending :
    (pieces : List (List ℕ)) (r : Response)
    → r.room ≡ none
    → write_pieces pieces r ≡ done (sending r (joined pieces))
unfolding write_pieces
write_pieces-sending [] r free = ap (λ t. done (record r { sent = t })) (sym (append-nil (r.sent)))
write_pieces-sending (piece ∷ pieces) r free = rw (write_all-sending piece r free) (
    write_pieces-sending pieces (sending r piece) free
    ∙ ap done (sending_twice r piece (joined pieces)))

joined-append : (xss : List (List ℕ)) (ys : List ℕ) → joined (xss ++ ys ∷ []) ≡ joined xss ++ ys
joined-append [] ys = append-nil ys
joined-append (xs ∷ xss) ys =
    ap (λ t. xs ++ t) (joined-append xss ys) ∙ sym (append_assoc xs (joined xss) ys)

-- What the wire gets for a piece of the body.
abbrev pub chunk_unless_empty : List ℕ → List ℕ
chunk_unless_empty [] = []
chunk_unless_empty (b ∷ bs) = chunk_of (b ∷ bs)

abbrev pub emitted : Bool → Bool → List ℕ → List ℕ
emitted true chunked bytes = []
emitted false true bytes = chunk_unless_empty bytes
emitted false false bytes = bytes

abbrev pub passing : Response → List ℕ → Response
passing r bytes = record r {
  sent = r.sent ++ emitted (r.head) (r.chunked) bytes;
  body_sent = r.body_sent + length bytes;
}

write_chunk-sending :
    (pieces : List (List ℕ)) (r : Response)
    → r.room ≡ none
    → write_chunk pieces (length (joined pieces)) r ≡ done (sending r (chunk_of (joined pieces)))
unfolding write_chunk
write_chunk-sending pieces r free =
    let size = hexadecimal (length (joined pieces)) in
    rw (write_pieces-sending ((size ++ 13 ∷ 10 ∷ []) ∷ (pieces ++ (13 ∷ 10 ∷ []) ∷ [])) r free) (
      ap (λ t. done (sending r t))
        (ap (λ t. (size ++ 13 ∷ 10 ∷ []) ++ t) (joined-append pieces (13 ∷ 10 ∷ []))
          ∙ append_assoc size (13 ∷ 10 ∷ []) (joined pieces ++ 13 ∷ 10 ∷ [])))

emitted_on_head : (h c : Bool) (bytes : List ℕ) → h ≡ true → emitted h c bytes ≡ []
emitted_on_head h c bytes e = ap (λ h. emitted h c bytes) e

emitted_as_chunk :
    (h c : Bool) (b : ℕ) (bytes bs : List ℕ)
    → h ≡ false
    → c ≡ true
    → bytes ≡ b ∷ bs
    → emitted h c bytes ≡ chunk_of bytes
emitted_as_chunk h c b bytes bs e f g = rw e (rw f (rw g refl))

emitted_as_is : (h c : Bool) (bytes : List ℕ) → h ≡ false → c ≡ false → emitted h c bytes ≡ bytes
emitted_as_is h c bytes e f = rw e (rw f refl)

emitted-nil : (h c : Bool) → emitted h c [] ≡ []
emitted-nil true c = refl
emitted-nil false true = refl
emitted-nil false false = refl

-- The response with what is sent and charged.
abbrev sent_as : Response → List ℕ → ℕ → Response
sent_as r bytes total = record r { sent = r.sent ++ bytes; body_sent = r.body_sent + total }

passing-nil : (r : Response) → passing r [] ≡ r
passing-nil r =
    ap (λ t. sent_as r t 0) (emitted-nil (r.head) (r.chunked))
    ∙ ap (λ n. record r { sent = r.sent ++ []; body_sent = n }) (omega arith)
    ∙ ap (λ t. record r { sent = t }) (append-nil (r.sent))

write_piece-passing :
    (pieces : List (List ℕ)) (b : ℕ) (bs : List ℕ) (r : Response)
    → r.room ≡ none
    → joined pieces ≡ b ∷ bs
    → (if r.head
        then done (record r { body_sent = r.body_sent + length (joined pieces) })
        else and_then
            (if r.chunked
              then write_chunk pieces (length (joined pieces)) r
              else write_body pieces r)
            (λ s. done (record s { body_sent = s.body_sent + length (joined pieces) })))
      ≡ done (passing r (joined pieces))
unfolding write_body
write_piece-passing pieces b bs r free e =
    let total = length (joined pieces) in
    let charge : Response → Result = λ s. done (record s { body_sent = s.body_sent + total }) in
    let as_sent : (t : List ℕ)
        → emitted (r.head) (r.chunked) (joined pieces) ≡ t
        → done (sent_as r t total) ≡ done (passing r (joined pieces)) =
      λ t g. ap (λ t. done (sent_as r t total)) (sym g) in
    elim (Bool-cases (r.head)) [
      | inl h ↦
          if_true (r.head) _ _ h
          ∙ ap (λ t. done (record r { sent = t; body_sent = r.body_sent + total }))
              (sym (append-nil (r.sent)))
          ∙ as_sent [] (emitted_on_head (r.head) (r.chunked) (joined pieces) h)
      | inr h ↦ if_false (r.head) _ _ h ∙ elim (Bool-cases (r.chunked)) [
        | inl c ↦
            ap (λ x. and_then x charge)
              (if_true (r.chunked) _ _ c ∙ write_chunk-sending pieces r free)
            ∙ as_sent (chunk_of (joined pieces))
                (emitted_as_chunk (r.head) (r.chunked) b (joined pieces) bs h c e)
        | inr c ↦
            ap (λ x. and_then x charge)
              (if_false (r.chunked) _ _ c
                ∙ ap (λ x. and_then x done) (write_pieces-sending pieces r free))
            ∙ as_sent (joined pieces) (emitted_as_is (r.head) (r.chunked) (joined pieces) h c)
      ]
    ]

abbrev List-cases : (xs : List ℕ) → (xs ≡ []) ⊎ ((x : ℕ) × (ys : List ℕ) × (xs ≡ x ∷ ys))
List-cases [] = inl refl
List-cases (x ∷ xs) = inr (x, xs, refl)

pub drain-passing :
    (pending : List ℕ) (slices : List (List ℕ)) (pattern : List ℕ) (splat : ℕ) (r : Response)
    → r.room ≡ none
    → drain pending slices pattern splat r
      ≡ done (passing r (joined (parts pending slices pattern splat)))
unfolding drain
drain-passing pending slices pattern splat r free =
    let pieces = parts pending slices pattern splat in
    elim (List-cases (joined pieces)) [
      | inl e ↦
          if_true (length (joined pieces) == 0) _ _ (ap (λ bs. length bs == 0) e)
          ∙ ap done (sym (passing-nil r) ∙ ap (passing r) (sym e))
      | inr x ↦
          if_false (length (joined pieces) == 0) _ _
            (ap (λ bs. length bs == 0) x.2 ∙ ne_zero (suc (length x.1)) (omega arith))
          ∙ write_piece-passing pieces x.0 x.1 r free x.2
    ]
