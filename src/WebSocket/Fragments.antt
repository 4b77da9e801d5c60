-- ===== src/WebSocket/Fragments.antt =====
-- src/websocket.zig, `receive`: fragments are put together in their order.
use dusty.Base.{
  ℕ, zero, suc, ◌+◌, ◌≤◌, ◌<◌, ◌≡◌, refl, sym, ap, ◌∙◌, subst, Bool, true, false, not, ◌&&◌, List,
  [], ◌∷◌, ◌++◌, map, none, some, arith, length, length-append, append_assoc, le→ltb,
}
use dusty.WebSocket.{
  MessageType, text, binary, close, ping, pong, continuation, unknown, World, WebSocket, Frame,
  Message, Result, ok,
}
use dusty.WebSocket.Ends.{Took, read_frame-Took}
use dusty.WebSocket.Reader.{read_frame}
use dusty.WebSocket.Codec.{and_then, ◌>>=◌}
use dusty.WebSocket.Receive.{
  read_next, is_text, go_on, finish_message, on_continuation, on_data, on_opcode, on_frame,
  receive_loop, receive,
}

-- A type that a message can have.
abbrev pub IsData : MessageType → Type 0
IsData text = Unit {0}
IsData binary = Unit {0}
IsData _ = ⊥

-- What may come between the first and the last fragment.
pub data Piece : Type 0 where
  fragment : List ℕ → Piece
  pong_between : List ℕ → Piece

abbrev pub piece_frame : Piece → Frame
piece_frame (fragment bs) = record { fin = false; opcode = continuation; payload = bs }
piece_frame (pong_between bs) = record { fin = true; opcode = pong; payload = bs }

abbrev pub content : List Piece → List ℕ
content [] = []
content (fragment bs ∷ ps) = bs ++ content ps
content (pong_between bs ∷ ps) = content ps

-- The input reads as these frames, and `rest` is left.
abbrev pub Reads : Bool → ℕ → List ℕ → List Frame → List ℕ → Type 0
Reads c m s [] rest = s ≡ rest
Reads c m s (f ∷ fs) rest =
    (mid : List ℕ) × (read_frame c m s ≡ (ok f, mid)) × Reads c m mid fs rest

pub read-shorter :
    (c : Bool) (m : ℕ) (s : List ℕ) (f : Frame) (mid : List ℕ)
    → read_frame c m s ≡ (ok f, mid)
    → length mid + 2 ≤ length s
read-shorter c m s f mid h = subst (λ r. Took 2 s r) h (read_frame-Took c m s)

abbrev pub last_frame : List ℕ → Frame
last_frame bs = record { fin = true; opcode = continuation; payload = bs }

abbrev pub message : MessageType → List ℕ → Message
message t bs = record { type = t; body = bs; close_code = none }

module _ (world : World) where
  -- A round of the loop, on a frame that the input reads as.
  pub loop-read :
      (fuel : ℕ) (w : WebSocket) (f : Frame) (rest : List ℕ)
      → read_frame w.is_client w.max_message_size w.input ≡ (ok f, rest)
      → receive_loop world (suc fuel) w
        ≡ and_then (on_frame world f (record w { input = rest })) (go_on (receive_loop world fuel))
  unfolding receive_loop read_next
  loop-read fuel w f rest h =
      ap {A = Result Frame × List ℕ}
        (λ r.
          and_then (r.0, record w { input = r.1 })
            (λ g. on_frame world g >>= go_on (receive_loop world fuel)))
        h

  -- The first fragment of a message.
  on_first :
      (w : WebSocket) (t : MessageType) (bs : List ℕ)
      → IsData t
      → length bs ≤ w.max_message_size
      → on_frame world
          (record { fin = false; opcode = t; payload = bs })
          (record w { fragmented_type = none })
        ≡ (ok none, record w { fragmented_type = some t; fragmented_data = bs })
  unfolding on_frame on_opcode on_data
  on_first w text bs i h = rw (le→ltb _ _ h)
  on_first w binary bs i h = rw (le→ltb _ _ h)
  on_first w continuation bs i h = absurd i
  on_first w close bs i h = absurd i
  on_first w ping bs i h = absurd i
  on_first w pong bs i h = absurd i
  on_first w (unknown k) bs i h = absurd i

  module _ (w : WebSocket) (t : MessageType) where
    -- The connection while the message of type `t` is put together.
    abbrev joining : List ℕ → List ℕ → WebSocket
    joining s d = record w { input = s; fragmented_type = some t; fragmented_data = d }

    abbrev pub joined : List ℕ → WebSocket
    joined s = record w { input = s; fragmented_type = none; fragmented_data = [] }

    on_fragment :
        (s d bs : List ℕ)
        → length d + length bs ≤ w.max_message_size
        → on_frame world (piece_frame (fragment bs)) (joining s d) ≡ (ok none, joining s (d ++ bs))
    unfolding on_frame on_opcode on_continuation
    on_fragment s d bs h = rw (le→ltb _ _ h)

    on_last :
        (s d bs : List ℕ)
        → length d + length bs ≤ w.max_message_size
        → (is_text t && not (world.utf8_valid (d ++ bs))) ≡ false
        → on_frame world (last_frame bs) (joining s d) ≡ (ok (some (message t (d ++ bs))), joined s)
    unfolding on_frame on_opcode on_continuation finish_message
    on_last s d bs h u = rw (le→ltb _ _ h, u)

    on_pong :
        (s d bs : List ℕ)
        → on_frame world (piece_frame (pong_between bs)) (joining s d) ≡ (ok none, joining s d)
    unfolding on_frame on_opcode
    on_pong s d bs = refl

    pub loop-pieces :
        (ps : List Piece) (fuel : ℕ) (s d bs rest : List ℕ)
        → Reads w.is_client w.max_message_size s (map piece_frame ps ++ last_frame bs ∷ []) rest
        → length s < fuel
        → length (d ++ (content ps ++ bs)) ≤ w.max_message_size
        → (is_text t && not (world.utf8_valid (d ++ (content ps ++ bs)))) ≡ false
        → receive_loop world fuel (joining s d)
          ≡ (ok (message t (d ++ (content ps ++ bs))), joined rest)
    loop-pieces ps zero s d bs rest r f l u = absurd (omega arith)
    loop-pieces [] (suc fuel) s d bs rest (mid, h, e) f l u =
        loop-read fuel (joining s d) (last_frame bs) mid h
        ∙ ap (λ x. and_then x (go_on (receive_loop world fuel)))
            (on_last mid d bs (omega (arith, length-append d bs)) u)
        ∙ ap (λ x. (ok (message t (d ++ bs)), joined x)) e
    loop-pieces (fragment b ∷ ps) (suc fuel) s d bs rest (mid, h, e) f l u =
        let a = append_assoc b (content ps) bs in
        let g = append_assoc d b (content ps ++ bs) in
        let all = g ∙ sym (ap (λ x. d ++ x) a) in
        loop-read fuel (joining s d) (piece_frame (fragment b)) mid h
        ∙ ap (λ x. and_then x (go_on (receive_loop world fuel)))
            (on_fragment mid d b (
              omega (
                arith,
                length-append d b,
                length-append (d ++ b) (content ps ++ bs),
                ap length all,
              )))
        ∙ loop-pieces ps fuel mid (d ++ b) bs rest e (omega (arith, read-shorter _ _ s _ mid h))
            (subst (λ x. length x ≤ w.max_message_size) (sym all) l)
            (subst (λ x. (is_text t && not (world.utf8_valid x)) ≡ false) (sym all) u)
        ∙ ap (λ x. (ok (message t x), joined rest)) all
    loop-pieces (pong_between b ∷ ps) (suc fuel) s d bs rest (mid, h, e) f l u =
        loop-read fuel (joining s d) (piece_frame (pong_between b)) mid h
        ∙ ap (λ x. and_then x (go_on (receive_loop world fuel))) (on_pong mid d b)
        ∙ loop-pieces ps fuel mid d bs rest e (omega (arith, read-shorter _ _ s _ mid h)) l u

  -- A message in fragments is received whole: when the input reads as a first fragment of a text
  -- or binary message, then continuations, with pongs between them, and then a final one, and the
  -- payloads together are within the limit, and UTF-8 in a text message, `receive` returns the one
  -- message of that type whose body is the payloads of the fragments joined in their order, and
  -- leaves the input behind them.
  pub receive-fragments :
      (w : WebSocket) (t : MessageType) (first : List ℕ) (ps : List Piece) (last rest : List ℕ)
      → let body = first ++ (content ps ++ last) in
        IsData t
        → Reads w.is_client w.max_message_size w.input
            (record { fin = false; opcode = t; payload = first }
              ∷ (map piece_frame ps ++ last_frame last ∷ []))
            rest
        → length body ≤ w.max_message_size
        → (is_text t && not (world.utf8_valid body)) ≡ false
        → receive world w ≡ (
          ok (message t body),
          record w {
            input = rest;
            auto_responded = false;
            fragmented_type = none;
            fragmented_data = [];
          },
        )
  unfolding receive
  receive-fragments w t first ps last rest i (mid, h, e) l u =
      let v : WebSocket = record w {
        fragmented_data = [];
        auto_responded = false;
        fragmented_type = none;
      } in
      let f : Frame = record { fin = false; opcode = t; payload = first } in
      loop-read (length w.input) v f mid h
      ∙ ap (λ x. and_then x (go_on (receive_loop world (length w.input))))
          (on_first (record v { input = mid }) t first i
            (omega (arith, length-append first (content ps ++ last))))
      ∙ loop-pieces v t ps (length w.input) mid first last rest e
          (omega (arith, read-shorter _ _ w.input f mid h)) l u
