-- ===== src/WebSocket/Lasting.antt =====
-- src/websocket.zig: every call ends, and a closed connection writes nothing more.
use dusty.Base.{
  ℕ, ◌+◌, ◌≤◌, ◌≡◌, refl, sym, ap, ◌∙◌, Bool, true, not, List, [], ◌++◌, Option, none, some, arith,
  ltb, leb, length, take, drop, append-nil,
}
use dusty.WebSocket.{
  MessageType, text, binary, close, ping, pong, continuation, unknown, World, WebSocket, Frame,
  Message, Result, ok, err, end_of_stream,
}
use dusty.Base.{if_true}
use dusty.WebSocket.Stepwise.{either, Done, Chains, Rel, At, after, bind}
use dusty.WebSocket.Growth.{Grows, Grows-same, Grows-chain, write_frame-Grows, write_close-Grows}
use dusty.WebSocket.Reader.{read_int}
use dusty.WebSocket.Codec.{write_frame, write_close, send, send_ping}
use dusty.WebSocket.Receive.{
  is_some, code_or_normal, echo_close, on_close, on_ping, finish_message, on_continuation, on_data,
  on_opcode, on_frame,
}

-- As `Grows`, and once it is closed the connection has written its last byte.
pub record Lasts (w v : WebSocket) : Type 0 where
  pub grown : Grows w v
  pub quiet : w.closed ≡ true → v.output ≡ w.output

Lasts-same : (w : WebSocket) → Lasts w w
Lasts-same w = record { grown = Grows-same w; quiet = λ h. refl }

pub lasts : Chains Lasts
lasts = record {
  same = Lasts-same;
  chain = λ u v w a b. record {
    grown = Grows-chain u v w a.grown b.grown;
    quiet = λ h. b.quiet (a.grown.closed h) ∙ a.quiet h;
  };
}

-- A change of the fields that do not count here.
abbrev Elsewhere : WebSocket → WebSocket → Type 0
Elsewhere w v =
    (v.output ≡ w.output)
    × (length v.input ≤ length w.input)
    × (v.closed ≡ w.closed)
    × (v.is_client ≡ w.is_client)
    × (v.max_message_size ≡ w.max_message_size)

pub elsewhere : (w v : WebSocket) → Elsewhere w v → Lasts w v
elsewhere w v (o, i, c, r, m) = record {
  grown = record {
    output = ([], o ∙ sym (append-nil w.output));
    input = i;
    closed = λ h. c ∙ h;
    role = r;
    limit = m;
  };
  quiet = λ h. o;
}

responded :
    {A : Type 0} (r : Result A) → Done r → Rel Lasts (λ w. (r, record w { auto_responded = true }))
responded r d = record {
  at = λ w.
      (d, elsewhere w (record w { auto_responded = true }) (refl, omega arith, refl, refl, refl));
}

module _ (world : World) where
  pub write_frame-closed :
      (t : MessageType) (bs : List ℕ) (fin : Bool) (w : WebSocket)
      → w.closed ≡ true
      → write_frame world t bs fin w ≡ (err end_of_stream, w)
  unfolding write_frame
  write_frame-closed t bs fin w h = if_true w.closed _ _ h

  write_frame-Lasts :
      (t : MessageType) (bs : List ℕ) (fin : Bool) → Rel Lasts (write_frame world t bs fin)
  write_frame-Lasts t bs fin = record {
    at = λ w.
        let g = (write_frame-Grows world t bs fin).at w in
        (
          g.0,
          record {
            grown = g.1;
            quiet = λ h. ap (λ r. r.1.output) (write_frame-closed t bs fin w h);
          },
        );
  }

  pub write_close-closed :
      (code : ℕ) (reason : List ℕ) (w : WebSocket)
      → w.closed ≡ true
      → write_close world code reason w ≡ (ok tt, w)
  unfolding write_close
  write_close-closed code reason w h = if_true w.closed _ _ h

  pub write_close-Lasts : (code : ℕ) (reason : List ℕ) → Rel Lasts (write_close world code reason)
  write_close-Lasts code reason = record {
    at = λ w.
        let g = (write_close-Grows world code reason).at w in
        (
          g.0,
          record {
            grown = g.1;
            quiet = λ h. ap (λ r. r.1.output) (write_close-closed code reason w h);
          },
        );
  }

  pub send-Lasts : (t : MessageType) (bs : List ℕ) → Rel Lasts (send world t bs)
  unfolding send
  send-Lasts text bs = record { at = (write_frame-Lasts text bs true).at }
  send-Lasts binary bs = record { at = (write_frame-Lasts binary bs true).at }
  send-Lasts continuation bs = record { at = λ w. (tt, Lasts-same w) }
  send-Lasts close bs = record { at = λ w. (tt, Lasts-same w) }
  send-Lasts ping bs = record { at = λ w. (tt, Lasts-same w) }
  send-Lasts pong bs = record { at = λ w. (tt, Lasts-same w) }
  send-Lasts (unknown n) bs = record { at = λ w. (tt, Lasts-same w) }

  pub send_ping-Lasts : (bs : List ℕ) → Rel Lasts (send_ping world bs)
  unfolding send_ping
  send_ping-Lasts bs = record {
    at = λ w.
        either (At Lasts w) (ltb 125 (length bs)) _ _ (tt, Lasts-same w)
          ((write_frame-Lasts ping bs true).at w);
  }

  echo_close-Lasts : (code : Option ℕ) (reason : List ℕ) → Rel Lasts (echo_close world code reason)
  unfolding echo_close
  echo_close-Lasts code reason =
      let m : Message = record { type = close; body = reason; close_code = code } in
      bind Lasts lasts _ _ (write_close-Lasts (code_or_normal code) reason)
        (λ u. responded (ok (some m)) tt)

  on_close-Lasts : (payload : List ℕ) → Rel Lasts (on_close world payload)
  unfolding on_close
  on_close-Lasts payload =
      either (Rel Lasts) (leb 2 (length payload)) _ _
        (echo_close-Lasts (some (read_int 0 (take 2 payload))) (drop 2 payload))
        (echo_close-Lasts none [])

  on_ping-Lasts : (payload : List ℕ) → Rel Lasts (on_ping world payload)
  unfolding on_ping
  on_ping-Lasts payload =
      bind Lasts lasts _ _ (write_frame-Lasts pong payload true) (λ u. responded (ok none) tt)

  finish_message-Lasts : Rel Lasts (finish_message world)
  unfolding finish_message
  finish_message-Lasts = record {
    at = λ w.
        either (At Lasts w) _ _ _ (tt, elsewhere w _ (refl, omega arith, refl, refl, refl))
          (tt, elsewhere w _ (refl, omega arith, refl, refl, refl));
  }

  on_continuation-Lasts :
      (fin : Bool) (payload : List ℕ) → Rel Lasts (on_continuation world fin payload)
  unfolding on_continuation
  on_continuation-Lasts fin payload = record {
    at = λ w.
        let joined : WebSocket = record w { fragmented_data = w.fragmented_data ++ payload } in
        let step = elsewhere w joined (refl, omega arith, refl, refl, refl) in
        either (At Lasts w) (not (is_some w.fragmented_type)) _ _ (tt, Lasts-same w)
          (either (At Lasts w) (ltb w.max_message_size (length w.fragmented_data + length payload))
            _ _ (tt, Lasts-same w)
            (either (At Lasts w) fin _ _
              (after Lasts lasts w joined _ step (finish_message-Lasts.at joined)) (tt, step)));
  }

  on_data-Lasts :
      (fin : Bool) (opcode : MessageType) (payload : List ℕ)
      → Rel Lasts (on_data world fin opcode payload)
  unfolding on_data
  on_data-Lasts fin opcode payload = record {
    at = λ w.
        either (At Lasts w) fin _ _
          (either (At Lasts w) _ _ _ (tt, Lasts-same w) (tt, Lasts-same w))
          (either (At Lasts w) (is_some w.fragmented_type) _ _ (tt, Lasts-same w)
            (either (At Lasts w) (ltb w.max_message_size (length payload)) _ _ (tt, Lasts-same w)
              (tt, elsewhere w _ (refl, omega arith, refl, refl, refl))));
  }

  on_opcode-Lasts :
      (t : MessageType) (fin : Bool) (payload : List ℕ) → Rel Lasts (on_opcode world t fin payload)
  unfolding on_opcode
  on_opcode-Lasts ping fin payload = on_ping-Lasts payload
  on_opcode-Lasts pong fin payload = record { at = λ w. (tt, Lasts-same w) }
  on_opcode-Lasts close fin payload = on_close-Lasts payload
  on_opcode-Lasts continuation fin payload = on_continuation-Lasts fin payload
  on_opcode-Lasts text fin payload = on_data-Lasts fin text payload
  on_opcode-Lasts binary fin payload = on_data-Lasts fin binary payload
  on_opcode-Lasts (unknown n) fin payload = record { at = λ w. (tt, Lasts-same w) }

  pub on_frame-Lasts : (f : Frame) → Rel Lasts (on_frame world f)
  unfolding on_frame
  on_frame-Lasts f = on_opcode-Lasts f.opcode f.fin f.payload
