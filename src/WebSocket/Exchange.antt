-- ===== src/WebSocket/Exchange.antt =====
-- src/websocket.zig: what one end sends, the other end receives.
use dusty.Base.{
  ℕ, ◌≤◌, ◌<◌, ◌^◌, ◌≡◌, refl, ap, ◌∙◌, true, false, not, ◌&&◌, List, [], ◌++◌, none, some, arith,
  ltb, length, All,
}
use dusty.WebSocket.{
  MessageType, text, binary, close, ping, pong, continuation, unknown, World, WebSocket, to_u4,
  from_u4, ok,
}
use dusty.Base.Bits.{IsByte}
use dusty.Base.{if_false}
use dusty.WebSocket.Reader.{is_control, read_frame}
use dusty.WebSocket.Codec.{and_then, send, write_frame}
use dusty.WebSocket.Receive.{is_text, go_on, on_data, on_opcode, on_frame, receive_loop, receive}
use dusty.WebSocket.Wire.{frame_wire, Takes, sent, write_frame_locked_takes}
use dusty.WebSocket.Trip.{IsKey, IsOpcode}
use dusty.WebSocket.FrameTrip.{read_frame-frame_wire}
use dusty.WebSocket.Fragments.{IsData, message, loop-read}

-- The bytes of this frame come to the other end, with others behind.
abbrev pub at_peer : WebSocket → WebSocket → List ℕ → WebSocket
at_peer w p s = record p { is_client = not w.is_client; input = s }

data-IsOpcode : (t : MessageType) → IsData t → IsOpcode t
unfolding to_u4 from_u4
data-IsOpcode text i = record { four_bits = omega arith; named = refl }
data-IsOpcode binary i = record { four_bits = omega arith; named = refl }
data-IsOpcode continuation i = absurd i
data-IsOpcode close i = absurd i
data-IsOpcode ping i = absurd i
data-IsOpcode pong i = absurd i
data-IsOpcode (unknown n) i = absurd i

data-not_control : (t : MessageType) (n : ℕ) → IsData t → (is_control t && ltb 125 n) ≡ false
unfolding is_control
data-not_control text n i = refl
data-not_control binary n i = refl
data-not_control continuation n i = absurd i
data-not_control close n i = absurd i
data-not_control ping n i = absurd i
data-not_control pong n i = absurd i
data-not_control (unknown k) n i = absurd i

module _ (world : World) where
  send-data :
      (t : MessageType) (bs : List ℕ) → IsData t → send world t bs ≡ write_frame world t bs true
  unfolding send
  send-data text bs i = refl
  send-data binary bs i = refl
  send-data continuation bs i = absurd i
  send-data close bs i = absurd i
  send-data ping bs i = absurd i
  send-data pong bs i = absurd i
  send-data (unknown k) bs i = absurd i

  on_whole :
      (w : WebSocket) (t : MessageType) (bs : List ℕ)
      → IsData t
      → (is_text t && not (world.utf8_valid bs)) ≡ false
      → on_frame world (record { fin = true; opcode = t; payload = bs }) w
        ≡ (ok (some (message t bs)), w)
  unfolding on_frame on_opcode on_data
  on_whole w text bs i u = rw u
  on_whole w binary bs i u = refl
  on_whole w continuation bs i u = absurd i
  on_whole w close bs i u = absurd i
  on_whole w ping bs i u = absurd i
  on_whole w pong bs i u = absurd i
  on_whole w (unknown k) bs i u = absurd i

  received :
      (p : WebSocket) (t : MessageType) (bs rest : List ℕ)
      → read_frame p.is_client p.max_message_size p.input
        ≡ (ok (record { fin = true; opcode = t; payload = bs }), rest)
      → IsData t
      → (is_text t && not (world.utf8_valid bs)) ≡ false
      → receive world p ≡ (
        ok (message t bs),
        record p {
          input = rest;
          auto_responded = false;
          fragmented_type = none;
          fragmented_data = [];
        },
      )
  unfolding receive
  received p t bs rest h i u =
      let v : WebSocket = record p {
        fragmented_data = [];
        auto_responded = false;
        fragmented_type = none;
      } in
      loop-read world (length p.input) v _ rest h
      ∙ ap (λ x. and_then x (go_on (receive_loop world (length p.input))))
          (on_whole (record v { input = rest }) t bs i u)

-- What `send` sends, `receive` receives: an open connection whose writer takes all bytes and whose
-- next masking key is bytes sends a text or binary message and adds its frame to the output; the
-- other end, whatever its state, with these bytes and any others at its input, receives a message
-- of the same type with the same body and leaves the others. The body is bytes, within the
-- receiver's limit and 64 bits, and UTF-8 for the receiver in a text message.
pub receive-send :
    (world other : World) (w p : WebSocket) (t : MessageType) (bs rest : List ℕ)
    → Takes world
    → IsKey (world.key w.drawn)
    → w.closed ≡ false
    → IsData t
    → All IsByte bs
    → length bs < 2 ^ 64
    → length bs ≤ p.max_message_size
    → (is_text t && not (other.utf8_valid bs)) ≡ false
    → (v : WebSocket) × (wire : List ℕ) × (send world t bs w ≡ (ok tt, v))
      × (v.output ≡ w.output ++ wire)
      × ((receive other (at_peer w p (wire ++ rest))).0 ≡ ok (message t bs))
      × ((receive other (at_peer w p (wire ++ rest))).1.input ≡ rest)
unfolding write_frame
receive-send world other w p t bs rest takes hk live i hb h64 hmax hu =
    let wire = frame_wire w.is_client (world.key w.drawn) t bs true in
    let r =
      received other (at_peer w p (wire ++ rest)) t bs rest
        (read_frame-frame_wire w.is_client (world.key w.drawn) p.max_message_size t bs true rest hk
          (data-IsOpcode t i) hb h64 hmax (data-not_control t (length bs) i))
        i hu in
    (
      sent world takes w t bs true,
      wire,
      ap (λ s. s w) (send-data world t bs i)
          ∙ if_false w.closed _ _ live
          ∙ write_frame_locked_takes world takes t bs true w,
      refl,
      ap (λ x. x.0) r,
      ap (λ x. x.1.input) r,
    )
