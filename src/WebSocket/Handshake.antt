-- ===== src/WebSocket/Handshake.antt =====
-- src/websocket.zig: the closing handshake.
use dusty.Base.{
  ℕ, zero, suc, ◌≤◌, ◌≡◌, refl, ap, ◌∙◌, true, false, ◌&&◌, List, [], ◌∷◌, ◌++◌, Option, none, some,
  arith, ltb, leb, length, take, min, length-take, Bool-cases, inl, inr, le→leb, le→ltb, All,
}
use dusty.Base.Bits.{IsByte, IsU16}
use dusty.WebSocket.{close, World, WebSocket, Frame, Message, to_u4, from_u4, Result, ok}
use dusty.Base.{if_true, if_false}
use dusty.WebSocket.Reader.{is_control, read_frame, read_int}
use dusty.WebSocket.Codec.{Step, and_then, write_u16, write_close}
use dusty.WebSocket.Receive.{
  go_on, echo_close, on_close, on_opcode, on_frame, receive_loop, receive,
}
use dusty.WebSocket.Wire.{frame_wire, Takes, sent, write_frame_locked_takes}
use dusty.WebSocket.Trip.{IsKey, IsOpcode}
use dusty.WebSocket.FrameTrip.{read_frame-frame_wire, read_int-write_u16}
use dusty.WebSocket.Lasting.{write_close-closed}
use dusty.WebSocket.Closing.{write_close-closes}
use dusty.WebSocket.Fragments.{loop-read}
use dusty.WebSocket.Exchange.{at_peer}

abbrev close_payload : ℕ → List ℕ → List ℕ
close_payload code reason = write_u16 code ++ take (min (length reason) 123) reason

close-IsOpcode : IsOpcode close
unfolding to_u4 from_u4
close-IsOpcode = record { four_bits = omega arith; named = refl }

length-close_payload : (code : ℕ) (reason : List ℕ) → length (close_payload code reason) ≤ 125
unfolding write_u16
length-close_payload code reason = omega (arith, length-take (min (length reason) 123) reason)

close_payload-fits :
    (code : ℕ) (reason : List ℕ)
    → (is_control close && ltb 125 (length (close_payload code reason))) ≡ false
unfolding is_control
close_payload-fits code reason = le→ltb _ _ (length-close_payload code reason)

All-take : (n : ℕ) (bs : List ℕ) → All IsByte bs → All IsByte (take n bs)
All-take zero bs h = tt
All-take (suc n) [] h = tt
All-take (suc n) (b ∷ bs) h = (h.0, All-take n bs h.1)

close_payload-bytes :
    (code : ℕ) (reason : List ℕ) → All IsByte reason → All IsByte (close_payload code reason)
unfolding write_u16
close_payload-bytes code reason h = (omega arith, (omega arith, All-take _ reason h))

module _ (world : World) (takes : Takes world) where
  write_close_takes :
      (code : ℕ) (reason : List ℕ) (w : WebSocket)
      → w.closed ≡ false
      → write_close world code reason w ≡ (
        ok tt,
        sent world takes (record w { closed = true }) close (close_payload code reason) true,
      )
  unfolding write_close
  write_close_takes code reason w h =
      if_false w.closed _ _ h
      ∙ write_frame_locked_takes world takes close (close_payload code reason) true
          (record w { closed = true })

  -- The echo of a close frame succeeds, also when this end has closed already.
  write_close-ok :
      (code : ℕ) (reason : List ℕ) (w : WebSocket) → (write_close world code reason w).0 ≡ ok tt
  write_close-ok code reason w = elim (Bool-cases w.closed) [
    | inl h ↦ ap (λ r. r.0) (write_close-closed world code reason w h)
    | inr h ↦ ap (λ r. r.0) (write_close_takes code reason w h)
  ]

  marked : Message → Unit {0} → Step (Option Message)
  marked m u v = (ok (some m), record v { auto_responded = true })

  answered :
      (m : Message) (r : Result (Unit {0}) × WebSocket)
      → r.0 ≡ ok tt
      → and_then r (marked m) ≡ (ok (some m), record r.1 { auto_responded = true })
  unfolding marked
  answered m r h = ap (λ x. and_then (x, r.1) (marked m)) h

  -- What the other end makes of the close frame.
  on_frame-close :
      (code : ℕ) (reason : List ℕ) (p : WebSocket)
      → IsU16 code
      → let body = take (min (length reason) 123) reason in
        let f : Frame = record {
          fin = true;
          opcode = close;
          payload = close_payload code reason;
        } in
        let m : Message = record { type = close; body = body; close_code = some code } in
        on_frame world f p
        ≡ (ok (some m), record (write_close world code body p).1 { auto_responded = true })
  unfolding on_frame on_opcode on_close echo_close write_u16 marked
  on_frame-close code reason p h =
      let body = take (min (length reason) 123) reason in
      let m : ℕ → Message = λ c. record { type = close; body = body; close_code = some c } in
      ap {A = Step (Option Message)} (λ s. s p)
        (if_true (leb 2 (length (close_payload code reason)))
          (echo_close world (some (read_int 0 (write_u16 code))) body) (echo_close world none [])
          (le→leb 2 (length (close_payload code reason)) (omega arith)))
      ∙ ap (λ c. echo_close world (some c) body p) (read_int-write_u16 code (omega arith))
      ∙ answered (m code) (write_close world code body p) (write_close-ok code body p)

  close_received :
      (p : WebSocket) (code : ℕ) (reason rest : List ℕ)
      → let body = take (min (length reason) 123) reason in
        let f : Frame = record {
          fin = true;
          opcode = close;
          payload = close_payload code reason;
        } in
        let m : Message = record { type = close; body = body; close_code = some code } in
        let v : WebSocket = record p {
          input = rest;
          auto_responded = false;
          fragmented_type = none;
          fragmented_data = [];
        } in
        read_frame p.is_client p.max_message_size p.input ≡ (ok f, rest)
        → IsU16 code
        → receive world p
          ≡ (ok m, record (write_close world code body v).1 { auto_responded = true })
  unfolding receive
  close_received p code reason rest h h16 =
      let v : WebSocket = record p {
        fragmented_data = [];
        auto_responded = false;
        fragmented_type = none;
      } in
      loop-read world (length p.input) v _ rest h
      ∙ ap (λ x. and_then x (go_on (receive_loop world (length p.input))))
          (on_frame-close code reason (record v { input = rest }) h16)

-- The closing handshake: an open connection whose writer takes all bytes and whose next masking
-- key is bytes sends its close frame, with a code of 16 bits and a reason of any length, cut at
-- 123 bytes; it is closed then. The other end, whatever its state, given these bytes with others
-- behind, a limit of 125 bytes at least and a writer that takes all, receives a close message with
-- that code and the cut reason, marks the answer, and is closed too.
pub receive-write_close :
    (world other : World) (w p : WebSocket) (code : ℕ) (reason rest : List ℕ)
    → Takes world
    → Takes other
    → IsKey (world.key w.drawn)
    → w.closed ≡ false
    → IsU16 code
    → All IsByte reason
    → 125 ≤ p.max_message_size
    → let v = (write_close world code reason w).1 in
      let m : Message = record {
        type = close;
        body = take (min (length reason) 123) reason;
        close_code = some code;
      } in
      (wire : List ℕ) × ((write_close world code reason w).0 ≡ ok tt)
      × (v.closed ≡ true)
      × (v.output ≡ w.output ++ wire)
      × ((receive other (at_peer w p (wire ++ rest))).0 ≡ ok m)
      × ((receive other (at_peer w p (wire ++ rest))).1.closed ≡ true)
      × ((receive other (at_peer w p (wire ++ rest))).1.auto_responded ≡ true)
receive-write_close world other w p code reason rest takes answers hk live h16 hb hmax =
    let payload = close_payload code reason in
    let wire = frame_wire w.is_client (world.key w.drawn) close payload true in
    let e = write_close_takes world takes code reason w live in
    let r =
      close_received other answers (at_peer w p (wire ++ rest)) code reason rest
        (read_frame-frame_wire w.is_client (world.key w.drawn) p.max_message_size close payload true
          rest hk close-IsOpcode (close_payload-bytes code reason hb)
          (omega (arith, length-close_payload code reason))
          (omega (arith, length-close_payload code reason)) (close_payload-fits code reason))
        h16 in
    (
      wire,
      ap (λ x. x.0) e,
      write_close-closes world code reason w,
      ap (λ x. x.1.output) e,
      ap (λ x. x.0) r,
      ap (λ x. x.1.closed) r ∙ write_close-closes other code _ _,
      ap (λ x. x.1.auto_responded) r,
    )
