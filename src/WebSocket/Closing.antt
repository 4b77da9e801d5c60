-- ===== src/WebSocket/Closing.antt =====
-- src/websocket.zig: `receive` ends, and the close frame is the last that a connection writes.
use dusty.Base.{
  ℕ, zero, suc, Bool-cases, inl, inr, ◌<◌, ◌≡◌, refl, ap, ◌∙◌, Bool, true, false, List, [], ◌∷◌,
  ◌++◌, Option, none, some, arith, length, take, min,
}
use dusty.WebSocket.{
  MessageType, close, World, WebSocket, Frame, Message, Result, ok, err, out_of_fuel,
}
use dusty.Base.{if_true, if_false}
use dusty.WebSocket.Stepwise.{Done, Rel, At, after}
use dusty.WebSocket.Ends.{Took, read_frame-Took}
use dusty.WebSocket.Growth.{write_frame_locked-Grows}
use dusty.WebSocket.Lasting.{
  Lasts, lasts, elsewhere, on_frame-Lasts, send-Lasts, send_ping-Lasts, write_close-Lasts,
}
use dusty.WebSocket.Reader.{read_frame}
use dusty.WebSocket.Codec.{Step, write_u16, and_then, ◌>>=◌, write_close, send, send_ping}
use dusty.WebSocket.Receive.{read_next, go_on, on_frame, receive_loop, receive}

module _ (world : World) where
  -- What the loop does with a frame, and the loop after it.
  round : ℕ → Frame → Step Message
  round fuel f = do m ← on_frame world f; go_on (receive_loop world fuel) m

  -- The rounds that are left are enough for the input.
  Enough : ℕ → Type 0
  Enough fuel = (w : WebSocket) → length w.input < fuel → At Lasts w (receive_loop world fuel w)

  after_frame :
      (fuel : ℕ) (w : WebSocket) (r : Result (Option Message) × WebSocket)
      → Enough fuel
      → At Lasts w r
      → length w.input < fuel
      → At Lasts w (and_then r (go_on (receive_loop world fuel)))
  unfolding Enough
  after_frame fuel w (ok none, v) ih a h =
      after Lasts lasts w v _ a.1 (ih v (let i = a.1.grown.input in omega arith))
  after_frame fuel w (ok (some m), v) ih a h = a
  after_frame fuel w (err e, v) ih a h = a
  after_frame fuel w (out_of_fuel, v) ih a h = a

  after_read :
      (fuel : ℕ) (w : WebSocket) (r : Result Frame × List ℕ)
      → Enough fuel
      → Took 2 w.input r
      → length w.input < suc fuel
      → At Lasts w (and_then (r.0, record w { input = r.1 }) (round fuel))
  unfolding round
  after_read fuel w (ok f, rest) ih t h =
      let v : WebSocket = record w { input = rest } in
      after Lasts lasts w v _ (elsewhere w v (refl, omega arith, refl, refl, refl))
        (after_frame fuel v (on_frame world f v) ih ((on_frame-Lasts world f).at v) (omega arith))
  after_read fuel w (err e, rest) ih t h =
      (tt, elsewhere w (record w { input = rest }) (refl, t, refl, refl, refl))
  after_read fuel w (out_of_fuel, rest) ih t h = absurd t

  loop-Lasts : (fuel : ℕ) → Enough fuel
  unfolding Enough receive_loop read_next round
  loop-Lasts zero w h = absurd (omega arith)
  loop-Lasts (suc fuel) w h =
      after_read fuel w (read_frame w.is_client w.max_message_size w.input) (loop-Lasts fuel)
        (read_frame-Took w.is_client w.max_message_size w.input) h

  receive-Lasts : Rel Lasts (receive world)
  unfolding receive Enough
  receive-Lasts = record {
    at = λ w.
        let v : WebSocket = record w {
          fragmented_data = [];
          auto_responded = false;
          fragmented_type = none;
        } in
        after Lasts lasts w v _ (elsewhere w v (refl, omega arith, refl, refl, refl))
          (loop-Lasts (suc (length w.input)) v (omega arith));
  }

  -- `receive` returns a message or an error: the rounds allowed are enough for every input.
  pub receive-Done : (w : WebSocket) → Done (receive world w).0
  receive-Done w = (receive-Lasts.at w).0

  -- One call of any operation, or one round of `receive`: the write lock makes these the steps
  -- that tasks interleave.
  pub data Call : Type 0 where
    send_call : MessageType → List ℕ → Call
    ping_call : List ℕ → Call
    close_call : ℕ → List ℕ → Call
    receive_call : Call
    frame_call : Frame → Call

  pub run : Call → WebSocket → WebSocket
  run (send_call t bs) w = (send world t bs w).1
  run (ping_call bs) w = (send_ping world bs w).1
  run (close_call code reason) w = (write_close world code reason w).1
  run receive_call w = (receive world w).1
  run (frame_call f) w = (on_frame world f w).1

  pub run_all : List Call → WebSocket → WebSocket
  run_all [] w = w
  run_all (c ∷ cs) w = run_all cs (run c w)

  run-Lasts : (c : Call) (w : WebSocket) → Lasts w (run c w)
  unfolding run
  run-Lasts (send_call t bs) w = ((send-Lasts world t bs).at w).1
  run-Lasts (ping_call bs) w = ((send_ping-Lasts world bs).at w).1
  run-Lasts (close_call code reason) w = ((write_close-Lasts world code reason).at w).1
  run-Lasts receive_call w = (receive-Lasts.at w).1
  run-Lasts (frame_call f) w = ((on_frame-Lasts world f).at w).1

  run_all-Lasts : (cs : List Call) (w : WebSocket) → Lasts w (run_all cs w)
  unfolding run_all
  run_all-Lasts [] w = lasts.same w
  run_all-Lasts (c ∷ cs) w = lasts.chain w (run c w) _ (run-Lasts c w) (run_all-Lasts cs (run c w))

  closed_after : {A : Type 0} → Result A × WebSocket → Bool
  closed_after r = r.1.closed

  -- After `write_close` the connection is closed, whatever the outcome.
  pub write_close-closes :
      (code : ℕ) (reason : List ℕ) (w : WebSocket)
      → (write_close world code reason w).1.closed ≡ true
  unfolding write_close closed_after
  write_close-closes code reason w = elim (Bool-cases w.closed) [
    | inl h ↦ ap closed_after (if_true w.closed _ _ h) ∙ h
    | inr h ↦
        ap closed_after (if_false w.closed _ _ h)
        ∙ ((write_frame_locked-Grows world close
                (write_u16 code ++ take (min (length reason) 123) reason) true).at
              (record w { closed = true })).1.closed
            refl
  ]

  -- The close frame is the last that a connection writes: whatever the calls that follow it, of
  -- `send`, `ping`, `close`, `receive` and its rounds, in any order, and whatever each step's
  -- outcome, the output stays what it was when `write_close` returned, and the connection closed.
  pub write_close-last :
      (code : ℕ) (reason : List ℕ) (cs : List Call) (w : WebSocket)
      → let v = (write_close world code reason w).1 in
        ((run_all cs v).output ≡ v.output) × ((run_all cs v).closed ≡ true)
  write_close-last code reason cs w =
      let v = (write_close world code reason w).1 in
      let c = write_close-closes code reason w in
      let l = run_all-Lasts cs v in (l.quiet c, l.grown.closed c)
