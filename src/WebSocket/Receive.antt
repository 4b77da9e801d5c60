-- ===== src/WebSocket/Receive.antt =====
-- src/websocket.zig, `receive`: frames become messages.
use dusty.Base.{
  ℕ, zero, suc, ◌+◌, ◌&&◌, not, Bool, true, false, List, [], ◌++◌, Option, none, some, ltb, leb,
  if◌then◌else◌, length, take, drop,
}
use dusty.WebSocket.{
  MessageType, continuation, text, binary, close, ping, pong, unknown, Frame, Message, World,
  WebSocket, ok, err, out_of_fuel, unexpected_continuation, message_too_large, invalid_utf8,
  nested_fragment, invalid_opcode,
}
use dusty.WebSocket.Reader.{read_frame, read_int}
use dusty.WebSocket.Codec.{Step, ◌>>=◌, ◌>>◌, write_frame, write_close}

-- `readFrame` on the connection's reader.
unfoldable pub read_next : Step Frame
unfolding read_frame
read_next w =
    let (r, rest) = read_frame w.is_client w.max_message_size w.input in
    (r, record w { input = rest })

abbrev pub get_type : Option MessageType → MessageType
get_type (some t) = t
get_type none = continuation

abbrev pub is_text : MessageType → Bool
is_text text = true
is_text _ = false

abbrev pub is_some : Option MessageType → Bool
is_some none = false
is_some (some t) = true

-- `close_code orelse .normal`
abbrev pub code_or_normal : Option ℕ → ℕ
code_or_normal none = 1000
code_or_normal (some code) = code

-- A message is returned, and without one the loop goes on.
abbrev pub go_on : Step Message → Option Message → Step Message
go_on again none = again
go_on again (some message) = λ w. (ok message, w)

module _ (world : World) where
  -- The close frame is echoed, and the message is the close.
  unfoldable pub echo_close : Option ℕ → List ℕ → Step (Option Message)
  unfolding write_close
  echo_close close_code reason = do
    write_close world (code_or_normal close_code) reason
    (λ v. (
      ok (some (record { type = close; body = reason; close_code = close_code })),
      record v { auto_responded = true },
    ))

  -- The body of a close frame: a code if there are two bytes, and the reason behind it.
  unfoldable pub on_close : List ℕ → Step (Option Message)
  unfolding echo_close read_int
  on_close payload =
      if leb 2 (length payload)
      then echo_close (some (read_int 0 (take 2 payload))) (drop 2 payload)
      else echo_close none []

  unfoldable pub on_ping : List ℕ → Step (Option Message)
  unfolding write_frame
  on_ping payload = do
    write_frame world pong payload true
    (λ w. (ok none, record w { auto_responded = true }))

  -- The last fragment has come: the whole message, if it is well formed.
  unfoldable pub finish_message : Step (Option Message)
  finish_message w =
      let t = get_type w.fragmented_type in
      let v = record w { fragmented_type = none; fragmented_data = [] } in
      if is_text t && not (world.utf8_valid w.fragmented_data)
      then (err invalid_utf8, v)
      else (ok (some (record { type = t; body = w.fragmented_data; close_code = none })), v)

  unfoldable pub on_continuation : Bool → List ℕ → Step (Option Message)
  unfolding finish_message
  on_continuation fin payload w =
      let joined : WebSocket = record w { fragmented_data = w.fragmented_data ++ payload } in
      if not (is_some w.fragmented_type)
      then (err unexpected_continuation, w)
      else if ltb w.max_message_size (length w.fragmented_data + length payload)
      then (err message_too_large, w)
      else if fin
      then finish_message joined
      else (ok none, joined)

  unfoldable pub on_data : Bool → MessageType → List ℕ → Step (Option Message)
  on_data fin opcode payload w =
      if fin
      then (if is_text opcode && not (world.utf8_valid payload)
          then (err invalid_utf8, w)
          else (ok (some (record { type = opcode; body = payload; close_code = none })), w))
      else (if is_some w.fragmented_type
          then (err nested_fragment, w)
          else if ltb w.max_message_size (length payload)
          then (err message_too_large, w)
          else (ok none, record w { fragmented_type = some opcode; fragmented_data = payload }))

  -- The `switch` on the opcode. `none` goes on with the loop.
  unfoldable pub on_opcode : MessageType → Bool → List ℕ → Step (Option Message)
  unfolding on_close on_ping on_continuation on_data
  on_opcode ping fin payload = on_ping payload
  on_opcode pong fin payload = λ w. (ok none, w)
  on_opcode close fin payload = on_close payload
  on_opcode continuation fin payload = on_continuation fin payload
  on_opcode text fin payload = on_data fin text payload
  on_opcode binary fin payload = on_data fin binary payload
  on_opcode (unknown n) fin payload = λ w. (err invalid_opcode, w)

  unfoldable pub on_frame : Frame → Step (Option Message)
  unfolding on_opcode
  on_frame f = on_opcode f.opcode f.fin f.payload

  -- The `while (true)` loop. A frame takes two bytes at least, so the input bounds the rounds.
  unfoldable pub receive_loop : ℕ → Step Message
  unfolding read_next on_frame
  receive_loop zero w = (out_of_fuel, w)
  receive_loop (suc fuel) w = (do f ← read_next; m ← on_frame f; go_on (receive_loop fuel) m) w

  unfoldable pub receive : Step Message
  unfolding receive_loop
  receive w =
      receive_loop (suc (length w.input))
        (record w { fragmented_data = []; auto_responded = false; fragmented_type = none })
