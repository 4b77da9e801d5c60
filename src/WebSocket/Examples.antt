-- ===== src/WebSocket/Examples.antt =====
-- Runs of the codec on small connections.
use dusty.Base.{
  ℕ, ◌≡◌, refl, Bool, true, false, not, ◌&&◌, ltb, if◌then◌else◌, length, All, List, [], ◌∷◌, ◌++◌,
  none, some, arith,
}
use dusty.WebSocket.{text, close, World, WebSocket, Message, Key, ok, to_u4, from_u4}
use dusty.Base.Bits.{IsByte}
use dusty.WebSocket.Stepwise.{Done}
use dusty.WebSocket.Reader.{read_frame, is_control}
use dusty.WebSocket.Codec.{write_frame, write_close, send}
use dusty.WebSocket.Receive.{receive}
use dusty.WebSocket.Wire.{Takes}
use dusty.WebSocket.Trip.{IsKey, IsOpcode}
use dusty.WebSocket.FrameTrip.{read_frame-write_frame}
use dusty.WebSocket.Closing.{receive-Done, write_close-last, Call, run_all}
use dusty.WebSocket.Exchange.{at_peer, receive-send}
use dusty.WebSocket.Handshake.{receive-write_close}
use dusty.WebSocket.Fragments.{fragment, pong_between, receive-fragments, message}

-- A writer that takes all bytes, a fixed key, and text that is ASCII.
abbrev ascii : List ℕ → Bool
ascii [] = true
ascii (b ∷ bs) = if ltb b 128 then ascii bs else false

abbrev key : Key
key = record { k0 = 0x37; k1 = 0xfa; k2 = 0x21; k3 = 0x3d }

abbrev willing : World
willing = record { writes = λ o bs. true; flushes = λ o. true; key = λ n. key; utf8_valid = ascii }

abbrev client : WebSocket
client = record {
  is_client = true;
  max_message_size = 1000;
  closed = false;
  auto_responded = false;
  fragmented_type = none;
  fragmented_data = [];
  input = [];
  output = [];
  drawn = 0;
}

abbrev server : WebSocket
server = record client { is_client = false }

abbrev hello : List ℕ
hello = 0x48 ∷ 0x65 ∷ 0x6c ∷ 0x6c ∷ 0x6f ∷ []

willing-Takes : Takes willing
willing-Takes = record { bytes = λ o bs. refl; flushed = λ o. refl }

key-IsKey : IsKey key
key-IsKey = record { b0 = omega arith; b1 = omega arith; b2 = omega arith; b3 = omega arith }

text-IsOpcode : IsOpcode text
unfolding to_u4 from_u4
text-IsOpcode = record { four_bits = omega arith; named = refl }

hello-bytes : All IsByte hello
hello-bytes = (omega arith, (omega arith, (omega arith, (omega arith, (omega arith, tt)))))

hello-fits : (is_control text && ltb 125 (length hello)) ≡ false
unfolding is_control
hello-fits = refl

-- The masked frame of RFC 6455, section 5.7.
send-hello :
    (send willing text hello client).1.output
    ≡ 0x81 ∷ 0x85 ∷ 0x37 ∷ 0xfa ∷ 0x21 ∷ 0x3d ∷ 0x7f ∷ 0x9f ∷ 0x4d ∷ 0x51 ∷ 0x58 ∷ []
unfolding send
send-hello = refl

read_frame-write_frame_example :
    (v : WebSocket) × (wire : List ℕ) × (write_frame willing text hello true client ≡ (ok tt, v))
    × (v.output ≡ client.output ++ wire)
    × (read_frame (not client.is_client) 1000 (wire ++ 7 ∷ [])
        ≡ (ok (record { fin = true; opcode = text; payload = hello }), 7 ∷ []))
read_frame-write_frame_example =
    read_frame-write_frame willing client text hello true 1000 (7 ∷ []) willing-Takes key-IsKey refl
      text-IsOpcode hello-bytes (omega arith) (omega arith) hello-fits

receive-send_example :
    (v : WebSocket) × (wire : List ℕ) × (send willing text hello client ≡ (ok tt, v))
    × (v.output ≡ client.output ++ wire)
    × ((receive willing (at_peer client server (wire ++ 7 ∷ []))).0 ≡ ok (message text hello))
    × ((receive willing (at_peer client server (wire ++ 7 ∷ []))).1.input ≡ 7 ∷ [])
receive-send_example =
    receive-send willing willing client server text hello (7 ∷ []) willing-Takes key-IsKey refl tt
      hello-bytes (omega arith) (omega arith) refl

receive-write_close_example :
    let v = (write_close willing 1001 hello client).1 in
    let m : Message = record { type = close; body = hello; close_code = some 1001 } in
    (wire : List ℕ) × ((write_close willing 1001 hello client).0 ≡ ok tt)
    × (v.closed ≡ true)
    × (v.output ≡ client.output ++ wire)
    × ((receive willing (at_peer client server (wire ++ []))).0 ≡ ok m)
    × ((receive willing (at_peer client server (wire ++ []))).1.closed ≡ true)
    × ((receive willing (at_peer client server (wire ++ []))).1.auto_responded ≡ true)
receive-write_close_example =
    receive-write_close willing willing client server 1001 hello [] willing-Takes willing-Takes
      key-IsKey refl (omega arith) hello-bytes (omega arith)

-- Text in three fragments with a pong between them, as a server sends it.
abbrev fragments_input : List ℕ
fragments_input =
    0x01 ∷ 0x01 ∷ 0x48 ∷ 0x8a ∷ 0x00 ∷ 0x00 ∷ 0x01 ∷ 0x65 ∷ 0x80 ∷ 0x01 ∷ 0x6c ∷ 7 ∷ []

abbrev fragmented : WebSocket
fragmented = record client { input = fragments_input }

receive-fragments_example :
    receive willing fragmented
    ≡ (ok (message text (0x48 ∷ 0x65 ∷ 0x6c ∷ [])), record client { input = 7 ∷ [] })
unfolding read_frame
receive-fragments_example =
    receive-fragments willing fragmented text (0x48 ∷ [])
      (pong_between [] ∷ fragment (0x65 ∷ []) ∷ []) (0x6c ∷ []) (7 ∷ []) tt
      (_, refl, (_, refl, (_, refl, (_, refl, refl)))) (omega arith) refl

receive-Done_example : Done (receive willing fragmented).0
receive-Done_example = receive-Done willing fragmented

abbrev later_calls : List (Call willing)
later_calls = Call.send_call text hello ∷ Call.receive_call ∷ Call.close_call 1000 [] ∷ []

write_close-last_example :
    let v = (write_close willing 1001 hello client).1 in
    ((run_all willing later_calls v).output ≡ v.output)
    × ((run_all willing later_calls v).closed ≡ true)
write_close-last_example = write_close-last willing 1001 hello later_calls client

-- A whole text frame that comes in the middle of a fragmented binary message is returned, and the
-- fragments are dropped by the next `receive`.
abbrev interrupted : WebSocket
interrupted = record client {
  input = 0x02 ∷ 0x01 ∷ 0x48 ∷ 0x81 ∷ 0x01 ∷ 0x65 ∷ 0x80 ∷ 0x01 ∷ 0x6c ∷ [];
}

nested_is_returned : (receive willing interrupted).0 ≡ ok (message text (0x65 ∷ []))
unfolding receive
nested_is_returned = refl
