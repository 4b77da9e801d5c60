-- ===== src/WebSocket/Codec.antt =====
-- src/websocket.zig: writing frames. A call returns its outcome and the connection after it.
use dusty.Base.{
  ℕ, ◌+◌, ◌/◌, ◌%◌, ◌^◌, Bool, true, List, [], ◌∷◌, ◌++◌, ltb, leb, if◌then◌else◌, length, take,
  bit_or, bit_xor, min,
}
use dusty.WebSocket.{
  MessageType, text, binary, close, ping, to_u4, Key, World, WebSocket, Result, ok, err,
  out_of_fuel, end_of_stream, write_failed, invalid_opcode, large_control_frame,
}
use dusty.WebSocket.Reader.{key_byte}

abbrev pub Step : Type 0 → Type 0
Step A = WebSocket → Result A × WebSocket

abbrev pub and_then : {A B : Type 0} → Result A × WebSocket → (A → Step B) → Result B × WebSocket
and_then (ok a, w) f = f a w
and_then (err e, w) f = (err e, w)
and_then (out_of_fuel, w) f = (out_of_fuel, w)

infixl 5 ◌>>=◌
abbrev pub ◌>>=◌ : {A B : Type 0} → Step A → (A → Step B) → Step B
◌>>=◌ m f w = and_then (m w) f

infixl 5 ◌>>◌
abbrev pub ◌>>◌ : {B : Type 0} → Step (Unit {0}) → Step B → Step B
m >> k = m >>= λ _. k

-- `std.mem.writeInt`, big-endian.
unfoldable pub write_u16 : ℕ → List ℕ
write_u16 n = n / 2 ^ 8 % 256 ∷ n % 256 ∷ []

unfoldable pub write_u64 : ℕ → List ℕ
write_u64 n =
    n / 2 ^ 56 % 256
    ∷ n / 2 ^ 48 % 256
    ∷ n / 2 ^ 40 % 256
    ∷ n / 2 ^ 32 % 256
    ∷ n / 2 ^ 24 % 256
    ∷ n / 2 ^ 16 % 256
    ∷ n / 2 ^ 8 % 256
    ∷ n % 256
    ∷ []

abbrev pub key_bytes : Key → List ℕ
key_bytes k = k.k0 ∷ k.k1 ∷ k.k2 ∷ k.k3 ∷ []

module _ (world : World) where
  -- `conn.writeAll`. The errdefer of writeFrameLocked marks the connection closed on a failure.
  unfoldable pub write_all : List ℕ → Step (Unit {0})
  write_all bytes w =
      if world.writes w.output bytes
      then (ok tt, record w { output = w.output ++ bytes })
      else (err write_failed, record w { closed = true })

  unfoldable pub flush : Step (Unit {0})
  flush w =
      if world.flushes w.output then (ok tt, w) else (err write_failed, record w { closed = true })

  unfoldable pub write_length : ℕ → ℕ → Step (Unit {0})
  unfolding write_all write_u16 write_u64
  write_length mask_bit n =
      if ltb n 126
      then write_all (bit_or mask_bit n ∷ [])
      else if leb n 65535
      then (do write_all (bit_or mask_bit 126 ∷ []); write_all (write_u16 n))
      else (do write_all (bit_or mask_bit 127 ∷ []); write_all (write_u64 n))

  -- The loop that masks: each byte is a write of its own.
  unfoldable pub write_masked : Key → ℕ → List ℕ → Step (Unit {0})
  unfolding write_all key_byte
  write_masked k i [] = λ w. (ok tt, w)
  write_masked k i (b ∷ bs) = do
    write_all (bit_xor b (key_byte k (i % 4)) ∷ [])
    write_masked k (i + 1) bs

  unfoldable pub write_payload : List ℕ → Step (Unit {0})
  unfolding write_all write_masked
  write_payload bytes w =
      if w.is_client
      then (do write_all (key_bytes (world.key w.drawn)); write_masked (world.key w.drawn) 0 bytes)
          (record w { drawn = w.drawn + 1 })
      else write_all bytes w

  unfoldable pub write_frame_locked : MessageType → List ℕ → Bool → Step (Unit {0})
  unfolding write_all write_length write_payload flush to_u4
  write_frame_locked opcode bytes fin w =
      (do
        write_all (bit_or (if fin then 0x80 else 0x00) (to_u4 opcode) ∷ [])
        write_length (if w.is_client then 0x80 else 0x00) (length bytes)
        write_payload bytes
        flush)
        w

  -- The mutex is held for the whole of it, so a frame goes out with nothing in between.
  unfoldable pub write_frame : MessageType → List ℕ → Bool → Step (Unit {0})
  unfolding write_frame_locked
  write_frame opcode bytes fin w =
      if w.closed then (err end_of_stream, w) else write_frame_locked opcode bytes fin w

  unfoldable pub write_close : ℕ → List ℕ → Step (Unit {0})
  unfolding write_frame_locked write_u16
  write_close code reason w =
      if w.closed
      then (ok tt, w)
      else write_frame_locked close (write_u16 code ++ take (min (length reason) 123) reason) true
          (record w { closed = true })

  unfoldable pub send : MessageType → List ℕ → Step (Unit {0})
  unfolding write_frame
  send text bytes = λ w. write_frame text bytes true w
  send binary bytes = λ w. write_frame binary bytes true w
  send msg_type bytes = λ w. (err invalid_opcode, w)

  unfoldable pub send_ping : List ℕ → Step (Unit {0})
  unfolding write_frame
  send_ping bytes w =
      if ltb 125 (length bytes) then (err large_control_frame, w) else write_frame ping bytes true w
