-- ===== src/WebSocket/Reader.antt =====
-- src/websocket.zig, `readFrame`: a frame is read from the bytes that the reader holds.
use dusty.Base.{
  ℕ, zero, suc, ◌+◌, ◌*◌, ◌%◌, Bool, true, false, not, ◌&&◌, List, [], ◌∷◌, ltb, leb, ◌==◌, ◌!=◌,
  if◌then◌else◌, length, take, drop, bit_and, bit_xor,
}
use dusty.WebSocket.{
  MessageType, close, ping, pong, from_u4, Frame, Key, Error, Result, ok, err, out_of_fuel,
  reserved_flags, large_control_frame, message_too_large, unmasked_client_frame,
  masked_server_frame, end_of_stream,
}

-- A step that reads: the outcome and the bytes that are left.
abbrev pub Reader : Type 0 → Type 0
Reader A = List ℕ → Result A × List ℕ

abbrev pub and_then : {A B : Type 0} → Result A × List ℕ → (A → Reader B) → Result B × List ℕ
and_then (ok a, rest) f = f a rest
and_then (err e, rest) f = (err e, rest)
and_then (out_of_fuel, rest) f = (out_of_fuel, rest)

infixl 5 ◌>>=◌
abbrev pub ◌>>=◌ : {A B : Type 0} → Reader A → (A → Reader B) → Reader B
◌>>=◌ m f s = and_then (m s) f

infixl 5 ◌>>◌
abbrev pub ◌>>◌ : {B : Type 0} → Reader (Unit {0}) → Reader B → Reader B
m >> k = m >>= λ _. k

abbrev pub pure : {A : Type 0} → A → Reader A
pure a s = (ok a, s)

-- `if (bad) return error`
abbrev pub reject_if : Bool → Error → Reader (Unit {0})
reject_if true e s = (err e, s)
reject_if false e s = (ok tt, s)

-- `readSliceAll`: all the bytes, or the end of the stream.
unfoldable pub read_slice_all : ℕ → Reader (List ℕ)
read_slice_all n s = if leb n (length s) then (ok (take n s), drop n s) else (err end_of_stream, [])

-- `std.mem.readInt`, big-endian, over any number of bytes.
unfoldable pub read_int : ℕ → List ℕ → ℕ
read_int acc [] = acc
read_int acc (b ∷ bs) = read_int (acc * 256 + b) bs

unfoldable pub is_control : MessageType → Bool
is_control close = true
is_control ping = true
is_control pong = true
is_control _ = false

-- `mask_key[i % 4]`
unfoldable pub key_byte : Key → ℕ → ℕ
key_byte k zero = k.k0
key_byte k (suc zero) = k.k1
key_byte k (suc (suc zero)) = k.k2
key_byte k (suc (suc (suc n))) = k.k3

-- The loop that masks and unmasks, from index `i` on.
unfoldable pub mask_from : Key → ℕ → List ℕ → List ℕ
unfolding key_byte
mask_from k i [] = []
mask_from k i (b ∷ bs) = bit_xor b (key_byte k (i % 4)) ∷ mask_from k (i + 1) bs

abbrev pub nth : List ℕ → ℕ → ℕ
nth [] i = 0
nth (x ∷ xs) zero = x
nth (x ∷ xs) (suc i) = nth xs i

-- The four bytes that `readSliceAll(&mask_key)` fills.
abbrev pub key_of : List ℕ → Key
key_of bs = record { k0 = nth bs 0; k1 = nth bs 1; k2 = nth bs 2; k3 = nth bs 3 }

-- The length that follows the second byte when that says 126 or 127.
unfoldable pub read_length : ℕ → Reader ℕ
unfolding read_slice_all read_int
read_length short =
    if short == 126
    then (read_slice_all 2 >>= λ buf. pure (read_int 0 buf))
    else if short == 127
    then (read_slice_all 8 >>= λ buf. pure (read_int 0 buf))
    else pure short

unfoldable pub read_payload : Bool → ℕ → ℕ → Reader (List ℕ)
unfolding read_slice_all mask_from
read_payload masked max_message_size n =
    if masked
    then (do
      key ← read_slice_all 4
      reject_if (ltb max_message_size n) message_too_large
      payload ← read_slice_all n
      pure (mask_from (key_of key) 0 payload))
    else (do reject_if (ltb max_message_size n) message_too_large; read_slice_all n)

unfoldable pub read_frame : Bool → ℕ → Reader Frame
unfolding read_slice_all read_length read_payload is_control from_u4
read_frame is_client max_message_size = do
  header ← read_slice_all 2
  let h0 = nth header 0
  let h1 = nth header 1
  let opcode = from_u4 (bit_and h0 0x0f)
  let masked = bit_and h1 0x80 != 0
  let short = bit_and h1 0x7f
  reject_if (bit_and h0 0x70 != 0) reserved_flags
  reject_if (not is_client && not masked) unmasked_client_frame
  reject_if (is_client && masked) masked_server_frame
  reject_if (is_control opcode && ltb 125 short) large_control_frame
  n ← read_length short
  payload ← read_payload masked max_message_size n
  pure (record { fin = bit_and h0 0x80 != 0; opcode = opcode; payload = payload })
