-- ===== src/WebSocket/FrameTrip.antt =====
-- src/websocket.zig: a frame that one end writes is the frame that the other end reads.
use dusty.Base.{
  ℕ, ◌^◌, ◌≤◌, ◌<◌, ◌≡◌, refl, ap, ◌∙◌, Bool, true, false, not, ◌&&◌, List, [], ◌∷◌, ◌++◌, arith,
  ltb, leb, if◌then◌else◌, length, append_assoc, All, bit_or, Bool-cases, inl, inr, leb→le,
}
use dusty.Base.Bits.{IsByte}
use dusty.WebSocket.{MessageType, Key, World, WebSocket, ok, err, end_of_stream, to_u4}
use dusty.WebSocket.Reader.{
  read_int, read_length, read_payload, read_frame, is_control, ◌>>=◌, pure,
}
use dusty.WebSocket.Codec.{write_u16, write_u64, write_frame, write_frame_locked}
use dusty.WebSocket.Wire.{
  mask_bit, fin_bit, length_wire, payload_wire, frame_wire, Takes, sent, write_frame_locked_takes,
}
use dusty.WebSocket.Trip.{
  IsKey, IsOpcode, slice, first_byte, second_byte, read_payload-payload_wire,
}

-- What `read_frame` does behind a header with no error in it.
read_frame-header :
    (c : Bool) (max_message_size : ℕ) (fin : Bool) (opcode : MessageType) (short : ℕ)
    → (tail : List ℕ) → IsOpcode opcode
    → short < 128
    → (is_control opcode && ltb 125 short) ≡ false
    → read_frame
        (not c)
        max_message_size
        (bit_or (fin_bit fin) (to_u4 opcode) ∷ bit_or (mask_bit c) short ∷ tail)
      ≡ (do
        n ← read_length short
        payload ← read_payload c max_message_size n
        pure (record { fin = fin; opcode = opcode; payload = payload }))
          tail
unfolding read_frame
read_frame-header true max_message_size fin opcode short tail ho hs hc =
    let (f0, f1, f2) = first_byte fin (to_u4 opcode) ho.four_bits in
    let (s0, s1) = second_byte true short hs in
    rw (
      slice (bit_or (fin_bit fin) (to_u4 opcode) ∷ bit_or (mask_bit true) short ∷ []) tail 2 refl,
      f0,
      f1,
      f2,
      s0,
      s1,
      ho.named,
      hc,
    )
read_frame-header false max_message_size fin opcode short tail ho hs hc =
    let (f0, f1, f2) = first_byte fin (to_u4 opcode) ho.four_bits in
    let (s0, s1) = second_byte false short hs in
    rw (
      slice (bit_or (fin_bit fin) (to_u4 opcode) ∷ bit_or (mask_bit false) short ∷ []) tail 2 refl,
      f0,
      f1,
      f2,
      s0,
      s1,
      ho.named,
      hc,
    )

pub read_int-write_u16 : (n : ℕ) → n ≤ 65535 → read_int 0 (write_u16 n) ≡ n
unfolding read_int write_u16
read_int-write_u16 n h = omega arith

read_int-write_u64 : (n : ℕ) → n < 2 ^ 64 → read_int 0 (write_u64 n) ≡ n
unfolding read_int write_u64
read_int-write_u64 n h = omega arith

-- The seven bits of the second byte, and the bytes behind it.
short_of : ℕ → ℕ
short_of n = if ltb n 126 then n else if leb n 65535 then 126 else 127

extended : ℕ → List ℕ
extended n = if ltb n 126 then [] else if leb n 65535 then write_u16 n else write_u64 n

read_length-extended :
    (n : ℕ) (rest : List ℕ)
    → n < 2 ^ 64
    → read_length (short_of n) (extended n ++ rest) ≡ (ok n, rest)
unfolding read_length short_of extended write_u16 write_u64
read_length-extended n rest h = elim (Bool-cases (ltb n 126)) [
  | inl s ↦ rw s (ground (arith, s))
  | inr l ↦ elim (Bool-cases (leb n 65535)) [
    | inl s ↦ rw (l, s, slice (write_u16 n) rest 2 refl, read_int-write_u16 n (leb→le n 65535 s))
    | inr x ↦ rw (l, x, slice (write_u64 n) rest 8 refl, read_int-write_u64 n h)
  ]
]

length_wire-short :
    (c : Bool) (n : ℕ) → length_wire (mask_bit c) n ≡ bit_or (mask_bit c) (short_of n) ∷ extended n
unfolding short_of extended
length_wire-short c n = elim (Bool-cases (ltb n 126)) [
  | inl s ↦ rw s
  | inr l ↦ elim (Bool-cases (leb n 65535)) [ inl s ↦ rw (l, s) | inr x ↦ rw (l, x) ]
]

-- A control frame's length is in the second byte, so the check there passes.
short_of-control :
    (opcode : MessageType) (n : ℕ)
    → (is_control opcode && ltb 125 n) ≡ false
    → (is_control opcode && ltb 125 (short_of n)) ≡ false
unfolding short_of
short_of-control opcode n h = elim (Bool-cases (is_control opcode)) [
  | inl c ↦ rw c (ground (arith, h, c))
  | inr d ↦ rw d
]

short_of-bound : (n : ℕ) → short_of n < 128
unfolding short_of
short_of-bound n = ground arith

pub read_frame-frame_wire :
    (c : Bool) (k : Key) (max_message_size : ℕ) (opcode : MessageType) (bs : List ℕ) (fin : Bool)
    → (rest : List ℕ) → IsKey k
    → IsOpcode opcode
    → All IsByte bs
    → length bs < 2 ^ 64
    → length bs ≤ max_message_size
    → (is_control opcode && ltb 125 (length bs)) ≡ false
    → read_frame (not c) max_message_size (frame_wire c k opcode bs fin ++ rest)
      ≡ (ok (record { fin = fin; opcode = opcode; payload = bs }), rest)
read_frame-frame_wire c k max_message_size opcode bs fin rest hk ho hb h64 hmax hc =
    let n = length bs in
    rw (
      length_wire-short c n,
      append_assoc (extended n) (payload_wire c k bs) rest,
      read_frame-header c max_message_size fin opcode (short_of n)
          (extended n ++ (payload_wire c k bs ++ rest)) ho (short_of-bound n)
          (short_of-control opcode n hc),
      read_length-extended n (payload_wire c k bs ++ rest) h64,
      read_payload-payload_wire c k max_message_size bs rest hk hb hmax,
    )

-- The frame that one end writes is the frame that the other end reads: an open connection whose
-- writer takes all bytes and whose next masking key is bytes sends the frame and adds its wire
-- bytes to the output; the reader of the other role, given these bytes with any others behind,
-- returns the same final bit, opcode and payload and leaves the others. The payload is bytes,
-- within the reader's limit and 64 bits, and at most 125 of them in a control frame.
pub read_frame-write_frame :
    (world : World) (w : WebSocket) (opcode : MessageType) (bs : List ℕ) (fin : Bool)
    → (max_message_size : ℕ) (rest : List ℕ) → Takes world
    → IsKey (world.key w.drawn)
    → w.closed ≡ false
    → IsOpcode opcode
    → All IsByte bs
    → length bs < 2 ^ 64
    → length bs ≤ max_message_size
    → (is_control opcode && ltb 125 (length bs)) ≡ false
    → (v : WebSocket) × (wire : List ℕ) × (write_frame world opcode bs fin w ≡ (ok tt, v))
      × (v.output ≡ w.output ++ wire)
      × (read_frame (not w.is_client) max_message_size (wire ++ rest)
          ≡ (ok (record { fin = fin; opcode = opcode; payload = bs }), rest))
unfolding write_frame
read_frame-write_frame world w opcode bs fin m rest takes hk live ho hb h64 hmax hc = (
  sent world takes w opcode bs fin,
  frame_wire w.is_client (world.key w.drawn) opcode bs fin,
  ap (λ c. if c then (err end_of_stream, w) else write_frame_locked world opcode bs fin w) live
      ∙ write_frame_locked_takes world takes opcode bs fin w,
  refl,
  read_frame-frame_wire w.is_client (world.key w.drawn) m opcode bs fin rest hk ho hb h64 hmax hc,
)
