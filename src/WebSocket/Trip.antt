-- ===== src/WebSocket/Trip.antt =====
-- src/websocket.zig: the parts of a frame, written and read back.
use dusty.Base.{
  ℕ, zero, suc, ◌+◌, ◌%◌, ◌≤◌, ◌<◌, ◌≡◌, refl, ap, Bool, true, false, List, [], ◌∷◌, ◌++◌, arith,
  ◌!=◌, length, All, bit_or, bit_and, le→leb, le→ltb, length-append, take-append, drop-append,
}
use dusty.Base.Bits.{
  IsByte, bit_or_0x80_left, zero-bit_or, bit_and_0x0f, bit_and_0x70, bit_and_0x7f, bit_and_0x80,
  bit_xor_twice,
}
use dusty.WebSocket.{MessageType, Key, ok, to_u4, from_u4}
use dusty.WebSocket.Reader.{read_slice_all, read_payload, mask_from, key_byte}
use dusty.WebSocket.Wire.{mask_bit, fin_bit, payload_wire}

pub record IsKey (k : Key) : Type 0 where
  pub b0 : IsByte k.k0
  pub b1 : IsByte k.k1
  pub b2 : IsByte k.k2
  pub b3 : IsByte k.k3

key_byte-IsByte : (k : Key) (i : ℕ) → IsKey k → IsByte (key_byte k i)
unfolding key_byte
key_byte-IsByte k zero h = h.b0
key_byte-IsByte k (suc zero) h = h.b1
key_byte-IsByte k (suc (suc zero)) h = h.b2
key_byte-IsByte k (suc (suc (suc n))) h = h.b3

-- Masking with a key twice gives the bytes back, from any index of the key on.
pub mask_from_twice :
    (k : Key) (i : ℕ) (bs : List ℕ)
    → IsKey k
    → All IsByte bs
    → mask_from k i (mask_from k i bs) ≡ bs
unfolding mask_from
mask_from_twice k i [] h a = refl
mask_from_twice k i (b ∷ bs) h a = rw (
  bit_xor_twice b (key_byte k (i % 4)) a.0 (key_byte-IsByte k (i % 4) h),
  mask_from_twice k (i + 1) bs h a.1,
)

length-mask_from : (k : Key) (i : ℕ) (bs : List ℕ) → length (mask_from k i bs) ≡ length bs
unfolding mask_from
length-mask_from k i [] = refl
length-mask_from k i (b ∷ bs) = ap suc (length-mask_from k (i + 1) bs)

pub slice : (xs ys : List ℕ) (n : ℕ) → length xs ≡ n → read_slice_all n (xs ++ ys) ≡ (ok xs, ys)
unfolding read_slice_all
slice xs ys n h = rw (
  le→leb n (length (xs ++ ys)) (omega (arith, length-append xs ys)),
  take-append xs ys n h,
  drop-append xs ys n h,
)

-- The first byte of a frame: the final bit, three zeros and the opcode.
pub first_byte :
    (fin : Bool) (op : ℕ)
    → op < 16
    → (bit_and (bit_or (fin_bit fin) op) 0x0f ≡ op)
      × (bit_and (bit_or (fin_bit fin) op) 0x70 ≡ 0)
      × ((bit_and (bit_or (fin_bit fin) op) 0x80 != 0) ≡ fin)
first_byte true op h =
    rw (bit_or_0x80_left op (omega arith))
      (ground (arith, bit_and_0x0f (op + 128), bit_and_0x70 (op + 128), bit_and_0x80 (op + 128)))
first_byte false op h =
    rw (zero-bit_or op (omega arith))
      (ground (arith, bit_and_0x0f op, bit_and_0x70 op, bit_and_0x80 op))

-- The second byte: the mask bit and seven bits of length.
pub second_byte :
    (c : Bool) (n : ℕ)
    → n < 128
    → (bit_and (bit_or (mask_bit c) n) 0x7f ≡ n) × ((bit_and (bit_or (mask_bit c) n) 0x80 != 0) ≡ c)
second_byte true n h =
    rw (bit_or_0x80_left n h) (ground (arith, bit_and_0x7f (n + 128), bit_and_0x80 (n + 128)))
second_byte false n h =
    rw (zero-bit_or n (omega arith)) (ground (arith, bit_and_0x7f n, bit_and_0x80 n))

-- An opcode of four bits that is not a named one under another name.
pub record IsOpcode (t : MessageType) : Type 0 where
  pub four_bits : to_u4 t < 16
  pub named : from_u4 (to_u4 t) ≡ t

pub read_payload-payload_wire :
    (c : Bool) (k : Key) (max_message_size : ℕ) (bs rest : List ℕ)
    → IsKey k
    → All IsByte bs
    → length bs ≤ max_message_size
    → read_payload c max_message_size (length bs) (payload_wire c k bs ++ rest) ≡ (ok bs, rest)
unfolding read_payload
read_payload-payload_wire true k max_message_size bs rest hk hb h = rw (
  slice (k.k0 ∷ k.k1 ∷ k.k2 ∷ k.k3 ∷ []) (mask_from k 0 bs ++ rest) 4 refl,
  le→ltb (length bs) max_message_size h,
  slice (mask_from k 0 bs) rest (length bs) (length-mask_from k 0 bs),
  mask_from_twice k 0 bs hk hb,
)
read_payload-payload_wire false k max_message_size bs rest hk hb h =
    rw (le→ltb (length bs) max_message_size h, slice bs rest (length bs) refl)
