-- ===== src/WebSocket/Wire.antt =====
-- The bytes of a frame, and that `write_frame` writes them when the writer takes them.
use dusty.Base.{
  ℕ, ◌+◌, ◌≡◌, ap, ◌∙◌, Bool, true, false, List, [], ◌∷◌, ◌++◌, ltb, leb, if◌then◌else◌, length,
  append_assoc, append-nil, bit_or, bit_xor, ◌%◌, Bool-cases, inl, inr,
}
use dusty.WebSocket.{MessageType, to_u4, Key, World, WebSocket, ok}
use dusty.WebSocket.Reader.{mask_from, key_byte}
use dusty.WebSocket.Codec.{
  key_bytes, write_u16, write_u64, write_all, flush, write_length, write_masked, write_payload,
  write_frame_locked,
}

abbrev pub mask_bit : Bool → ℕ
mask_bit c = if c then 0x80 else 0x00

abbrev pub fin_bit : Bool → ℕ
fin_bit fin = if fin then 0x80 else 0x00

abbrev pub length_wire : ℕ → ℕ → List ℕ
length_wire m n =
    if ltb n 126
    then bit_or m n ∷ []
    else if leb n 65535
    then bit_or m 126 ∷ write_u16 n
    else bit_or m 127 ∷ write_u64 n

abbrev pub payload_wire : Bool → Key → List ℕ → List ℕ
payload_wire c k bytes = if c then k.k0 ∷ k.k1 ∷ k.k2 ∷ k.k3 ∷ mask_from k 0 bytes else bytes

abbrev pub frame_wire : Bool → Key → MessageType → List ℕ → Bool → List ℕ
frame_wire c k opcode bytes fin =
    bit_or (fin_bit fin) (to_u4 opcode)
    ∷ (length_wire (mask_bit c) (length bytes) ++ payload_wire c k bytes)

-- The writer takes everything.
pub record Takes (world : World) : Type 0 where
  pub bytes : (o bs : List ℕ) → world.writes o bs ≡ true
  pub flushed : (o : List ℕ) → world.flushes o ≡ true

abbrev pub wrote : WebSocket → List ℕ → WebSocket
wrote w bs = record w { output = w.output ++ bs }

regroup : (a b c d : List ℕ) → ((a ++ b) ++ c) ++ d ≡ a ++ (b ++ (c ++ d))
regroup a b c d = append_assoc (a ++ b) c d ∙ append_assoc a b (c ++ d)

module _ (world : World) (takes : Takes world) where
  write_all_takes : (bs : List ℕ) (w : WebSocket) → write_all world bs w ≡ (ok tt, wrote w bs)
  unfolding write_all
  write_all_takes bs w = rw (takes.bytes w.output bs)

  flush_takes : (w : WebSocket) → flush world w ≡ (ok tt, w)
  unfolding flush
  flush_takes w = rw (takes.flushed w.output)

  -- A write and then another is a write of both.
  then_takes :
      (w : WebSocket) (a bs : List ℕ) → write_all world bs (wrote w a) ≡ (ok tt, wrote w (a ++ bs))
  then_takes w a bs =
      write_all_takes bs (wrote w a)
      ∙ ap (λ o. (ok tt, record w { output = o })) (append_assoc w.output a bs)

  write_length_takes :
      (m n : ℕ) (w : WebSocket) → write_length world m n w ≡ (ok tt, wrote w (length_wire m n))
  unfolding write_length
  write_length_takes m n w = elim (Bool-cases (ltb n 126)) [
    | inl s ↦ rw (s, write_all_takes)
    | inr l ↦ elim (Bool-cases (leb n 65535)) [
      | inl s ↦
          rw (l, s, write_all_takes (bit_or m 126 ∷ []) w)
            (then_takes w (bit_or m 126 ∷ []) (write_u16 n))
      | inr x ↦
          rw (l, x, write_all_takes (bit_or m 127 ∷ []) w)
            (then_takes w (bit_or m 127 ∷ []) (write_u64 n))
    ]
  ]

  -- The masking loop writes the masked bytes.
  write_masked_takes :
      (k : Key) (i : ℕ) (bs : List ℕ) (w : WebSocket) (a : List ℕ)
      → write_masked world k i bs (wrote w a) ≡ (ok tt, wrote w (a ++ mask_from k i bs))
  unfolding write_masked mask_from
  write_masked_takes k i [] w a = rw (append-nil a)
  write_masked_takes k i (b ∷ bs) w a =
      let m = bit_xor b (key_byte k (i % 4)) in
      rw (
        then_takes w a (m ∷ []),
        write_masked_takes k (i + 1) bs w (a ++ m ∷ []),
        append_assoc a (m ∷ []) (mask_from k (i + 1) bs),
      )

  -- What the connection is after the payload of a frame went out.
  abbrev after_payload : WebSocket → List ℕ → WebSocket
  after_payload w bs =
      if w.is_client
      then record (wrote w (payload_wire true (world.key w.drawn) bs)) { drawn = w.drawn + 1 }
      else wrote w bs

  write_payload_takes :
      (bs : List ℕ) (w : WebSocket) → write_payload world bs w ≡ (ok tt, after_payload w bs)
  unfolding write_payload
  write_payload_takes bs w = elim (Bool-cases w.is_client) [
    | inl c ↦
        rw (c, takes.bytes)
          (write_masked_takes (world.key w.drawn) 0 bs
            (record w { is_client = true; drawn = w.drawn + 1 }) (key_bytes (world.key w.drawn)))
    | inr s ↦ rw (s, takes.bytes)
  ]

  -- What the connection is after a frame went out.
  abbrev pub sent : WebSocket → MessageType → List ℕ → Bool → WebSocket
  sent w opcode bs fin = record w {
    output = w.output ++ frame_wire w.is_client (world.key w.drawn) opcode bs fin;
    drawn = if w.is_client then w.drawn + 1 else w.drawn;
  }

  pub write_frame_locked_takes :
      (opcode : MessageType) (bs : List ℕ) (fin : Bool) (w : WebSocket)
      → write_frame_locked world opcode bs fin w ≡ (ok tt, sent w opcode bs fin)
  unfolding write_frame_locked
  write_frame_locked_takes opcode bs fin w =
      rw (write_all_takes, write_length_takes, write_payload_takes, flush_takes)
        (elim (Bool-cases w.is_client) [
          | inl c ↦ rw c (
              ap
                (λ (o : List ℕ).
                  (ok tt, record w { is_client = true; output = o; drawn = w.drawn + 1 }))
                (regroup w.output _ _ _))
          | inr s ↦ rw s (
              ap (λ (o : List ℕ). (ok tt, record w { is_client = false; output = o }))
                (regroup w.output _ _ _))
        ])
