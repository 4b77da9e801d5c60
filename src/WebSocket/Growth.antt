-- ===== src/WebSocket/Growth.antt =====
-- src/websocket.zig: what every step of a connection keeps: the output only grows, the unread
-- input never does, a closed connection stays closed, and the role and limit are fixed.
use dusty.Base.{
  ℕ, ◌+◌, ◌≤◌, ◌≡◌, refl, sym, ap, ◌∙◌, Bool, true, List, [], ◌∷◌, ◌++◌, arith, ltb, leb,
  if◌then◌else◌, length, take, min, bit_or, append-nil, append_assoc,
}
use dusty.WebSocket.{MessageType, close, to_u4, World, WebSocket, Key}
use dusty.WebSocket.Stepwise.{either, Chains, Rel, At, after, bind}
use dusty.WebSocket.Codec.{
  ◌>>◌, key_bytes, write_u16, write_all, flush, write_length, write_masked, write_payload,
  write_frame_locked, write_frame, write_close,
}

pub record Grows (w v : WebSocket) : Type 0 where
  pub output : (bs : List ℕ) × (v.output ≡ w.output ++ bs)
  pub input : length v.input ≤ length w.input
  pub closed : w.closed ≡ true → v.closed ≡ true
  pub role : v.is_client ≡ w.is_client
  pub limit : v.max_message_size ≡ w.max_message_size

pub Grows-same : (w : WebSocket) → Grows w w
Grows-same w = record {
  output = ([], sym (append-nil w.output));
  input = omega arith;
  closed = λ h. h;
  role = refl;
  limit = refl;
}

pub Grows-chain : (u v w : WebSocket) → Grows u v → Grows v w → Grows u w
Grows-chain u v w a b = record {
  output = (
    a.output.0 ++ b.output.0,
    b.output.1 ∙ ap (λ o. o ++ b.output.0) a.output.1 ∙ append_assoc u.output a.output.0 b.output.0,
  );
  input = let x = a.input in let y = b.input in omega arith;
  closed = λ h. b.closed (a.closed h);
  role = b.role ∙ a.role;
  limit = b.limit ∙ a.limit;
}

pub grows : Chains Grows
grows = record { same = Grows-same; chain = Grows-chain }

grow_by : (w : WebSocket) (bs : List ℕ) → Grows w (record w { output = w.output ++ bs })
grow_by w bs = record {
  output = (bs, refl);
  input = omega arith;
  closed = λ h. h;
  role = refl;
  limit = refl;
}

grow_closed : (w : WebSocket) → Grows w (record w { closed = true })
grow_closed w = record {
  output = ([], sym (append-nil w.output));
  input = omega arith;
  closed = λ h. refl;
  role = refl;
  limit = refl;
}

drawn_more : (w : WebSocket) → Grows w (record w { drawn = w.drawn + 1 })
drawn_more w = record {
  output = ([], sym (append-nil w.output));
  input = omega arith;
  closed = λ h. h;
  role = refl;
  limit = refl;
}

module _ (world : World) where
  write_all-Grows : (bs : List ℕ) → Rel Grows (write_all world bs)
  unfolding write_all
  write_all-Grows bs = record {
    at = λ w.
        either (At Grows w) (world.writes w.output bs) _ _ (tt, grow_by w bs) (tt, grow_closed w);
  }

  flush-Grows : Rel Grows (flush world)
  unfolding flush
  flush-Grows = record {
    at = λ w.
        either (At Grows w) (world.flushes w.output) _ _ (tt, Grows-same w) (tt, grow_closed w);
  }

  write_length-Grows : (m n : ℕ) → Rel Grows (write_length world m n)
  unfolding write_length
  write_length-Grows m n = either (Rel Grows) (ltb n 126) _ _ (write_all-Grows _) (
      either (Rel Grows) (leb n 65535) _ _
        (bind Grows grows _ _ (write_all-Grows _) (λ u. write_all-Grows _))
        (bind Grows grows _ _ (write_all-Grows _) (λ u. write_all-Grows _)))

  write_masked-Grows : (k : Key) (i : ℕ) (bs : List ℕ) → Rel Grows (write_masked world k i bs)
  unfolding write_masked
  write_masked-Grows k i [] = record { at = λ w. (tt, Grows-same w) }
  write_masked-Grows k i (b ∷ bs) =
      bind Grows grows _ _ (write_all-Grows _) (λ u. write_masked-Grows k (i + 1) bs)

  masks-Grows :
      (k : Key) (bs : List ℕ)
      → Rel Grows (do write_all world (key_bytes k); write_masked world k 0 bs)
  masks-Grows k bs =
      bind Grows grows _ _ (write_all-Grows (key_bytes k)) (λ u. write_masked-Grows k 0 bs)

  write_payload-Grows : (bs : List ℕ) → Rel Grows (write_payload world bs)
  unfolding write_payload
  write_payload-Grows bs = record {
    at = λ w.
        either (At Grows w) w.is_client _ _
          (after Grows grows w (record w { drawn = w.drawn + 1 }) _ (drawn_more w)
            ((masks-Grows (world.key w.drawn) bs).at _))
          ((write_all-Grows bs).at w);
  }

  frame_parts-Grows :
      (first : List ℕ) (m : ℕ) (bs : List ℕ)
      → Rel Grows (do
        write_all world first
        write_length world m (length bs)
        write_payload world bs
        flush world)
  frame_parts-Grows first m bs = bind Grows grows _ _ (write_all-Grows first) (λ u1.
      bind Grows grows _ _ (write_length-Grows m (length bs))
        (λ u2. bind Grows grows _ _ (write_payload-Grows bs) (λ u3. flush-Grows)))

  pub write_frame_locked-Grows :
      (t : MessageType) (bs : List ℕ) (fin : Bool) → Rel Grows (write_frame_locked world t bs fin)
  unfolding write_frame_locked
  write_frame_locked-Grows t bs fin = record {
    at = λ w.
        (frame_parts-Grows (bit_or (if fin then 0x80 else 0x00) (to_u4 t) ∷ [])
            (if w.is_client then 0x80 else 0x00) bs).at
          w;
  }

  pub write_frame-Grows :
      (t : MessageType) (bs : List ℕ) (fin : Bool) → Rel Grows (write_frame world t bs fin)
  unfolding write_frame
  write_frame-Grows t bs fin = record {
    at = λ w.
        either (At Grows w) w.closed _ _ (tt, Grows-same w)
          ((write_frame_locked-Grows t bs fin).at w);
  }

  pub write_close-Grows : (code : ℕ) (reason : List ℕ) → Rel Grows (write_close world code reason)
  unfolding write_close
  write_close-Grows code reason = record {
    at = λ w.
        either (At Grows w) w.closed _ _ (tt, Grows-same w)
          (after Grows grows w (record w { closed = true }) _ (grow_closed w)
            ((write_frame_locked-Grows close
                (write_u16 code ++ take (min (length reason) 123) reason) true).at
              (record w { closed = true })));
  }
