-- ===== src/Nghttp2/Frame/OriginTrip.antt =====
-- ORIGIN: what is built, packed and unpacked is what was built.
use dusty.Base.{
  ℕ, zero, suc, ◌+◌, ◌-◌, ◌*◌, ◌/◌, ◌%◌, ◌^◌, ◌≤◌, ◌<◌, ◌≡◌, refl, sym, ap, subst, ◌∙◌, List, [],
  ◌∷◌, ◌++◌, arith, length, take, drop, length-append, append_assoc, All, true, le→leb, le→ltb,
  take-append, drop-append, append-nil, ne_zero, ◌==◌, ==_iff,
}
use dusty.Base.Bits.{IsU16}
use dusty.Nghttp2.Run.{ok, ◌>>=◌, Mem}
use dusty.Nghttp2.Wire.{put_uint16be, put_uint32be}
use dusty.Nghttp2.Buf.{avail, len}
use dusty.Nghttp2.Bufs.{Bufs}
use dusty.Nghttp2.Bufs.Add.{length-content}
use dusty.Nghttp2.Frame.{FrameHd, frame_origin_init, origin_payloadlen}
use dusty.Nghttp2.Frame.Sent.{
  IsReady, IsHeaded, put_header_lem, push_head_lem, less_room, head_first,
}
use dusty.Nghttp2.Frame.Trip.{Travels, travels, avail_ready}
use dusty.Nghttp2.Frame.Pack.{frame_pack_origin, push_origins, head}
use dusty.Nghttp2.Frame.Unpack.{frame_unpack_origin_payload, origin_scan, origin_copy}

origin_bytes : List ℕ → List ℕ
unfolding put_uint16be
origin_bytes o = put_uint16be (length o % 2 ^ 16) ++ o

origin_payload : List (List ℕ) → List ℕ
unfolding origin_bytes
origin_payload [] = []
origin_payload (o ∷ ov) = origin_bytes o ++ origin_payload ov

length-origin_payload : (ov : List (List ℕ)) → length (origin_payload ov) ≡ origin_payloadlen ov
unfolding origin_payload origin_payloadlen
length-origin_payload [] = refl
length-origin_payload (o ∷ ov) =
    omega (arith, length-append o (origin_payload ov), length-origin_payload ov)

push_origins_lem :
    (b : Bufs) (bytes : List ℕ) (ov : List (List ℕ)) (n : ℕ)
    → IsHeaded b bytes (origin_payloadlen ov + n)
    → (b' : Bufs) × (push_origins b ov ≡ ok b') × IsHeaded b' (bytes ++ origin_payload ov) n
unfolding push_origins origin_payload origin_payloadlen origin_bytes
push_origins_lem b bytes [] n h = (b, refl, rw append-nil (less_room h (omega arith)))
push_origins_lem b bytes (o ∷ ov) n h =
    let l = put_uint16be (length o % 2 ^ 16) in
    let (b1, run1, h1) =
      push_head_lem b bytes l (length o + origin_payloadlen ov + n)
        (less_room h (unfold put_uint16be in omega arith)) in
    let (b2, run2, h2) =
      push_head_lem b1 _ o (origin_payloadlen ov + n) (less_room h1 (omega arith)) in
    let (b3, run3, h3) = push_origins_lem b2 _ ov n h2 in
    (
      b3,
      rw (run1, run2) run3,
      unfold put_uint16be in
          subst (λ t. IsHeaded b3 t n)
            (append_assoc (bytes ++ l) o (origin_payload ov)
              ∙ append_assoc bytes l (o ++ origin_payload ov))
            h3,
    )

-- An origin that a payload can carry: it is not empty, and its length fits 16 bits.
abbrev pub IsOrigin : List ℕ → Type 0
IsOrigin o = (0 < length o) × IsU16 (length o)

-- One round of each pass, at an origin of `n` bytes.
scan_round :
    (fuel a c n nov total : ℕ) (r : List ℕ)
    → a * 2 ^ 8 + c ≡ n
    → 0 < n
    → n ≤ length r
    → origin_scan (suc fuel) (a ∷ c ∷ r) nov total
      ≡ origin_scan fuel (drop n r) (nov + 1) (total + (n + 1))
unfolding origin_scan
scan_round fuel a c n nov total r e pos fits = rw (
  e,
  le→ltb 2 (suc (suc (length r))) (omega arith),
  le→ltb n (suc (suc (length r)) - 2) (omega arith),
  ne_zero n pos,
)

copy_round :
    (fuel a c n : ℕ) (r : List ℕ)
    → a * 2 ^ 8 + c ≡ n
    → 0 < n
    → n ≤ length r
    → origin_copy (suc fuel) (a ∷ c ∷ r)
      ≡ (origin_copy fuel (drop n r) >>= λ ov. ok (take n r ∷ ov))
unfolding origin_copy
copy_round fuel a c n r e pos fits =
    rw (e, le→leb n (suc (suc (length r)) - 2) (omega arith), ne_zero n pos)

module _ (o : List ℕ) (ov : List (List ℕ)) (h : IsOrigin o) where
  rest_fits : length o ≤ length (o ++ origin_payload ov)
  rest_fits = omega (arith, length-append o (origin_payload ov))

  two_bytes : length o % 2 ^ 16 / 2 ^ 8 % 256 * 2 ^ 8 + length o % 2 ^ 16 % 256 ≡ length o
  two_bytes = omega (arith, h.1)

origin_scan-payload :
    (ov : List (List ℕ)) (fuel nov total : ℕ)
    → All IsOrigin ov
    → length (origin_payload ov) ≤ fuel
    → (total' : ℕ) × (origin_scan fuel (origin_payload ov) nov total ≡ ok (nov + length ov, total'))
unfolding origin_payload origin_bytes
origin_scan-payload [] zero nov total h f = (total, unfold origin_scan in ground arith)
origin_scan-payload [] (suc fuel) nov total h f = (total, unfold origin_scan in ground arith)
origin_scan-payload (o ∷ ov) zero nov total h f = absurd (omega arith)
origin_scan-payload (o ∷ ov) (suc fuel) nov total h f =
    let (t, rest) =
      origin_scan-payload ov fuel (nov + 1) (total + (length o + 1)) h.1
        (omega (arith, length-append o (origin_payload ov))) in
    (
      t,
      scan_round fuel _ _ (length o) nov total (o ++ origin_payload ov) (two_bytes o ov h.0) h.0.0
            (rest_fits o ov h.0)
          ∙ rw (drop-append o (origin_payload ov) (length o) refl, rest)
              (ap (λ n. ok (n, t)) (omega arith)),
    )

origin_copy-payload :
    (ov : List (List ℕ)) (fuel : ℕ)
    → All IsOrigin ov
    → length (origin_payload ov) ≤ fuel
    → origin_copy fuel (origin_payload ov) ≡ ok ov
unfolding origin_payload origin_bytes
origin_copy-payload [] zero h f = unfold origin_copy in refl
origin_copy-payload [] (suc fuel) h f = unfold origin_copy in refl
origin_copy-payload (o ∷ ov) zero h f = absurd (omega arith)
origin_copy-payload (o ∷ ov) (suc fuel) h f =
    copy_round fuel _ _ (length o) (o ++ origin_payload ov) (two_bytes o ov h.0) h.0.0
      (rest_fits o ov h.0)
    ∙ rw (
      drop-append o (origin_payload ov) (length o) refl,
      take-append o (origin_payload ov) (length o) refl,
      origin_copy-payload ov fuel h.1 (omega (arith, length-append o (origin_payload ov))),
    )

origin_read :
    (mem : Mem) (hd : FrameHd) (ov : List (List ℕ))
    → All IsOrigin ov
    → ((n : ℕ) → mem.malloc n ≡ true)
    → frame_unpack_origin_payload mem hd (origin_payload ov) ≡ ok (record { hd = hd; ov = ov })
unfolding frame_unpack_origin_payload
origin_read mem hd [] h m = unfold origin_payload origin_scan in ground arith
origin_read mem hd (o ∷ ov) h m =
    let p = origin_payload (o ∷ ov) in
    let (total, scanned) = origin_scan-payload (o ∷ ov) (length p) 0 0 h (omega arith) in
    let copied = origin_copy-payload (o ∷ ov) (length p) h (omega arith) in
    rw (
      scanned,
      ne_zero (0 + length (o ∷ ov)) (omega arith),
      m (total + (0 + length (o ∷ ov)) * 16),
      copied,
    )

-- An ORIGIN frame comes back from its bytes: built, packed on a ready chain and unpacked by the two
-- passes, it is the frame that was built, for origins of 1 to 65535 bytes that together fit the
-- chunk, when the receiver's allocator grants what it is asked for.
pub origin_trip :
    (b : Bufs) (their : Mem) (ov : List (List ℕ))
    → IsReady b (origin_payloadlen ov)
    → origin_payloadlen ov < 2 ^ 24
    → All IsOrigin ov
    → ((n : ℕ) → their.malloc n ≡ true)
    → Travels
        (frame_pack_origin b (frame_origin_init ov))
        (frame_origin_init ov).hd
        (frame_unpack_origin_payload their)
        (frame_origin_init ov)
unfolding frame_pack_origin frame_origin_init
origin_trip b their ov r small h m =
    let f = frame_origin_init ov in
    let (b1, run1, h1) = put_header_lem b f.hd (origin_payloadlen ov) r in
    let (b2, run2, h2) = push_origins_lem b1 _ ov 0 (less_room h1 (omega arith)) in
    let full : (len (head b2) == 9 + origin_payloadlen ov) ≡ true =
      rw (head_first b2 h2.holds.first) (
        (==_iff _ _).1 (
          sym (length-content b2.cur h2.holds.buf)
          ∙ ap length h2.holds.bytes_eq
          ∙ unfold put_uint32be in omega (arith, length-origin_payload ov))) in
    travels f.hd (frame_unpack_origin_payload their) f (origin_payload ov)
      (record {
        length_24 = small;
        type_8 = omega arith;
        stream_31 = omega arith;
        reserved_0 = refl;
      })
      (sym (length-origin_payload ov)) (origin_read their f.hd ov h m) b2
      (rw (le→ltb _ (avail (head b)) (avail_ready b _ r), run1, run2, full)) h2.holds
