-- ===== src/Nghttp2/Frame/PriorityTrip.antt =====
-- PRIORITY: the five bytes of a priority specification, written in place.
use dusty.Base.{
  ℕ, zero, suc, ◌+◌, ◌*◌, ◌/◌, ◌%◌, ◌^◌, ◌≤◌, ◌<◌, ◌≡◌, refl, sym, ap, subst, ◌∙◌, List, [], ◌∷◌,
  ◌++◌, arith, length, get_elem?, some, bit_or, ◌!=◌, if◌then◌else◌,
}
use dusty.Base.Bits.{bit_or_0x80, bit_and_0x80}
use dusty.Nghttp2.Run.{ok}
use dusty.Nghttp2.Wire.{put_uint32be}
use dusty.Nghttp2.Buf.{or_at, splice}
use dusty.Nghttp2.Buf.Store.{cut}
use dusty.Nghttp2.Bufs.{Bufs}
use dusty.Nghttp2.Bufs.Add.{pushed, pushed-IsBuf, pushed-content}
use dusty.Nghttp2.Frame.{PrioritySpec, Priority, frame_priority_init}
use dusty.Nghttp2.Frame.HeaderTrip.{store_inside}
use dusty.Nghttp2.Frame.Sent.{IsReady, put_header_lem, head_first, set_head_first, splice-cells}
use dusty.Nghttp2.Frame.Trip.{Travels, travels, assert_room, cur_ready}
use dusty.Nghttp2.Frame.Pack.{frame_pack_priority_spec, frame_pack_priority}
use dusty.Nghttp2.Frame.Unpack.{frame_unpack_priority_payload}

-- A specification that the wire carries: 31 bits of stream id, a weight of 1 to 256, one bit.
pub record IsSpec (s : PrioritySpec) : Type 0 where
  pub stream_31 : s.stream_id < 2 ^ 31
  pub weight_low : 1 ≤ s.weight
  pub weight_high : s.weight ≤ 256
  pub one_bit : s.exclusive ≤ 1

spec_bytes : PrioritySpec → List ℕ
spec_bytes s =
    (s.stream_id / 2 ^ 24 % 256 + 128 * s.exclusive)
    ∷ s.stream_id / 2 ^ 16 % 256
    ∷ s.stream_id / 2 ^ 8 % 256
    ∷ s.stream_id % 256
    ∷ (s.weight + 255) % 256
    ∷ []

get_elem?-front :
    (front : List ℕ) (x : ℕ) (rest : List ℕ) (off : ℕ)
    → length front ≡ off
    → get_elem? (front ++ x ∷ rest) off ≡ some x
get_elem?-front [] x rest zero h = refl
get_elem?-front [] x rest (suc off) h = absurd (omega arith)
get_elem?-front (y ∷ front) x rest zero h = absurd (omega arith)
get_elem?-front (y ∷ front) x rest (suc off) h = get_elem?-front front x rest off (omega arith)

-- `begin[off] |= v` on the first byte behind `front`.
or_at_front :
    (front : List ℕ) (x : ℕ) (rest : List ℕ) (off v : ℕ)
    → length front ≡ off
    → or_at (front ++ x ∷ rest) off v ≡ ok (front ++ bit_or x v ∷ rest)
unfolding or_at
or_at_front front x rest off v h =
    rw (get_elem?-front front x rest off h)
      (store_inside front (x ∷ rest) (bit_or x v ∷ []) off 0 off h (omega arith) (omega arith))

flag_step :
    (front : List ℕ) (top : ℕ) (tail : List ℕ) (off e : ℕ)
    → length front ≡ off
    → top < 128
    → e ≤ 1
    → (if e != 0 then or_at (front ++ top ∷ tail) off 0x80 else ok (front ++ top ∷ tail))
      ≡ ok (front ++ (top + 128 * e) ∷ tail)
flag_step front top tail off e h low one =
    ground (arith, or_at_front front top tail off 0x80 h, bit_or_0x80 top)

pack_spec-cells :
    (front cells back : List ℕ) (off : ℕ) (s : PrioritySpec)
    → length front ≡ off
    → length cells ≡ 5
    → IsSpec s
    → frame_pack_priority_spec (front ++ (cells ++ back)) off s
      ≡ ok (front ++ (spec_bytes s ++ back))
unfolding frame_pack_priority_spec spec_bytes
pack_spec-cells front (x0 ∷ x1 ∷ x2 ∷ x3 ∷ x4 ∷ []) back off s h n v =
    let m0 : List ℕ = x0 ∷ x1 ∷ x2 ∷ x3 ∷ x4 ∷ back in
    let word = put_uint32be s.stream_id in
    let top = s.stream_id / 2 ^ 24 % 256 in
    let tail : List ℕ =
      s.stream_id / 2 ^ 16 % 256 ∷ s.stream_id / 2 ^ 8 % 256 ∷ s.stream_id % 256 ∷ x4 ∷ back in
    rw (store_inside front m0 word off 0 off h (omega arith) (omega arith)) (
      rw (
        flag_step front top tail off s.exclusive h (omega (arith, v.stream_31)) v.one_bit,
        store_inside front ((top + 128 * s.exclusive) ∷ tail) ((s.weight + 255) % 256 ∷ []) off 4
            (off + 4) h refl (omega arith),
      ))
pack_spec-cells front cells back off s h n v = absurd (omega arith)

pack_spec-splice :
    (mem : List ℕ) (off : ℕ) (s : PrioritySpec)
    → off + 5 ≤ length mem
    → IsSpec s
    → frame_pack_priority_spec mem off s ≡ ok (splice mem off (spec_bytes s))
pack_spec-splice mem off s h v =
    let c = cut mem off 5 h in
    let five : length c.cells ≡ length (spec_bytes s) =
      c.cells_length ∙ unfold spec_bytes in refl in
    subst (λ m. frame_pack_priority_spec m off s ≡ ok (splice m off (spec_bytes s))) (sym c.whole)
      (pack_spec-cells c.front c.cells c.back off s c.front_length c.cells_length v
        ∙ ap ok (sym (splice-cells c.front c.cells c.back (spec_bytes s) off c.front_length five)))

spec_read :
    (f : Priority)
    → IsSpec f.pri_spec
    → frame_unpack_priority_payload f.hd (spec_bytes f.pri_spec) ≡ ok f
unfolding frame_unpack_priority_payload spec_bytes
spec_read f v =
    let s = f.pri_spec in
    ground (
      arith,
      v.stream_31,
      v.weight_low,
      v.weight_high,
      v.one_bit,
      bit_and_0x80 (s.stream_id / 2 ^ 24 % 256 + 128 * s.exclusive),
    )

-- A PRIORITY frame comes back from its bytes: built, packed on a ready chain and unpacked, it is
-- the frame that was built, for a stream id of 31 bits and a specification that the wire carries.
pub priority_trip :
    (b : Bufs) (stream_id : ℕ) (s : PrioritySpec)
    → IsReady b 5
    → stream_id < 2 ^ 31
    → IsSpec s
    → Travels
        (frame_pack_priority b (frame_priority_init stream_id s))
        (frame_priority_init stream_id s).hd
        frame_unpack_priority_payload
        (frame_priority_init stream_id s)
unfolding frame_pack_priority frame_priority_init
priority_trip b stream_id s r hs v =
    let f = frame_priority_init stream_id s in
    let (b1, run1, h1) = put_header_lem b f.hd 5 r in
    let bytes = spec_bytes s in
    let five : length bytes ≡ 5 = unfold spec_bytes in refl in
    let fits : b1.cur.last + length bytes ≤ length b1.cur.mem = omega (arith, five, h1.room) in
    travels f.hd frame_unpack_priority_payload f bytes
      (record { length_24 = omega arith; type_8 = omega arith; stream_31 = hs; reserved_0 = refl })
      (sym five) (spec_read f v) (record b1 { cur = pushed b1.cur bytes })
      (rw
        (
          cur_ready b 5 r,
          assert_room b r,
          run1,
          head_first b1 h1.holds.first,
          pack_spec-splice b1.cur.mem b1.cur.last s h1.room v,
          set_head_first b1 _ h1.holds.first,
        )
        (unfold spec_bytes in refl))
      (record {
        first = h1.holds.first;
        buf = pushed-IsBuf b1.cur bytes h1.holds.buf fits;
        bytes_eq =
            pushed-content b1.cur bytes h1.holds.buf fits ∙ ap (λ t. t ++ bytes) h1.holds.bytes_eq;
      })
