-- ===== src/Nghttp2/Frame/ExtensionTrip.antt =====
-- ALTSVC and PRIORITY_UPDATE: what is built, packed and unpacked is what was built.
use dusty.Base.{
  ℕ, ◌+◌, ◌%◌, ◌^◌, ◌<◌, ◌≡◌, refl, List, [], ◌∷◌, ◌++◌, arith, length, length-append, true,
  take-append, drop-append,
}
use dusty.Base.Bits.{IsU16}
use dusty.Nghttp2.Run.{ok, Mem}
use dusty.Nghttp2.Wire.{put_uint16be, put_uint32be}
use dusty.Nghttp2.Bufs.{Bufs}
use dusty.Nghttp2.Frame.{FrameHd, frame_altsvc_init, frame_priority_update_init}
use dusty.Nghttp2.Frame.Sent.{IsReady, put_header_lem, push_head_lem, bufs_add_lem, less_room}
use dusty.Nghttp2.Frame.Trip.{Travels, travels, assert_room}
use dusty.Nghttp2.Frame.Pack.{frame_pack_altsvc, frame_pack_priority_update}
use dusty.Nghttp2.Frame.Unpack.{
  frame_unpack_altsvc_payload, frame_unpack_altsvc_payload2, frame_unpack_priority_update_payload,
}

priority_update_read :
    (hd : FrameHd) (id : ℕ) (value : List ℕ)
    → id < 2 ^ 31
    → frame_unpack_priority_update_payload hd (put_uint32be id ++ value)
      ≡ ok (record { hd = hd; stream_id = id; field_value = value })
unfolding frame_unpack_priority_update_payload put_uint32be
priority_update_read hd id [] h = ground arith
priority_update_read hd id (x ∷ xs) h = ground arith

-- A PRIORITY_UPDATE frame comes back from its bytes: built, packed on a ready chain and unpacked,
-- it is the frame that was built, for a stream id of 31 bits and a field value that fits the chunk.
pub priority_update_trip :
    (b : Bufs) (mem : Mem) (id : ℕ) (value : List ℕ)
    → IsReady b (4 + length value)
    → 4 + length value < 2 ^ 24
    → id < 2 ^ 31
    → Travels
        (frame_pack_priority_update mem b (frame_priority_update_init id value))
        (frame_priority_update_init id value).hd
        frame_unpack_priority_update_payload
        (frame_priority_update_init id value)
unfolding frame_pack_priority_update frame_priority_update_init
priority_update_trip b mem id value r small hi =
    let f = frame_priority_update_init id value in
    let (b1, run1, h1) = put_header_lem b f.hd (4 + length value) r in
    let (b2, run2, h2) =
      push_head_lem b1 _ (put_uint32be id) (length value)
        (less_room h1 (unfold put_uint32be in omega arith)) in
    let (b3, run3, h3) = bufs_add_lem mem b2 _ value 0 (less_room h2 (omega arith)) in
    travels f.hd frame_unpack_priority_update_payload f (put_uint32be id ++ value)
      (record {
        length_24 = small;
        type_8 = omega arith;
        stream_31 = omega arith;
        reserved_0 = refl;
      })
      (unfold put_uint32be in omega arith) (priority_update_read f.hd id value hi) b3
      (rw (assert_room b r, run1, run2, run3)) (unfold put_uint32be in h3.holds)

altsvc_read :
    (mem : Mem) (hd : FrameHd) (origin value : List ℕ)
    → IsU16 (length origin)
    → mem.malloc (length origin + length value) ≡ true
    → frame_unpack_altsvc_payload2 mem hd
        ((put_uint16be (length origin % 2 ^ 16) ++ origin) ++ value)
      ≡ ok (record { hd = hd; origin = origin; field_value = value })
unfolding frame_unpack_altsvc_payload2 put_uint16be frame_unpack_altsvc_payload
altsvc_read mem hd [] [] h m = ground arith
altsvc_read mem hd [] (x ∷ xs) h m = ground arith
altsvc_read mem hd (o ∷ os) value h m = ground (
  arith,
  length-append os value,
  take-append (o ∷ os) value (length (o ∷ os)) refl,
  drop-append (o ∷ os) value (length (o ∷ os)) refl,
)

-- An ALTSVC frame comes back from its bytes: built, packed on a ready chain and unpacked, it is the
-- frame that was built, for an origin of 16 bits of length, when the receiver's allocator grants
-- the copy.
pub altsvc_trip :
    (b : Bufs) (mem their : Mem) (stream_id : ℕ) (origin value : List ℕ)
    → IsReady b (2 + length origin + length value)
    → 2 + length origin + length value < 2 ^ 24
    → stream_id < 2 ^ 31
    → IsU16 (length origin)
    → their.malloc (length origin + length value) ≡ true
    → Travels
        (frame_pack_altsvc mem b (frame_altsvc_init stream_id origin value))
        (frame_altsvc_init stream_id origin value).hd
        (frame_unpack_altsvc_payload2 their)
        (frame_altsvc_init stream_id origin value)
unfolding frame_pack_altsvc frame_altsvc_init
altsvc_trip b mem their stream_id origin value r small hs ho m =
    let f = frame_altsvc_init stream_id origin value in
    let l = put_uint16be (length origin % 2 ^ 16) in
    let (b1, run1, h1) = put_header_lem b f.hd (2 + length origin + length value) r in
    let (b2, run2, h2) =
      push_head_lem b1 _ l (length origin + length value)
        (less_room h1 (unfold put_uint16be in omega arith)) in
    let (b3, run3, h3) = bufs_add_lem mem b2 _ origin (length value) (less_room h2 (omega arith)) in
    let (b4, run4, h4) = bufs_add_lem mem b3 _ value 0 (less_room h3 (omega arith)) in
    travels f.hd (frame_unpack_altsvc_payload2 their) f ((l ++ origin) ++ value)
      (record { length_24 = small; type_8 = omega arith; stream_31 = hs; reserved_0 = refl })
      (unfold put_uint16be in omega (arith, length-append origin value))
      (altsvc_read their f.hd origin value ho m) b4
      (rw (assert_room b r, run1, run2, run3) (rw run4))
      (unfold put_uint16be put_uint32be in h4.holds)
