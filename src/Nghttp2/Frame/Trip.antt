-- ===== src/Nghttp2/Frame/Trip.antt =====
-- A frame that is built, packed and then unpacked is the frame that was built.
use dusty.Base.{
  ℕ, ◌+◌, ◌^◌, ◌≤◌, ◌<◌, ◌≡◌, refl, sym, List, ◌++◌, arith, length, drop, length-append, some, true,
  le→leb, leb, take-all,
}
use dusty.Base.Bits.{IsU32}
use dusty.Nghttp2.Run.{Run, ok, ◌>>=◌}
use dusty.Nghttp2.Wire.{put_uint32be}
use dusty.Nghttp2.Buf.{content, avail}
use dusty.Nghttp2.Bufs.{Bufs, head_is_cur}
use dusty.Nghttp2.Frame.{FrameHd, frame_rst_stream_init, frame_window_update_init, frame_ping_init}
use dusty.Nghttp2.Frame.Header.{frame_unpack_frame_hd}
use dusty.Nghttp2.Frame.HeaderTrip.{hd_bytes, FitsWire, frame_unpack_frame_hd-hd_bytes}
use dusty.Nghttp2.Frame.Sent.{IsReady, Holds, put_header_lem, push_head_lem, head_first}
use dusty.Nghttp2.Frame.Pack.{
  frame_pack_rst_stream, frame_pack_window_update, frame_pack_ping, put_header, push_head, head,
}
use dusty.Nghttp2.Frame.Unpack.{
  frame_unpack_rst_stream_payload, frame_unpack_window_update_payload, frame_unpack_ping_payload,
}

-- The call `r` succeeds; the bytes that it leaves are a frame header that is read back as `hd`, and
-- a payload of the length that the header states, which is read back as `f`.
abbrev pub Travels : {F : Type 0} → Run Bufs → FrameHd → (FrameHd → List ℕ → Run F) → F → Type 0
Travels r hd unpack f =
    (b : Bufs) × (r ≡ ok b)
    × (frame_unpack_frame_hd (content b.cur) ≡ ok hd)
    × (length (content b.cur) ≡ 9 + hd.length)
    × (unpack hd (drop 9 (content b.cur)) ≡ ok f)

drop-hd_bytes : (hd : FrameHd) (payload : List ℕ) → drop 9 (hd_bytes hd ++ payload) ≡ payload
unfolding put_uint32be
drop-hd_bytes hd payload = refl

length-hd_bytes : (hd : FrameHd) → length (hd_bytes hd) ≡ 9
unfolding put_uint32be
length-hd_bytes hd = refl

pub travels :
    {F : Type 0} {r : Run Bufs} (hd : FrameHd) (unpack : FrameHd → List ℕ → Run F) (f : F)
    (payload : List ℕ)
    → FitsWire hd
    → hd.length ≡ length payload
    → unpack hd payload ≡ ok f
    → (b : Bufs) (run : r ≡ ok b) → Holds b (hd_bytes hd ++ payload)
    → Travels r hd unpack f
travels hd unpack f payload fits len read b run h = (
  b,
  run,
  rw h.bytes_eq (frame_unpack_frame_hd-hd_bytes hd payload fits),
  rw h.bytes_eq (omega (arith, length-append (hd_bytes hd) payload, length-hd_bytes hd)),
  rw (h.bytes_eq, drop-hd_bytes) read,
)

-- A header and one copy behind it.
pub header_then :
    (b : Bufs) (hd : FrameHd) (bs : List ℕ)
    → IsReady b (length bs)
    → (b' : Bufs) × ((put_header b hd >>= λ b1. push_head b1 bs) ≡ ok b')
      × Holds b' (hd_bytes hd ++ bs)
header_then b hd bs r =
    let (b1, run1, h1) = put_header_lem b hd (length bs) r in
    let (b2, run2, h2) =
      push_head_lem b1 (hd_bytes hd) bs 0
        (record { holds = h1.holds; room = omega (arith, h1.room) }) in
    (b2, rw run1 run2, h2.holds)

pub avail_ready : (b : Bufs) (n : ℕ) → IsReady b n → n ≤ avail (head b)
avail_ready b n r = rw (head_first b r.first) (omega (arith, r.payload_room))

pub cur_ready : (b : Bufs) (n : ℕ) → IsReady b n → head_is_cur b ≡ true
unfolding head_is_cur
cur_ready b n r = rw r.first

module _ (b : Bufs) {n : ℕ} (ready : IsReady b n) where
  pub assert_room : leb n (avail (head b)) ≡ true
  assert_room = le→leb n _ (avail_ready b n ready)

-- A RST_STREAM frame comes back from its bytes: built, packed on a ready chain and unpacked, it is
-- the frame that was built, for a stream id of 31 bits and any 32-bit error code.
pub rst_stream_trip :
    (b : Bufs) (stream_id error_code : ℕ)
    → IsReady b 4
    → stream_id < 2 ^ 31
    → IsU32 error_code
    → Travels
        (frame_pack_rst_stream b (frame_rst_stream_init stream_id error_code))
        (frame_rst_stream_init stream_id error_code).hd
        frame_unpack_rst_stream_payload
        (frame_rst_stream_init stream_id error_code)
unfolding frame_pack_rst_stream frame_unpack_rst_stream_payload frame_rst_stream_init put_uint32be
rst_stream_trip b stream_id error_code r hs he =
    let f = frame_rst_stream_init stream_id error_code in
    let (b', run, h) = header_then b f.hd (put_uint32be error_code) r in
    travels f.hd frame_unpack_rst_stream_payload f (put_uint32be error_code)
      (record { length_24 = omega arith; type_8 = omega arith; stream_31 = hs; reserved_0 = refl })
      refl (ground arith) b' (rw (cur_ready b 4 r, assert_room b r) run) h

-- A WINDOW_UPDATE frame comes back from its bytes: built, packed on a ready chain and unpacked, it
-- is the frame that was built, for a stream id and an increment of 31 bits, when the frame it is
-- unpacked into has its reserved bit 0.
pub window_update_trip :
    (b : Bufs) (flags stream_id increment : ℕ)
    → IsReady b 4
    → stream_id < 2 ^ 31
    → increment < 2 ^ 31
    → Travels
        (frame_pack_window_update b (frame_window_update_init flags stream_id increment))
        (frame_window_update_init flags stream_id increment).hd
        (frame_unpack_window_update_payload 0)
        (frame_window_update_init flags stream_id increment)
unfolding frame_pack_window_update frame_unpack_window_update_payload frame_window_update_init
    put_uint32be
window_update_trip b flags stream_id increment r hs hi =
    let f = frame_window_update_init flags stream_id increment in
    let (b', run, h) = header_then b f.hd (put_uint32be increment) r in
    travels f.hd (frame_unpack_window_update_payload 0) f (put_uint32be increment)
      (record { length_24 = omega arith; type_8 = omega arith; stream_31 = hs; reserved_0 = refl })
      refl (ground arith) b' (rw (cur_ready b 4 r, assert_room b r) run) h

-- A PING frame comes back from its bytes: built, packed on a ready chain and unpacked, it is the
-- frame that was built, for any eight bytes.
pub ping_trip :
    (b : Bufs) (flags : ℕ) (opaque_data : List ℕ)
    → IsReady b 8
    → length opaque_data ≡ 8
    → Travels
        (frame_pack_ping b (frame_ping_init flags (some opaque_data)))
        (frame_ping_init flags (some opaque_data)).hd
        frame_unpack_ping_payload
        (frame_ping_init flags (some opaque_data))
unfolding frame_pack_ping frame_unpack_ping_payload frame_ping_init
ping_trip b flags opaque_data r eight =
    let f = frame_ping_init flags (some opaque_data) in
    let (b', run, h) = header_then b f.hd opaque_data (rw eight r) in
    travels f.hd frame_unpack_ping_payload f opaque_data
      (record {
        length_24 = omega arith;
        type_8 = omega arith;
        stream_31 = omega arith;
        reserved_0 = refl;
      })
      (sym eight)
      (rw (le→leb 8 (length opaque_data) (omega arith), take-all opaque_data 8 (omega arith))) b'
      (rw (cur_ready b 8 r, assert_room b r) run) h
