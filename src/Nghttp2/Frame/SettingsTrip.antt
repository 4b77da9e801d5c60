-- ===== src/Nghttp2/Frame/SettingsTrip.antt =====
-- SETTINGS and GOAWAY: what is built, packed and unpacked is what was built.
use dusty.Base.{
  ℕ, suc, ◌+◌, ◌-◌, ◌*◌, ◌/◌, ◌^◌, ◌<◌, ◌≡◌, refl, sym, List, [], ◌∷◌, ◌++◌, arith, length, All,
  true, le→ltb, take-all,
}
use dusty.Base.Bits.{IsU16, IsU32}
use dusty.Nghttp2.Run.{Run, ok, ◌>>=◌, Mem}
use dusty.Nghttp2.Wire.{put_uint16be, put_uint32be}
use dusty.Nghttp2.Buf.{avail}
use dusty.Nghttp2.Bufs.{Bufs}
use dusty.Nghttp2.Frame.{FrameHd, SettingsEntry, Settings, frame_settings_init, frame_goaway_init}
use dusty.Nghttp2.Frame.Sent.{IsReady, put_header_lem, push_head_lem, bufs_add_lem, less_room}
use dusty.Nghttp2.Frame.Pack.{
  frame_pack_settings_payload, frame_pack_settings, frame_pack_goaway, head,
}
use dusty.Nghttp2.Frame.Unpack.{
  frame_unpack_settings_payload2, frame_unpack_goaway_payload2, unpack_entries,
}
use dusty.Nghttp2.Frame.Trip.{Travels, travels, header_then, avail_ready, cur_ready}

-- What fits a SETTINGS entry: 16 bits of id and 32 bits of value.
abbrev pub IsEntry : SettingsEntry → Type 0
IsEntry e = IsU16 e.settings_id × IsU32 e.value

length-settings_payload :
    (iv : List SettingsEntry) → length (frame_pack_settings_payload iv) ≡ length iv * 6
unfolding frame_pack_settings_payload put_uint16be put_uint32be
length-settings_payload [] = refl
length-settings_payload (e ∷ iv) = omega (arith, length-settings_payload iv)

unpack_entries-payload :
    (iv : List SettingsEntry)
    → All IsEntry iv
    → unpack_entries (length iv) (frame_pack_settings_payload iv) ≡ ok iv
unfolding unpack_entries frame_pack_settings_payload put_uint16be put_uint32be
unpack_entries-payload [] h = refl
unpack_entries-payload (e ∷ iv) h =
    rw (unpack_entries-payload iv h.1) (ground (arith, h.0.0, h.0.1))

settings_read :
    (mem : Mem) (iv : List SettingsEntry)
    → All IsEntry iv
    → mem.malloc (length iv * 8) ≡ true
    → frame_unpack_settings_payload2 mem (frame_pack_settings_payload iv) ≡ ok iv
unfolding frame_unpack_settings_payload2
settings_read mem [] h m = unfold frame_pack_settings_payload in refl
settings_read mem (e ∷ iv) h m =
    let n : length (frame_pack_settings_payload (e ∷ iv)) / 6 ≡ suc (length iv) =
      omega (arith, length-settings_payload (e ∷ iv)) in
    rw n (rw m (ground (arith, unpack_entries-payload (e ∷ iv) h)))

-- The payload of a SETTINGS frame as a frame with its header.
abbrev pub unpack_settings : Mem → FrameHd → List ℕ → Run Settings
unpack_settings mem hd payload = do
  iv ← frame_unpack_settings_payload2 mem payload
  ok (record { hd = hd; iv = iv })

-- A SETTINGS frame comes back from its bytes: built, packed on a ready chain and unpacked, header
-- and payload, it is the frame that was built, for entries of 16 bits of id and 32 of value that
-- fit a frame, when the receiver's allocator grants the entries.
pub settings_trip :
    (b : Bufs) (mem : Mem) (flags : ℕ) (iv : List SettingsEntry)
    → IsReady b (length iv * 6)
    → length iv * 6 < 2 ^ 24
    → All IsEntry iv
    → mem.malloc (length iv * 8) ≡ true
    → Travels
        (frame_pack_settings b (frame_settings_init flags iv))
        (frame_settings_init flags iv).hd
        (unpack_settings mem)
        (frame_settings_init flags iv)
unfolding frame_pack_settings frame_settings_init
settings_trip b mem flags iv r small h m =
    let f = frame_settings_init flags iv in
    let payload = frame_pack_settings_payload iv in
    let len = length-settings_payload iv in
    let (b', run, held) = header_then b f.hd payload (rw len r) in
    travels f.hd (unpack_settings mem) f payload
      (record {
        length_24 = small;
        type_8 = omega arith;
        stream_31 = omega arith;
        reserved_0 = refl;
      })
      (sym len) (rw (settings_read mem iv h m)) b'
      (rw (cur_ready b _ r, le→ltb _ (avail (head b)) (avail_ready b _ r)) run) held

goaway_payload : ℕ → ℕ → List ℕ → List ℕ
unfolding put_uint32be
goaway_payload id code data_bytes = (put_uint32be id ++ put_uint32be code) ++ data_bytes

goaway_read :
    (mem : Mem) (hd : FrameHd) (id code : ℕ) (bytes : List ℕ)
    → id < 2 ^ 31
    → IsU32 code
    → mem.malloc (length bytes) ≡ true
    → frame_unpack_goaway_payload2 0 mem hd (goaway_payload id code bytes)
      ≡ ok (record {
        hd = hd;
        last_stream_id = id;
        error_code = code;
        opaque_data = bytes;
        reserved = 0;
      })
unfolding frame_unpack_goaway_payload2 goaway_payload
goaway_read mem hd id code [] hi hc m = ground arith
goaway_read mem hd id code (x ∷ xs) hi hc m =
    let n : length (goaway_payload id code (x ∷ xs)) - 8 ≡ suc (length xs) = omega arith in
    ground (arith, n, take-all xs (length xs) (omega arith))

-- A GOAWAY frame comes back from its bytes: built, packed on a ready chain and unpacked, it is the
-- frame that was built, for a stream id of 31 bits, any error code, and debug data that fits the
-- chunk, when the receiver's allocator grants the copy of the data and the frame it unpacks into
-- has its reserved bits 0.
pub goaway_trip :
    (b : Bufs) (mem their : Mem) (id code : ℕ) (bytes : List ℕ)
    → IsReady b (8 + length bytes)
    → 8 + length bytes < 2 ^ 24
    → id < 2 ^ 31
    → IsU32 code
    → their.malloc (length bytes) ≡ true
    → Travels
        (frame_pack_goaway mem b (frame_goaway_init id code bytes))
        (frame_goaway_init id code bytes).hd
        (frame_unpack_goaway_payload2 0 their)
        (frame_goaway_init id code bytes)
unfolding frame_pack_goaway frame_goaway_init
goaway_trip b mem their id code bytes r small hi hc m =
    let f = frame_goaway_init id code bytes in
    let (b1, run1, h1) = put_header_lem b f.hd (8 + length bytes) r in
    let (b2, run2, h2) =
      push_head_lem b1 _ (put_uint32be id) (4 + length bytes)
        (less_room h1 (unfold put_uint32be in omega arith)) in
    let (b3, run3, h3) =
      push_head_lem b2 _ (put_uint32be code) (length bytes)
        (less_room h2 (unfold put_uint32be in omega arith)) in
    let (b4, run4, h4) = bufs_add_lem mem b3 _ bytes 0 (less_room h3 (omega arith)) in
    travels f.hd (frame_unpack_goaway_payload2 0 their) f (goaway_payload id code bytes)
      (record {
        length_24 = small;
        type_8 = omega arith;
        stream_31 = omega arith;
        reserved_0 = refl;
      })
      (unfold goaway_payload in omega arith) (goaway_read their f.hd id code bytes hi hc m) b4
      (rw (cur_ready b _ r, run1, run2, run3, run4)) (unfold goaway_payload in h4.holds)
