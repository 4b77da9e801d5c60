-- ===== src/Nghttp2/Frame/Header.antt =====
-- src/nghttp2/lib/nghttp2_frame.c: the nine bytes in front of every frame.
use dusty.Base.{ℕ, ◌+◌, ◌*◌, ◌/◌, ◌%◌, ◌^◌, List, [], ◌∷◌, drop, get_elem?}
use dusty.Nghttp2.Run.{Run, ok, ◌>>=◌, or_fault}
use dusty.Nghttp2.Wire.{put_uint32be, get_uint32}
use dusty.Nghttp2.Buf.{store}
use dusty.Nghttp2.Frame.{FrameHd}

-- Four stores at `off`; the first writes the length and a zero over the type byte, which the
-- second then sets. `(uint32_t)(hd->length << 8)` drops what does not fit.
unfoldable pub frame_pack_frame_hd : List ℕ → ℕ → FrameHd → Run (List ℕ)
unfolding store put_uint32be
frame_pack_frame_hd mem off hd = do
  m1 ← store mem off (put_uint32be (hd.length * 2 ^ 8 % 2 ^ 32))
  m2 ← store m1 (off + 3) (hd.type ∷ [])
  m3 ← store m2 (off + 4) (hd.flags ∷ [])
  store m3 (off + 5) (put_uint32be hd.stream_id)

-- `& NGHTTP2_STREAM_ID_MASK` keeps the low 31 bits.
unfoldable pub frame_unpack_frame_hd : List ℕ → Run FrameHd
unfolding get_uint32
frame_unpack_frame_hd buf = do
  word ← get_uint32 buf
  type ← or_fault (get_elem? buf 3)
  flags ← or_fault (get_elem? buf 4)
  id ← get_uint32 (drop 5 buf)
  ok (record {
    length = word / 2 ^ 8;
    stream_id = id % 2 ^ 31;
    type = type;
    flags = flags;
    reserved = 0;
  })
