-- ===== src/Nghttp2/Frame/Pack.antt =====
-- src/nghttp2/lib/nghttp2_frame.c: writing a frame to the chain of buffers. The caller has left
-- nine bytes in front of `pos` for the frame header.
use dusty.Base.{ℕ, ◌+◌, ◌%◌, ◌^◌, List, [], ◌∷◌, ◌++◌, ltb, leb, ◌!=◌, ◌==◌, if◌then◌else◌, length}
use dusty.Nghttp2.Run.{Run, ok, err, fault, ◌>>=◌, ◌>>◌, assert, Mem, Error, frame_size_error}
use dusty.Nghttp2.Wire.{put_uint16be, put_uint32be}
use dusty.Nghttp2.Buf.{Buf, len, avail, store, or_at, push, pull_back}
use dusty.Nghttp2.Bufs.{Bufs, head_is_cur, bufs_add}
use dusty.Nghttp2.Frame.{
  FrameHd, PrioritySpec, Priority, RstStream, SettingsEntry, Settings, Ping, Goaway, WindowUpdate,
  Altsvc, Origin, PriorityUpdate, frame_hdlen, priority_speclen,
}
use dusty.Nghttp2.Frame.Header.{frame_pack_frame_hd}

-- `&bufs->head->buf`
abbrev pub head : Bufs → Buf
head b = elim b.filled [ [] ↦ b.cur | x ∷ xs ↦ x ]

abbrev pub set_head : Bufs → Buf → Bufs
set_head b c = elim b.filled [ [] ↦ record b { cur = c } | x ∷ xs ↦ record b { filled = c ∷ xs } ]

-- `buf->pos -= NGHTTP2_FRAME_HDLEN; nghttp2_frame_pack_frame_hd(buf->pos, hd)`
unfoldable pub put_header : Bufs → FrameHd → Run Bufs
unfolding pull_back
put_header b hd = do
  buf ← pull_back (head b) frame_hdlen
  mem ← frame_pack_frame_hd buf.mem buf.pos hd
  ok (set_head b (record buf { mem = mem }))

-- A copy to `buf->last` of the head, which then moves on.
unfoldable pub push_head : Bufs → List ℕ → Run Bufs
push_head b bs = do buf ← push (head b) bs; ok (set_head b buf)

-- `(uint8_t)(weight - 1)` on the bit pattern of the weight.
unfoldable pub frame_pack_priority_spec : List ℕ → ℕ → PrioritySpec → Run (List ℕ)
unfolding store or_at put_uint32be
frame_pack_priority_spec mem off s = do
  m1 ← store mem off (put_uint32be s.stream_id)
  m2 ← if s.exclusive != 0 then or_at m1 off 0x80 else ok m1
  store m2 (off + 4) ((s.weight + 255) % 256 ∷ [])

unfoldable pub frame_pack_priority : Bufs → Priority → Run Bufs
unfolding put_header head_is_cur
frame_pack_priority b f = do
  assert (head_is_cur b)
  assert (leb priority_speclen (avail (head b)))
  b1 ← put_header b f.hd
  mem ← frame_pack_priority_spec (head b1).mem (head b1).last f.pri_spec
  ok (set_head b1 (record (head b1) { mem = mem; last = (head b1).last + priority_speclen }))

unfoldable pub frame_pack_rst_stream : Bufs → RstStream → Run Bufs
unfolding put_header push_head head_is_cur
frame_pack_rst_stream b f = do
  assert (head_is_cur b)
  assert (leb 4 (avail (head b)))
  b1 ← put_header b f.hd
  push_head b1 (put_uint32be f.error_code)

-- The bytes that the loop of nghttp2_frame_pack_settings_payload writes, one entry a round.
unfoldable pub frame_pack_settings_payload : List SettingsEntry → List ℕ
frame_pack_settings_payload [] = []
frame_pack_settings_payload (e ∷ iv) =
    put_uint16be (e.settings_id % 2 ^ 16)
    ++ (put_uint32be e.value ++ frame_pack_settings_payload iv)

unfoldable pub frame_pack_settings : Bufs → Settings → Run Bufs
unfolding put_header push_head head_is_cur
frame_pack_settings b f = do
  assert (head_is_cur b)
  if ltb (avail (head b)) f.hd.length
      then err frame_size_error
      else do b1 ← put_header b f.hd; push_head b1 (frame_pack_settings_payload f.iv)

unfoldable pub frame_pack_ping : Bufs → Ping → Run Bufs
unfolding put_header push_head head_is_cur
frame_pack_ping b f = do
  assert (head_is_cur b)
  assert (leb 8 (avail (head b)))
  b1 ← put_header b f.hd
  push_head b1 f.opaque_data

-- NGHTTP2_ERR_BUFFER_ERROR becomes NGHTTP2_ERR_FRAME_SIZE_ERROR.
abbrev pub as_frame_size_error : Run Bufs → Run Bufs
as_frame_size_error (Run.err Error.buffer_error) = err frame_size_error
as_frame_size_error r = r

unfoldable pub frame_pack_goaway : Mem → Bufs → Goaway → Run Bufs
unfolding put_header push_head head_is_cur
frame_pack_goaway mem b f = do
  assert (head_is_cur b)
  b1 ← put_header b f.hd
  b2 ← push_head b1 (put_uint32be f.last_stream_id)
  b3 ← push_head b2 (put_uint32be f.error_code)
  as_frame_size_error (bufs_add mem b3 f.opaque_data)

unfoldable pub frame_pack_window_update : Bufs → WindowUpdate → Run Bufs
unfolding put_header push_head head_is_cur
frame_pack_window_update b f = do
  assert (head_is_cur b)
  assert (leb 4 (avail (head b)))
  b1 ← put_header b f.hd
  push_head b1 (put_uint32be f.window_size_increment)

-- `rv = nghttp2_bufs_add(…); assert(rv == 0)`
abbrev pub must : Run Bufs → Run Bufs
must (Run.err e) = fault
must r = r

unfoldable pub frame_pack_altsvc : Mem → Bufs → Altsvc → Run Bufs
unfolding put_header push_head
frame_pack_altsvc mem b f = do
  assert (leb (2 + length f.origin + length f.field_value) (avail (head b)))
  b1 ← put_header b f.hd
  b2 ← push_head b1 (put_uint16be (length f.origin % 2 ^ 16))
  b3 ← must (bufs_add mem b2 f.origin)
  must (bufs_add mem b3 f.field_value)

-- The loop of nghttp2_frame_pack_origin.
unfoldable pub push_origins : Bufs → List (List ℕ) → Run Bufs
unfolding push_head
push_origins b [] = ok b
push_origins b (o ∷ ov) = do
  b1 ← push_head b (put_uint16be (length o % 2 ^ 16))
  b2 ← push_head b1 o
  push_origins b2 ov

unfoldable pub frame_pack_origin : Bufs → Origin → Run Bufs
unfolding put_header push_origins
frame_pack_origin b f = if ltb (avail (head b)) f.hd.length then err frame_size_error else do
  b1 ← put_header b f.hd
  b2 ← push_origins b1 f.ov
  assert (len (head b2) == frame_hdlen + f.hd.length)
  ok b2

unfoldable pub frame_pack_priority_update : Mem → Bufs → PriorityUpdate → Run Bufs
unfolding put_header push_head
frame_pack_priority_update mem b f = do
  assert (leb (4 + length f.field_value) (avail (head b)))
  b1 ← put_header b f.hd
  b2 ← push_head b1 (put_uint32be f.stream_id)
  must (bufs_add mem b2 f.field_value)
