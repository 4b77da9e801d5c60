-- ===== src/Nghttp2/Frame/Unpack.antt =====
-- src/nghttp2/lib/nghttp2_frame.c: reading the payload of a received frame.
use dusty.Base.{
  ℕ, zero, suc, ◌+◌, ◌-◌, ◌*◌, ◌/◌, ◌%◌, ◌^◌, List, [], ◌∷◌, ltb, leb, ◌!=◌, ◌==◌, if◌then◌else◌,
  length, take, drop, get_elem?, bit_and, true,
}
use dusty.Nghttp2.Run.{
  Run, ok, err, out_of_fuel, ◌>>=◌, ◌>>◌, or_fault, guard, assert, Mem, nomem, frame_size_error,
  frame_size_error_positive,
}
use dusty.Nghttp2.Wire.{get_uint16, get_uint32}
use dusty.Nghttp2.Frame.{
  FrameHd, PrioritySpec, Priority, RstStream, SettingsEntry, Ping, Goaway, WindowUpdate, Altsvc,
  Origin, PriorityUpdate, settings_entry_length,
}

-- nghttp2_priority_spec_init; `exclusive != 0` is 0 or 1.
unfoldable pub priority_spec_init : ℕ → ℕ → ℕ → PrioritySpec
priority_spec_init stream_id weight exclusive = record {
  stream_id = stream_id;
  weight = weight;
  exclusive = if exclusive != 0 then 1 else 0;
}

unfoldable pub frame_unpack_priority_spec : List ℕ → Run PrioritySpec
unfolding get_uint32 priority_spec_init
frame_unpack_priority_spec payload = do
  word ← get_uint32 payload
  first ← or_fault (get_elem? payload 0)
  weight ← or_fault (get_elem? payload 4)
  let exclusive = if ltb 0 (bit_and first 0x80) then 1 else 0
  ok (priority_spec_init (word % 2 ^ 31) (weight + 1) exclusive)

unfoldable pub frame_unpack_priority_payload : FrameHd → List ℕ → Run Priority
unfolding frame_unpack_priority_spec
frame_unpack_priority_payload hd payload = do
  spec ← frame_unpack_priority_spec payload
  ok (record { hd = hd; pri_spec = spec })

unfoldable pub frame_unpack_rst_stream_payload : FrameHd → List ℕ → Run RstStream
unfolding get_uint32
frame_unpack_rst_stream_payload hd payload = do
  code ← get_uint32 payload
  ok (record { hd = hd; error_code = code })

unfoldable pub frame_unpack_settings_entry : List ℕ → Run SettingsEntry
unfolding get_uint16 get_uint32
frame_unpack_settings_entry payload = do
  id ← get_uint16 payload
  value ← get_uint32 (drop 2 payload)
  ok (record { settings_id = id; value = value })

-- The loop over `i`: entry `i` stands at byte `i * 6`.
unfoldable pub unpack_entries : ℕ → List ℕ → Run (List SettingsEntry)
unfolding frame_unpack_settings_entry
unpack_entries zero payload = ok []
unpack_entries (suc n) payload = do
  e ← frame_unpack_settings_entry payload
  iv ← unpack_entries n (drop settings_entry_length payload)
  ok (e ∷ iv)

abbrev settings_entry_size : ℕ
settings_entry_size = 8

unfoldable pub frame_unpack_settings_payload2 : Mem → List ℕ → Run (List SettingsEntry)
unfolding unpack_entries
frame_unpack_settings_payload2 mem payload =
    let niv = length payload / settings_entry_length in
    if niv == 0
    then ok []
    else do guard (mem.malloc (niv * settings_entry_size)) nomem; unpack_entries niv payload

-- `memcpy(frame->opaque_data, payload, 8)`
unfoldable pub frame_unpack_ping_payload : FrameHd → List ℕ → Run Ping
frame_unpack_ping_payload hd payload = do
  assert (leb 8 (length payload))
  ok (record { hd = hd; opaque_data = take 8 payload })

-- `reserved` is left as the frame has it.
unfoldable pub frame_unpack_goaway_payload2 : ℕ → Mem → FrameHd → List ℕ → Run Goaway
unfolding get_uint32
frame_unpack_goaway_payload2 reserved mem hd payload = do
  let rest = if ltb 8 (length payload) then length payload - 8 else 0
  guard (if rest == 0 then true else mem.malloc rest) nomem
  id ← get_uint32 payload
  code ← get_uint32 (drop 4 payload)
  ok (record {
    hd = hd;
    last_stream_id = id % 2 ^ 31;
    error_code = code;
    opaque_data = take rest (drop 8 payload);
    reserved = reserved;
  })

unfoldable pub frame_unpack_window_update_payload : ℕ → FrameHd → List ℕ → Run WindowUpdate
unfolding get_uint32
frame_unpack_window_update_payload reserved hd payload = do
  n ← get_uint32 payload
  ok (record { hd = hd; window_size_increment = n % 2 ^ 31; reserved = reserved })

-- `origin_len` may pass the end of the payload here: the caller has checked it.
unfoldable pub frame_unpack_altsvc_payload : FrameHd → ℕ → List ℕ → Run Altsvc
frame_unpack_altsvc_payload hd origin_len payload =
    if length payload == 0 then ok (record { hd = hd; origin = []; field_value = [] }) else do
      assert (leb origin_len (length payload))
      ok (record {
        hd = hd;
        origin = take origin_len payload;
        field_value = drop origin_len payload;
      })

-- NGHTTP2_FRAME_SIZE_ERROR, the error code of the protocol, where NGHTTP2_ERR_FRAME_SIZE_ERROR is
-- meant.
unfoldable pub frame_unpack_altsvc_payload2 : Mem → FrameHd → List ℕ → Run Altsvc
unfolding get_uint16 frame_unpack_altsvc_payload
frame_unpack_altsvc_payload2 mem hd payload =
    if ltb (length payload) 2 then err frame_size_error_positive else do
      origin_len ← get_uint16 payload
      guard (mem.malloc (length payload - 2)) nomem
      frame_unpack_altsvc_payload hd origin_len (drop 2 payload)

-- The first pass over an ORIGIN payload: how many origins that are not empty, and the bytes that
-- their copies take. Each round takes two bytes at least.
unfoldable pub origin_scan : ℕ → List ℕ → ℕ → ℕ → Run (ℕ × ℕ)
unfolding get_uint16
origin_scan fuel [] nov len = ok (nov, len)
origin_scan zero (x ∷ xs) nov len = out_of_fuel
origin_scan (suc fuel) (x ∷ xs) nov len =
    let p : List ℕ = x ∷ xs in
    let more : Run (ℕ × ℕ) = do
      n ← get_uint16 p
      let skip = origin_scan fuel (drop 2 p) nov len
      let next = origin_scan fuel (drop n (drop 2 p)) (nov + 1) (len + (n + 1))
      if n == 0 then skip else if ltb (length p - 2) n then err frame_size_error else next
    in if ltb (length p) 2 then err frame_size_error else more

-- The second pass, which copies.
unfoldable pub origin_copy : ℕ → List ℕ → Run (List (List ℕ))
unfolding get_uint16
origin_copy fuel [] = ok []
origin_copy zero (x ∷ xs) = out_of_fuel
origin_copy (suc fuel) (x ∷ xs) = do
  let p : List ℕ = x ∷ xs
  n ← get_uint16 p
  let skip = origin_copy fuel (drop 2 p)
  let next : Run (List (List ℕ)) = do
    assert (leb n (length p - 2))
    ov ← origin_copy fuel (drop n (drop 2 p))
    ok (take n (drop 2 p) ∷ ov)
  if n == 0 then skip else next

abbrev origin_entry_size : ℕ
origin_entry_size = 16

unfoldable pub frame_unpack_origin_payload : Mem → FrameHd → List ℕ → Run Origin
unfolding origin_scan origin_copy
frame_unpack_origin_payload mem hd payload = do
  (nov, len) ← origin_scan (length payload) payload 0 0
  if nov == 0 then ok (record { hd = hd; ov = [] }) else do
    guard (mem.malloc (len + nov * origin_entry_size)) nomem
    ov ← origin_copy (length payload) payload
    ok (record { hd = hd; ov = ov })

unfoldable pub frame_unpack_priority_update_payload : FrameHd → List ℕ → Run PriorityUpdate
unfolding get_uint32
frame_unpack_priority_update_payload hd payload = do
  assert (leb 4 (length payload))
  id ← get_uint32 payload
  ok (record {
    hd = hd;
    stream_id = id % 2 ^ 31;
    field_value = if ltb 4 (length payload) then drop 4 payload else [];
  })
