-- ===== src/Nghttp2/Frame/HeaderTrip.antt =====
-- The frame header that is packed is the one that is unpacked.
use dusty.Base.{
  ℕ, ◌+◌, ◌*◌, ◌/◌, ◌%◌, ◌^◌, ◌≤◌, ◌<◌, ◌≡◌, refl, ap, ◌∙◌, List, [], ◌∷◌, ◌++◌, arith, length,
  length-append,
}
use dusty.Nghttp2.Run.{ok}
use dusty.Nghttp2.Wire.{put_uint32be}
use dusty.Nghttp2.Buf.{store, splice}
use dusty.Nghttp2.Buf.Store.{store_ok, splice-append}
use dusty.Nghttp2.Frame.{FrameHd}
use dusty.Nghttp2.Frame.Header.{frame_pack_frame_hd, frame_unpack_frame_hd}

-- The wire form: 24 bits of length, the type, the flags, and 32 bits of stream id.
abbrev pub hd_bytes : FrameHd → List ℕ
hd_bytes hd =
    hd.length / 2 ^ 16 % 256
    ∷ hd.length / 2 ^ 8 % 256
    ∷ hd.length % 256
    ∷ hd.type
    ∷ hd.flags
    ∷ put_uint32be hd.stream_id

-- What fits the wire form: the source's callers keep to these ranges.
pub record FitsWire (hd : FrameHd) : Type 0 where
  pub length_24 : hd.length < 2 ^ 24
  pub type_8 : hd.type < 256
  pub stream_31 : hd.stream_id < 2 ^ 31
  pub reserved_0 : hd.reserved ≡ 0

-- A store inside the second piece.
pub store_inside :
    (front mem bs : List ℕ) (off k p : ℕ)
    → length front ≡ off
    → p ≡ off + k
    → k + length bs ≤ length mem
    → store (front ++ mem) p bs ≡ ok (front ++ splice mem k bs)
store_inside front mem bs off k p h e f =
    store_ok (front ++ mem) p bs (omega (arith, length-append front mem))
    ∙ ap ok (splice-append front mem bs off k p h e)

pub frame_pack_frame_hd-cells :
    (front cells back : List ℕ) (off : ℕ) (hd : FrameHd)
    → length front ≡ off
    → length cells ≡ 9
    → frame_pack_frame_hd (front ++ (cells ++ back)) off hd ≡ ok (front ++ (hd_bytes hd ++ back))
unfolding frame_pack_frame_hd
frame_pack_frame_hd-cells front (x0 ∷ x1 ∷ x2 ∷ x3 ∷ x4 ∷ x5 ∷ x6 ∷ x7 ∷ x8 ∷ []) back off hd h n =
    let word = put_uint32be (hd.length * 2 ^ 8 % 2 ^ 32) in
    let m0 : List ℕ = x0 ∷ x1 ∷ x2 ∷ x3 ∷ x4 ∷ x5 ∷ x6 ∷ x7 ∷ x8 ∷ back in
    let m1 = splice m0 0 word in
    let m2 = splice m1 3 (hd.type ∷ []) in
    let m3 = splice m2 4 (hd.flags ∷ []) in
    rw
      (
        store_inside front m0 word off 0 off h (omega arith) (omega arith),
        store_inside front m1 (hd.type ∷ []) off 3 (off + 3) h refl (omega arith),
        store_inside front m2 (hd.flags ∷ []) off 4 (off + 4) h refl (omega arith),
        store_inside front m3 (put_uint32be hd.stream_id) off 5 (off + 5) h refl (omega arith),
      )
      (ground arith)
frame_pack_frame_hd-cells front cells back off hd h n = absurd (omega arith)

-- The wire form is read back, whatever follows it.
pub frame_unpack_frame_hd-hd_bytes :
    (hd : FrameHd) (rest : List ℕ)
    → FitsWire hd
    → frame_unpack_frame_hd (hd_bytes hd ++ rest) ≡ ok hd
unfolding frame_unpack_frame_hd put_uint32be
frame_unpack_frame_hd-hd_bytes hd rest fits = ground arith
