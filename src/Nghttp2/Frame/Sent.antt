-- ===== src/Nghttp2/Frame/Sent.antt =====
-- What a pack function does to a chain whose only chunk in use is empty.
use dusty.Base.{
  ℕ, ◌+◌, ◌-◌, ◌≤◌, ◌≡◌, refl, sym, ap, subst, ◌∙◌, List, [], ◌++◌, arith, length, drop-append,
  le→leb,
}
use dusty.Nghttp2.Run.{Run, ok, Mem}
use dusty.Nghttp2.Wire.{put_uint32be}
use dusty.Nghttp2.Buf.{Buf, content, splice, pull_back}
use dusty.Nghttp2.Buf.Store.{cut, splice-append}
use dusty.Nghttp2.Bufs.{Bufs, bufs_add}
use dusty.Nghttp2.Bufs.Add.{IsBuf, pushed, push_ok, pushed-IsBuf, pushed-content, length-pushed}
use dusty.Nghttp2.Bufs.Fits.{added, added-IsBuf, added-content, added-room, bufs_add_fits}
use dusty.Nghttp2.Frame.{FrameHd}
use dusty.Nghttp2.Frame.Header.{frame_pack_frame_hd}
use dusty.Nghttp2.Frame.HeaderTrip.{hd_bytes, frame_pack_frame_hd-cells}
use dusty.Nghttp2.Frame.Pack.{head, set_head, put_header, push_head}

-- The state in which the session hands a chain to a pack function: one chunk, no bytes in it, room
-- for the frame header in front of `pos` and for `n` bytes behind it.
pub record IsReady (b : Bufs) (n : ℕ) : Type 0 where
  pub first : b.filled ≡ []
  pub empty : b.cur.pos ≡ b.cur.last
  pub header_room : 9 ≤ b.cur.pos
  pub payload_room : b.cur.last + n ≤ length b.cur.mem

-- The first chunk holds exactly these bytes.
pub record Holds (b : Bufs) (bytes : List ℕ) : Type 0 where
  pub first : b.filled ≡ []
  pub buf : IsBuf b.cur
  pub bytes_eq : content b.cur ≡ bytes

-- The call succeeds, and the chain holds `bytes`.
pub data Sent (bytes : List ℕ) : Run Bufs → Type 0 where
  sent : {b : Bufs} → Holds b bytes → Sent bytes (ok b)

pub splice-cells :
    (front cells back bs : List ℕ) (off : ℕ)
    → length front ≡ off
    → length cells ≡ length bs
    → splice (front ++ (cells ++ back)) off bs ≡ front ++ (bs ++ back)
splice-cells front cells back bs off h n =
    splice-append front (cells ++ back) bs off 0 off h (omega arith)
    ∙ ap (λ t. front ++ (bs ++ t)) (drop-append cells back (0 + length bs) (omega arith))

pub frame_pack_frame_hd-splice :
    (mem : List ℕ) (off : ℕ) (hd : FrameHd)
    → off + 9 ≤ length mem
    → frame_pack_frame_hd mem off hd ≡ ok (splice mem off (hd_bytes hd))
frame_pack_frame_hd-splice mem off hd h =
    let c = cut mem off 9 h in
    let nine : length c.cells ≡ length (hd_bytes hd) =
      c.cells_length ∙ unfold put_uint32be in refl in
    subst (λ m. frame_pack_frame_hd m off hd ≡ ok (splice m off (hd_bytes hd))) (sym c.whole)
      (frame_pack_frame_hd-cells c.front c.cells c.back off hd c.front_length c.cells_length
        ∙ ap ok (sym (splice-cells c.front c.cells c.back (hd_bytes hd) off c.front_length nine)))

-- A chain with the frame header in it and `n` bytes of room behind it.
pub record IsHeaded (b : Bufs) (bytes : List ℕ) (n : ℕ) : Type 0 where
  pub holds : Holds b bytes
  pub room : b.cur.last + n ≤ length b.cur.mem

pub head_first : (b : Bufs) → b.filled ≡ [] → head b ≡ b.cur
head_first b e = ground arith

pub set_head_first : (b : Bufs) (c : Buf) → b.filled ≡ [] → set_head b c ≡ record b { cur = c }
set_head_first b c e = ground arith

-- The buffer with `pos` and `last` at the place of the frame header.
abbrev header_gap : Buf → Buf
header_gap c = record c { pos = c.pos - 9; last = c.pos - 9 }

put_header_run :
    (b : Bufs) (hd : FrameHd) (n : ℕ)
    → IsReady b n
    → put_header b hd ≡ ok (record b { cur = pushed (header_gap b.cur) (hd_bytes hd) })
unfolding put_header pull_back
put_header_run b hd n r =
    rw
      (
        head_first b r.first,
        le→leb 9 b.cur.pos r.header_room,
        frame_pack_frame_hd-splice b.cur.mem (b.cur.pos - 9) hd
            (omega (arith, r.empty, r.payload_room, r.header_room)),
        set_head_first b _ r.first,
      )
      (ap
        (λ (l : ℕ). ok (record b {
          cur = record b.cur {
            mem = splice b.cur.mem (b.cur.pos - 9) (hd_bytes hd);
            pos = b.cur.pos - 9;
            last = l;
          };
        }))
        (unfold put_uint32be in omega (arith, r.empty, r.header_room)))

pub less_room :
    {b : Bufs} {bytes : List ℕ} {n m : ℕ} → IsHeaded b bytes n → m ≤ n → IsHeaded b bytes m
less_room h le = record { holds = h.holds; room = omega (arith, h.room) }

pub put_header_lem :
    (b : Bufs) (hd : FrameHd) (n : ℕ)
    → IsReady b n
    → (b' : Bufs) × (put_header b hd ≡ ok b') × IsHeaded b' (hd_bytes hd) n
put_header_lem b hd n r =
    let c = header_gap b.cur in
    let v : IsBuf c = record {
      ordered = omega arith;
      inside = omega (arith, r.empty, r.payload_room);
    } in
    let nine : length (hd_bytes hd) ≡ 9 = unfold put_uint32be in refl in
    let fits : c.last + length (hd_bytes hd) ≤ length c.mem =
      omega (arith, r.empty, r.payload_room, r.header_room) in
    let none_yet : content c ≡ [] = let e : c.last - c.pos ≡ 0 = omega arith in rw e in
    (
      record b { cur = pushed c (hd_bytes hd) },
      put_header_run b hd n r,
      record {
        holds = record {
          first = r.first;
          buf = pushed-IsBuf c (hd_bytes hd) v fits;
          bytes_eq = pushed-content c (hd_bytes hd) v fits ∙ ap (λ t. t ++ hd_bytes hd) none_yet;
        };
        room =
            omega
              (arith, length-pushed c (hd_bytes hd) v fits, r.empty, r.payload_room, r.header_room);
      },
    )

pub push_head_lem :
    (b : Bufs) (bytes bs : List ℕ) (n : ℕ)
    → IsHeaded b bytes (length bs + n)
    → (b' : Bufs) × (push_head b bs ≡ ok b') × IsHeaded b' (bytes ++ bs) n
unfolding push_head
push_head_lem b bytes bs n r =
    let fits : b.cur.last + length bs ≤ length b.cur.mem = omega (arith, r.room) in
    let v = r.holds.buf in
    (
      record b { cur = pushed b.cur bs },
      rw (head_first b r.holds.first, push_ok b.cur bs fits, set_head_first b _ r.holds.first),
      record {
        holds = record {
          first = r.holds.first;
          buf = pushed-IsBuf b.cur bs v fits;
          bytes_eq = pushed-content b.cur bs v fits ∙ ap (λ t. t ++ bs) r.holds.bytes_eq;
        };
        room = omega (arith, length-pushed b.cur bs v fits, r.room);
      },
    )

-- Adding to the current chunk where the bytes fit.
pub bufs_add_lem :
    (mem : Mem) (b : Bufs) (bytes bs : List ℕ) (n : ℕ)
    → IsHeaded b bytes (length bs + n)
    → (b' : Bufs) × (bufs_add mem b bs ≡ ok b') × IsHeaded b' (bytes ++ bs) n
bufs_add_lem mem b bytes bs n r =
    let fits : b.cur.last + length bs ≤ length b.cur.mem = omega (arith, r.room) in
    let v = r.holds.buf in
    (
      record b { cur = added b.cur bs },
      bufs_add_fits mem b bs fits,
      record {
        holds = record {
          first = r.holds.first;
          buf = added-IsBuf b.cur bs v fits;
          bytes_eq = added-content b.cur bs v fits ∙ ap (λ t. t ++ bs) r.holds.bytes_eq;
        };
        room = added-room b.cur bs n v r.room;
      },
    )
