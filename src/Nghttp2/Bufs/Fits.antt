-- ===== src/Nghttp2/Bufs/Fits.antt =====
-- `bufs_add` of bytes for which the current chunk has room.
use dusty.Base.{
  ℕ, suc, ◌+◌, ◌-◌, ◌≤◌, ◌≡◌, refl, sym, List, [], ◌∷◌, ◌++◌, arith, length, take-all, drop-all,
  append-nil, min,
}
use dusty.Nghttp2.Run.{ok, Mem}
use dusty.Nghttp2.Buf.{Buf, content, avail}
use dusty.Nghttp2.Bufs.{Bufs, bufs_add_loop, bufs_add, rounds}
use dusty.Nghttp2.Bufs.Add.{IsBuf, pushed, push_ok, pushed-content, pushed-IsBuf, length-pushed}

-- The current chunk after the bytes: nothing is touched if there are none.
abbrev pub added : Buf → List ℕ → Buf
added b [] = b
added b (x ∷ xs) = pushed b (x ∷ xs)

pub added-content :
    (b : Buf) (bs : List ℕ)
    → IsBuf b
    → b.last + length bs ≤ length b.mem
    → content (added b bs) ≡ content b ++ bs
added-content b [] v h = sym (append-nil (content b))
added-content b (x ∷ xs) v h = pushed-content b (x ∷ xs) v h

pub added-IsBuf :
    (b : Buf) (bs : List ℕ) → IsBuf b → b.last + length bs ≤ length b.mem → IsBuf (added b bs)
added-IsBuf b [] v h = v
added-IsBuf b (x ∷ xs) v h = pushed-IsBuf b (x ∷ xs) v h

pub added-room :
    (b : Buf) (bs : List ℕ) (n : ℕ)
    → IsBuf b
    → b.last + (length bs + n) ≤ length b.mem
    → (added b bs).last + n ≤ length (added b bs).mem
added-room b [] n v h = omega arith
added-room b (x ∷ xs) n v h = omega (arith, length-pushed b (x ∷ xs) v (omega arith))

one_round :
    (fuel : ℕ) (mem : Mem) (b : Bufs) (x : ℕ) (xs : List ℕ)
    → b.cur.last + length (x ∷ xs) ≤ length b.cur.mem
    → bufs_add_loop (suc fuel) mem b (x ∷ xs) ≡ ok (record b { cur = pushed b.cur (x ∷ xs) })
unfolding bufs_add_loop
one_round fuel mem b x xs h =
    let all : min (avail b.cur) (suc (length xs)) ≡ suc (length xs) = omega arith in
    rw
      (
        all,
        take-all xs (length xs) (omega arith),
        push_ok b.cur (x ∷ xs) h,
        drop-all xs (length xs) (omega arith),
      )
      (ground arith)

-- Bytes that fit the current chunk are copied there, and no chunk is taken.
pub bufs_add_fits :
    (mem : Mem) (b : Bufs) (bs : List ℕ)
    → b.cur.last + length bs ≤ length b.cur.mem
    → bufs_add mem b bs ≡ ok (record b { cur = added b.cur bs })
unfolding bufs_add
bufs_add_fits mem b [] h = unfold bufs_add_loop in refl
bufs_add_fits mem b (x ∷ xs) h =
    let some_left : rounds b (x ∷ xs) ≡ suc (rounds b (x ∷ xs) - 1) = omega arith in
    rw some_left (one_round (rounds b (x ∷ xs) - 1) mem b x xs h)
