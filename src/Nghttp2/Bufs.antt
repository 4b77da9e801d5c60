-- ===== src/Nghttp2/Bufs.antt =====
-- src/nghttp2/lib/nghttp2_buf.c: the chain of buffers that a frame is written to. The chain is kept
-- as the buffers before `cur`, `cur` itself and those behind it.
pub mod Add
pub mod Fits
use dusty.Base.{
  ℕ, zero, suc, ◌+◌, ◌-◌, ◌==◌, List, [], ◌∷◌, ◌++◌, Bool, true, false, ◌&&◌, if◌then◌else◌, length,
  take, drop, replicate, min,
}
use dusty.Nghttp2.Run.{
  Run, ok, err, fault, out_of_fuel, ◌>>=◌, ◌>>◌, Mem, guard, nomem, buffer_error,
}
use dusty.Nghttp2.Buf.{Buf, len, avail, content, push}

pub record Bufs : Type 0 where
  pub filled : List Buf
  pub cur : Buf
  pub later : List Buf
  pub chunk_length : ℕ
  pub max_chunk : ℕ
  pub chunk_used : ℕ
  pub chunk_keep : ℕ
  pub offset : ℕ

-- `bufs->head == bufs->cur`
unfoldable pub head_is_cur : Bufs → Bool
head_is_cur b = elim b.filled [ [] ↦ true | _ ∷ _ ↦ false ]

abbrev chain_size : ℕ
chain_size = 48

-- A new chunk: nghttp2_buf_reserve asks for memory only if the wanted capacity is not 0.
-- The bytes of fresh memory are arbitrary in C; they are zeros here and are never read.
unfoldable pub buf_chain_new : Mem → ℕ → Run Buf
buf_chain_new mem chunk_length = do
  guard (mem.malloc chain_size) nomem
  guard (if chunk_length == 0 then true else mem.realloc chunk_length) nomem
  ok (record { mem = replicate chunk_length 0; pos = 0; last = 0; mark = 0 })

-- `nghttp2_buf_shift_right`
abbrev pub shift_right : Buf → ℕ → Buf
shift_right b amt = record b { pos = b.pos + amt; last = b.last + amt }

alloc_fresh : Mem → Bufs → Run Bufs
unfolding buf_chain_new
alloc_fresh mem b = if b.max_chunk == b.chunk_used then err buffer_error else do
  chain ← buf_chain_new mem b.chunk_length
  ok (record b {
    filled = b.filled ++ b.cur ∷ [];
    cur = shift_right chain b.offset;
    chunk_used = b.chunk_used + 1;
  })

alloc_next : Mem → Bufs → List Buf → Run Bufs
unfolding alloc_fresh
alloc_next mem b [] = alloc_fresh mem b
alloc_next mem b (n ∷ ns) = ok (record b { filled = b.filled ++ b.cur ∷ []; cur = n; later = ns })

unfoldable pub bufs_alloc_chain : Mem → Bufs → Run Bufs
unfolding alloc_next
bufs_alloc_chain mem b = alloc_next mem b b.later

-- The `while (len)` loop: a round copies what fits, or goes on to the next chunk.
pub bufs_add_loop : ℕ → Mem → Bufs → List ℕ → Run Bufs
unfolding bufs_alloc_chain push
bufs_add_loop fuel mem b [] = ok b
bufs_add_loop zero mem b (x ∷ xs) = out_of_fuel
bufs_add_loop (suc fuel) mem b (x ∷ xs) =
    let bs : List ℕ = x ∷ xs in
    let nwrite = min (avail b.cur) (length bs) in
    let next : Run Bufs = do b' ← bufs_alloc_chain mem b; bufs_add_loop fuel mem b' bs
    in let copy : Run Bufs = do
      cur ← push b.cur (take nwrite bs)
      bufs_add_loop fuel mem (record b { cur = cur }) (drop nwrite bs)
      in if nwrite == 0 then next else copy

-- Each round writes a byte or takes a chunk, and both are bounded.
abbrev pub rounds : Bufs → List ℕ → ℕ
rounds b bs = length bs + (b.max_chunk - b.chunk_used) + length b.later

pub bufs_add : Mem → Bufs → List ℕ → Run Bufs
unfolding bufs_add_loop
bufs_add mem b bs = bufs_add_loop (rounds b bs) mem b bs
