-- ===== src/Nghttp2/Buf.antt =====
-- src/nghttp2/lib/nghttp2_buf.h: one buffer, as the bytes from `begin` to `end` and three offsets
-- into them. A store that would leave the object is a fault.
pub mod Store
use dusty.Base.{
  ℕ, ◌+◌, ◌-◌, ◌≤◌, ◌≡◌, List, [], ◌∷◌, ◌++◌, Bool, leb, if◌then◌else◌, length, take, drop,
  get_elem?, bit_or,
}
use dusty.Nghttp2.Run.{Run, ok, fault, ◌>>=◌, ◌>>◌, assert, or_fault}

pub record Buf : Type 0 where
  pub mem : List ℕ
  pub pos : ℕ
  pub last : ℕ
  pub mark : ℕ

abbrev pub len : Buf → ℕ
len b = b.last - b.pos

abbrev pub avail : Buf → ℕ
avail b = length b.mem - b.last

-- The bytes of `mem` with `bs` in place of those from `off` on.
abbrev pub splice : List ℕ → ℕ → List ℕ → List ℕ
splice mem off bs = take off mem ++ (bs ++ drop (off + length bs) mem)

-- `memcpy(begin + off, bs, length bs)`
unfoldable pub store : List ℕ → ℕ → List ℕ → Run (List ℕ)
store mem off bs = if leb (off + length bs) (length mem) then ok (splice mem off bs) else fault

-- `begin[off] |= v`
unfoldable pub or_at : List ℕ → ℕ → ℕ → Run (List ℕ)
unfolding store
or_at mem off v = do b ← or_fault (get_elem? mem off); store mem off (bit_or b v ∷ [])

-- The bytes between `pos` and `last`.
abbrev pub content : Buf → List ℕ
content b = take (b.last - b.pos) (drop b.pos b.mem)

-- `buf->last = nghttp2_cpymem(buf->last, bs, length bs)`
unfoldable pub push : Buf → List ℕ → Run Buf
unfolding store
push b bs = do mem ← store b.mem b.last bs; ok (record b { mem = mem; last = b.last + length bs })

-- `buf->pos -= n`
unfoldable pub pull_back : Buf → ℕ → Run Buf
pull_back b n = do assert (leb n b.pos); ok (record b { pos = b.pos - n })
