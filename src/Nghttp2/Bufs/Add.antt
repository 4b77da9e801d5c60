-- ===== src/Nghttp2/Bufs/Add.antt =====
-- `bufs_add` appends its bytes to what the chain holds.
use dusty.Base.{
  ℕ, zero, suc, ◌+◌, ◌-◌, ◌≤◌, ◌<◌, ◌≡◌, ◌⊎◌, refl, List, [], ◌∷◌, ◌++◌, arith, length, take, drop,
  append-nil, append_assoc, All, ◌∙◌, sym, ap, ◌≡⟨◌⟩◌, ◌∎, length-append, length-take, length-drop,
  take-append-drop, take-append, min, replicate, length-replicate, drop-append_le, drop-take, ◌==◌,
  Bool-cases, inl, inr,
}
use dusty.Nghttp2.Run.{Run, ok, err, ◌>>=◌, Error, Mem, nomem, buffer_error}
use dusty.Nghttp2.Buf.{Buf, content, avail, push, store, splice}
use dusty.Nghttp2.Bufs.{
  Bufs, shift_right, buf_chain_new, alloc_fresh, alloc_next, bufs_alloc_chain, bufs_add_loop,
  bufs_add, rounds,
}

-- The offsets of a buffer are in order and inside its memory.
pub record IsBuf (b : Buf) : Type 0 where
  pub ordered : b.pos ≤ b.last
  pub inside : b.last ≤ length b.mem

abbrev pub IsEmpty : Buf → Type 0
IsEmpty b = b.pos ≡ b.last

-- The state that the writers keep: only `cur` and what is before it hold bytes.
pub record IsBufs (b : Bufs) : Type 0 where
  pub current : IsBuf b.cur
  pub behind : All (λ c. IsBuf c × IsEmpty c) b.later
  pub used : b.chunk_used ≤ b.max_chunk
  pub fits : b.offset ≤ b.chunk_length

abbrev pub contents : List Buf → List ℕ
contents [] = []
contents (b ∷ bs) = content b ++ contents bs

-- All that has been written to the chain.
abbrev pub written : Bufs → List ℕ
written b = contents b.filled ++ content b.cur

pub contents-append : (xs ys : List Buf) → contents (xs ++ ys) ≡ contents xs ++ contents ys
contents-append [] ys = refl
contents-append (x ∷ xs) ys = rw (contents-append xs ys, append_assoc)

pub length-content : (b : Buf) → IsBuf b → length (content b) ≡ b.last - b.pos
length-content b v =
    omega (arith, length-take (b.last - b.pos) (drop b.pos b.mem), length-drop b.pos b.mem)

-- What `push` leaves behind when the bytes fit.
abbrev pub pushed : Buf → List ℕ → Buf
pushed b bs = record b { mem = splice b.mem b.last bs; last = b.last + length bs }

pub push_ok :
    (b : Buf) (bs : List ℕ) → b.last + length bs ≤ length b.mem → push b bs ≡ ok (pushed b bs)
unfolding push store
push_ok b bs h = ground arith

module _ (b : Buf) (bs : List ℕ) (v : IsBuf b) (h : b.last + length bs ≤ length b.mem) where
  pub length-pushed : length (pushed b bs).mem ≡ length b.mem
  length-pushed = omega (
    arith,
    v.ordered,
    length-append (take b.last b.mem) (bs ++ drop (b.last + length bs) b.mem),
    length-append bs (drop (b.last + length bs) b.mem),
    length-take b.last b.mem,
    length-drop (b.last + length bs) b.mem,
  )

  pub pushed-IsBuf : IsBuf (pushed b bs)
  pushed-IsBuf = record {
    ordered = omega (arith, v.ordered);
    inside = omega (arith, length-pushed);
  }

  pub pushed-content : content (pushed b bs) ≡ content b ++ bs
  pushed-content =
      content (pushed b bs)
      ≡⟨ ap (take n) (
          drop-append_le b.pos (take b.last b.mem) _
            (omega (arith, v.ordered, length-take b.last b.mem))) ⟩
        take n (drop b.pos (take b.last b.mem) ++ (bs ++ rest))
      ≡⟨ ap (λ f. take n (f ++ (bs ++ rest))) (drop-take b.pos b.last b.mem) ⟩
        take n (content b ++ (bs ++ rest))
      ≡⟨ ap (take n) (sym (append_assoc (content b) bs rest)) ⟩ take n ((content b ++ bs) ++ rest)
      ≡⟨ take-append (content b ++ bs) rest n
          (omega (arith, v.ordered, length-append (content b) bs, length-content b v)) ⟩
        content b ++ bs ∎
    where
      n : ℕ
      n = b.last + length bs - b.pos

      rest : List ℕ
      rest = drop (b.last + length bs) b.mem

-- How adding `bs` to a chain that holds `w` ends.
pub data Appends (w bs : List ℕ) : Run Bufs → Type 0 where
  appended : {b : Bufs} → IsBufs b → written b ≡ w ++ bs → Appends w bs (ok b)
  refused : {e : Error} → (e ≡ nomem) ⊎ (e ≡ buffer_error) → Appends w bs (err e)

content_empty : (b : Buf) → IsEmpty b → content b ≡ []
content_empty b h = let e : b.last - b.pos ≡ 0 = omega arith in rw e

-- Going on to the next chunk keeps what is written and what is well formed.
data Advances (b : Bufs) : Run Bufs → Type 0 where
  advanced :
      {b' : Bufs}
      → IsBufs b'
      → written b' ≡ written b
      → (b'.max_chunk - b'.chunk_used) + length b'.later
        < (b.max_chunk - b.chunk_used) + length b.later
      → Advances b (ok b')
  stopped : {e : Error} → (e ≡ nomem) ⊎ (e ≡ buffer_error) → Advances b (err e)

written_moved :
    (b : Bufs) (n : Buf) → IsEmpty n → contents (b.filled ++ b.cur ∷ []) ++ content n ≡ written b
written_moved b n h =
    rw (contents-append b.filled (b.cur ∷ []), content_empty n h, append-nil, append-nil)

abbrev fresh : ℕ → Buf
fresh n = record { mem = replicate n 0; pos = 0; last = 0; mark = 0 }

buf_chain_new_cases :
    (mem : Mem) (n : ℕ) → (buf_chain_new mem n ≡ ok (fresh n)) ⊎ (buf_chain_new mem n ≡ err nomem)
unfolding buf_chain_new
buf_chain_new_cases mem n = ground arith

alloc_fresh-Advances :
    (mem : Mem) (b : Bufs) → b.later ≡ [] → IsBufs b → Advances b (alloc_fresh mem b)
unfolding alloc_fresh
alloc_fresh-Advances mem b e v = elim (Bool-cases (b.max_chunk == b.chunk_used)) [
  | inl full ↦ rw full (stopped (inr refl))
  | inr room ↦ elim (buf_chain_new_cases mem b.chunk_length) [
    | inr failed ↦ rw (room, failed) (stopped (inl refl))
    | inl made ↦
        rw (room, made)
          (advanced
            (record {
              current = record {
                ordered = omega arith;
                inside = omega (arith, v.fits, length-replicate {A = ℕ} b.chunk_length 0);
              };
              behind = v.behind;
              used = ground (arith, v.used);
              fits = v.fits;
            })
            (written_moved b (shift_right (fresh b.chunk_length) b.offset) refl)
            (ground (arith, v.used)))
  ]
]

alloc_next-Advances :
    (mem : Mem) (b : Bufs) (l : List Buf) → b.later ≡ l → IsBufs b → Advances b (alloc_next mem b l)
unfolding alloc_next
alloc_next-Advances mem b [] e v = alloc_fresh-Advances mem b e v
alloc_next-Advances mem b (n ∷ ns) e v =
    let behind = rw e at v.behind in
    advanced (record { current = behind.0.0; behind = behind.1; used = v.used; fits = v.fits })
      (written_moved b n behind.0.1) (omega (arith, ap length e))

alloc_chain-Advances : (mem : Mem) (b : Bufs) → IsBufs b → Advances b (bufs_alloc_chain mem b)
unfolding bufs_alloc_chain
alloc_chain-Advances mem b v = alloc_next-Advances mem b b.later refl v

-- The rest of the loop, after `w` has been written in this round.
Appends-after :
    {v w bs cs : List ℕ} {r : Run Bufs} → Appends w cs r → w ++ cs ≡ v ++ bs → Appends v bs r
Appends-after (appended i e) h = appended i (e ∙ h)
Appends-after (refused c) h = refused c

module _ (fuel : ℕ) (mem : Mem) (x : ℕ) (xs : List ℕ)
    (rest : (b : Bufs) (bs : List ℕ)
      → rounds b bs ≤ fuel
      → IsBufs b
      → Appends (written b) bs (bufs_add_loop fuel mem b bs)) where
  next_round :
      (b : Bufs) {r : Run Bufs}
      → Advances b r
      → rounds b (x ∷ xs) ≤ suc fuel
      → Appends (written b) (x ∷ xs) (r >>= λ b'. bufs_add_loop fuel mem b' (x ∷ xs))
  next_round b (advanced {b' = b'} i e lt) h =
      Appends-after (rest b' (x ∷ xs) (omega arith) i) (ap (λ w. w ++ x ∷ xs) e)
  next_round b (stopped c) h = refused c

  copy_round :
      (b : Bufs) (n : ℕ)
      → 0 < n
      → n ≤ avail b.cur
      → n ≤ length (x ∷ xs)
      → IsBufs b
      → rounds b (x ∷ xs) ≤ suc fuel
      → Appends (written b) (x ∷ xs) (
          push b.cur (take n (x ∷ xs)) >>= λ cur.
          bufs_add_loop fuel mem (record b { cur = cur }) (drop n (x ∷ xs)))
  copy_round b n pos room some_left v h =
      let front = take n (x ∷ xs) in
      let fits : b.cur.last + length front ≤ length b.cur.mem =
        omega (arith, length-take n (x ∷ xs), v.current.inside) in
      let c = pushed b.cur front in
      let b' : Bufs = record b { cur = c } in
      rw (push_ok b.cur front fits) (
        Appends-after
          (rest b' (drop n (x ∷ xs)) (omega (arith, length-drop n (x ∷ xs))) (record {
            current = pushed-IsBuf b.cur front v.current fits;
            behind = v.behind;
            used = v.used;
            fits = v.fits;
          }))
          (ap (λ (t : List ℕ). (contents b.filled ++ t) ++ drop n (x ∷ xs))
              (pushed-content b.cur front v.current fits)
            ∙ simp append_assoc (
                ap (λ (t : List ℕ). contents b.filled ++ (content b.cur ++ t))
                  (take-append-drop n (x ∷ xs)))))

bufs_add_loop-Appends :
    (fuel : ℕ) (mem : Mem) (b : Bufs) (bs : List ℕ)
    → rounds b bs ≤ fuel
    → IsBufs b
    → Appends (written b) bs (bufs_add_loop fuel mem b bs)
unfolding bufs_add_loop
bufs_add_loop-Appends fuel mem b [] h v = appended v (sym (append-nil _))
bufs_add_loop-Appends zero mem b (x ∷ xs) h v = absurd (omega arith)
bufs_add_loop-Appends (suc fuel) mem b (x ∷ xs) h v =
    let rest = bufs_add_loop-Appends fuel mem in
    let n = min (avail b.cur) (length (x ∷ xs)) in
    elim (Bool-cases (n == 0)) [
      | inl none_fits ↦
          rw none_fits (next_round fuel mem x xs rest b (alloc_chain-Advances mem b v) h)
      | inr fits ↦
          rw fits (copy_round fuel mem x xs rest b n (ground arith) (omega arith) (omega arith) v h)
    ]

-- On a well-formed chain `bufs_add` returns. If it succeeds, the chain is well formed and holds
-- what it held and then the bytes; otherwise the error is the allocator's or the chunk limit's.
pub bufs_add-Appends :
    (mem : Mem) (b : Bufs) (bs : List ℕ) → IsBufs b → Appends (written b) bs (bufs_add mem b bs)
unfolding bufs_add
bufs_add-Appends mem b bs v = bufs_add_loop-Appends (rounds b bs) mem b bs (omega arith) v
