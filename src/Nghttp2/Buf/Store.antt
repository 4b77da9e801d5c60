-- ===== src/Nghttp2/Buf/Store.antt =====
-- What a store does to a buffer that is cut where the store begins and ends.
use dusty.Base.{
  ℕ, zero, suc, ◌+◌, ◌≤◌, ◌≡◌, sym, ap, List, [], ◌∷◌, ◌++◌, arith, length, take, drop, length-take,
  length-drop, take-append-drop,
}
use dusty.Nghttp2.Run.{ok}
use dusty.Nghttp2.Buf.{splice, store}

-- `mem` in three pieces, the first of length `p`, the second of length `n`.
pub record Cut (mem : List ℕ) (p n : ℕ) : Type 0 where
  pub front : List ℕ
  pub cells : List ℕ
  pub back : List ℕ
  pub whole : mem ≡ front ++ (cells ++ back)
  pub front_length : length front ≡ p
  pub cells_length : length cells ≡ n

pub cut : (mem : List ℕ) (p n : ℕ) → p + n ≤ length mem → Cut mem p n
cut mem p n h = record {
  front = take p mem;
  cells = take n (drop p mem);
  back = drop n (drop p mem);
  whole = sym (rw (take-append-drop n (drop p mem)) (take-append-drop p mem));
  front_length = omega (arith, length-take p mem);
  cells_length = omega (arith, length-take n (drop p mem), length-drop p mem);
}

pub store_ok :
    (mem : List ℕ) (off : ℕ) (bs : List ℕ)
    → off + length bs ≤ length mem
    → store mem off bs ≡ ok (splice mem off bs)
unfolding store
store_ok mem off bs h = ground arith

pub splice-append :
    (front mem bs : List ℕ) (off k p : ℕ)
    → length front ≡ off
    → p ≡ off + k
    → splice (front ++ mem) p bs ≡ front ++ splice mem k bs
splice-append [] mem bs zero k p h e = let e' : p ≡ k = omega arith in rw e'
splice-append [] mem bs (suc off) k p h e = absurd (omega arith)
splice-append (x ∷ front) mem bs zero k p h e = absurd (omega arith)
splice-append (x ∷ front) mem bs (suc off) k zero h e = absurd (omega arith)
splice-append (x ∷ front) mem bs (suc off) k (suc p) h e =
    let s : suc p + length bs ≡ suc (p + length bs) = omega arith in
    rw s (ap (◌∷◌ x) (splice-append front mem bs off k p (omega arith) (omega arith)))
