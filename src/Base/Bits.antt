-- ===== src/Base/Bits.antt =====
-- Bytes, words and masks as arithmetic. A mask over one byte is a table, checked by evaluation.
use dusty.Base.Tests.{◌==◌, ==_iff, ltb, ltb→lt}
use native.Mathlib.Omega.{arith}
use mathlib.Core.Bool.{Bool, true, false, ◌&&◌}
use mathlib.Core.Path.{◌≡◌, refl, sym}
use Prim.Native.Nat.{ℕ, zero, suc, ◌+◌, ◌*◌, ◌/◌, ◌%◌, ◌^◌, ◌<◌, bit_and, bit_or, bit_xor}

abbrev pub IsByte : ℕ → Type 0
IsByte b = b < 256

abbrev pub IsU16 : ℕ → Type 0
IsU16 v = v < 2 ^ 16

abbrev pub IsU32 : ℕ → Type 0
IsU32 v = v < 2 ^ 32

abbrev pub IsU64 : ℕ → Type 0
IsU64 v = v < 2 ^ 64

unfoldable pub holds_below : ℕ → (ℕ → Bool) → Bool
holds_below zero test = true
holds_below (suc bound) test = holds_below bound test && test bound

pub holds_below_sound :
    (bound : ℕ) (test : ℕ → Bool) (k : ℕ)
    → holds_below bound test ≡ true
    → k < bound
    → test k ≡ true
unfolding holds_below
holds_below_sound zero test k all below = absurd (omega arith)
holds_below_sound (suc bound) test k all below = ground (arith, holds_below_sound bound test k)

-- Two functions that agree at every byte, by evaluation.
agree_below : (f g : ℕ → ℕ) (n x : ℕ) → holds_below n (λ b. f b == g b) ≡ true → x < n → f x ≡ g x
agree_below f g n x e h = (==_iff (f x) (g x)).0 (holds_below_sound n _ x e h)

pub bit_and_0x80 : (b : ℕ) → b < 256 → bit_and b 0x80 ≡ b / 128 * 128
unfolding holds_below
bit_and_0x80 b h = agree_below (λ x. bit_and x 0x80) (λ x. x / 128 * 128) 256 b refl h

pub bit_and_0x7f : (b : ℕ) → b < 256 → bit_and b 0x7f ≡ b % 128
unfolding holds_below
bit_and_0x7f b h = agree_below (λ x. bit_and x 0x7f) (λ x. x % 128) 256 b refl h

pub bit_and_0x70 : (b : ℕ) → b < 256 → bit_and b 0x70 ≡ b / 16 % 8 * 16
unfolding holds_below
bit_and_0x70 b h = agree_below (λ x. bit_and x 0x70) (λ x. x / 16 % 8 * 16) 256 b refl h

pub bit_and_0x0f : (b : ℕ) → b < 256 → bit_and b 0x0f ≡ b % 16
unfolding holds_below
bit_and_0x0f b h = agree_below (λ x. bit_and x 0x0f) (λ x. x % 16) 256 b refl h

pub bit_or_0x80 : (b : ℕ) → b < 128 → bit_or b 0x80 ≡ b + 128
unfolding holds_below
bit_or_0x80 b h = agree_below (λ x. bit_or x 0x80) (λ x. x + 128) 128 b refl h

pub bit_or_0x80_left : (b : ℕ) → b < 128 → bit_or 0x80 b ≡ b + 128
unfolding holds_below
bit_or_0x80_left b h = agree_below (λ x. bit_or 0x80 x) (λ x. x + 128) 128 b refl h

pub zero-bit_or : (b : ℕ) → b < 256 → bit_or 0 b ≡ b
unfolding holds_below
zero-bit_or b h = agree_below (λ x. bit_or 0 x) (λ x. x) 256 b refl h

all_pairs : Bool
unfolding holds_below
all_pairs = holds_below 256 (λ k. holds_below 256 (λ b. bit_xor (bit_xor b k) k == b))

all_pairs_hold : all_pairs ≡ true
unfolding all_pairs
all_pairs_hold = refl

-- Masking a byte twice with the same byte gives it back.
pub bit_xor_twice : (b k : ℕ) → b < 256 → k < 256 → bit_xor (bit_xor b k) k ≡ b
unfolding all_pairs
bit_xor_twice b k hb hk = (==_iff _ b).0 (
    holds_below_sound 256 (λ c. bit_xor (bit_xor c k) k == c) b
      (holds_below_sound 256 (λ k. holds_below 256 (λ b. bit_xor (bit_xor b k) k == b)) k
        all_pairs_hold hk)
      hb)

xor_bounded : Bool
unfolding holds_below
xor_bounded = holds_below 256 (λ k. holds_below 256 (λ b. ltb (bit_xor b k) 256))

xor_bounded_holds : xor_bounded ≡ true
unfolding xor_bounded
xor_bounded_holds = refl

pub bit_xor-IsByte : (b k : ℕ) → b < 256 → k < 256 → bit_xor b k < 256
unfolding xor_bounded
bit_xor-IsByte b k hb hk = ltb→lt _ _ (
    holds_below_sound 256 (λ c. ltb (bit_xor c k) 256) b
      (holds_below_sound 256 (λ k. holds_below 256 (λ b. ltb (bit_xor b k) 256)) k xor_bounded_holds
        hk)
      hb)

abbrev pub both_or_neither : Bool → Bool → Bool
both_or_neither true b = b
both_or_neither false true = false
both_or_neither false false = true

both_or_neither-same : (a b : Bool) → both_or_neither a b ≡ true → a ≡ b
both_or_neither-same true true h = refl
both_or_neither-same true false h = sym h
both_or_neither-same false true h = h
both_or_neither-same false false h = refl

-- Two tests that agree at every number below the bound, by evaluation.
pub same_below :
    (f g : ℕ → Bool) (bound k : ℕ)
    → holds_below bound (λ b. both_or_neither (f b) (g b)) ≡ true
    → k < bound
    → f k ≡ g k
same_below f g bound k all h = both_or_neither-same (f k) (g k) (holds_below_sound bound _ k all h)
