-- ===== src/Nghttp2/Wire.antt =====
-- src/nghttp2/lib/nghttp2_helper.c: integers in network byte order. `htons`, `htonl` and a memcpy
-- make the most significant byte the first, whatever the order of the host.
use dusty.Base.{ℕ, ◌+◌, ◌*◌, ◌/◌, ◌%◌, ◌^◌, ◌≡◌, List, [], ◌∷◌, ◌++◌, arith}
use dusty.Base.Bits.{IsByte, IsU16, IsU32}
use dusty.Base.{All}
use dusty.Nghttp2.Run.{Run, ok, fault}

-- The bytes that `nghttp2_put_uint16be` copies to its buffer.
unfoldable pub put_uint16be : ℕ → List ℕ
put_uint16be n = n / 2 ^ 8 % 256 ∷ n % 256 ∷ []

unfoldable pub put_uint32be : ℕ → List ℕ
put_uint32be n = n / 2 ^ 24 % 256 ∷ n / 2 ^ 16 % 256 ∷ n / 2 ^ 8 % 256 ∷ n % 256 ∷ []

-- A read past the end of the object is a fault.
unfoldable pub get_uint16 : List ℕ → Run ℕ
get_uint16 (a ∷ b ∷ rest) = ok (a * 2 ^ 8 + b)
get_uint16 _ = fault

unfoldable pub get_uint32 : List ℕ → Run ℕ
get_uint32 (a ∷ b ∷ c ∷ d ∷ rest) = ok (a * 2 ^ 24 + b * 2 ^ 16 + c * 2 ^ 8 + d)
get_uint32 _ = fault

-- `get_uint16` reads back the 16-bit number that `put_uint16be` wrote, whatever follows it.
pub get_uint16-put_uint16be :
    (n : ℕ) (rest : List ℕ) → IsU16 n → get_uint16 (put_uint16be n ++ rest) ≡ ok n
unfolding get_uint16 put_uint16be
get_uint16-put_uint16be n rest h = ground arith

pub get_uint32-put_uint32be :
    (n : ℕ) (rest : List ℕ) → IsU32 n → get_uint32 (put_uint32be n ++ rest) ≡ ok n
unfolding get_uint32 put_uint32be
get_uint32-put_uint32be n rest h = ground arith

pub put_uint32be-All : (n : ℕ) → All IsByte (put_uint32be n)
unfolding put_uint32be
put_uint32be-All n = omega arith
