-- ===== src/Response/Chunks.antt =====
-- RFC 9112 section 7.1: what a peer reads from a chunked body, and that it reads back the chunks
-- that src/response.zig writes.
use dusty.Base.{
  ℕ, zero, suc, ◌+◌, ◌-◌, ◌/◌, ◌%◌, ◌*◌, ◌≤◌, ◌<◌, ◌≡◌, refl, ap, ◌∙◌, ◌&&◌, List, [], ◌∷◌, ◌++◌,
  Option, none, some, arith, ◌==◌, leb, ltb, if◌then◌else◌, length, take, drop, take-append,
  drop-append, append_assoc, codes, Bool-cases, inl, inr,
}
use dusty.Response.{digits, hexadecimal, digit}

-- A hexadecimal digit in lower or upper case, none for another byte.
abbrev hex_value : ℕ → Option ℕ
hex_value b =
    if leb b'0' b && leb b b'9'
    then some (b - b'0')
    else if leb b'a' b && leb b b'f'
    then some (b - b'a' + 10)
    else if leb b'A' b && leb b b'F'
    then some (b - b'A' + 10)
    else none

-- The size of a chunk up to its line end, and what follows.
read_size : ℕ → List ℕ → Option (ℕ × List ℕ)
read_size size [] = none
read_size size (b ∷ bs) = elim (hex_value b) [
  | some v ↦ read_size (16 * size + v) bs
  | none ↦ elim bs [ [] ↦ none | c ∷ cs ↦ if b == 13 && c == 10 then some (size, cs) else none ]
]

-- What follows a line end.
after_crlf : List ℕ → Option (List ℕ)
after_crlf [] = none
after_crlf (a ∷ []) = none
after_crlf (a ∷ b ∷ bs) = if a == 13 && b == 10 then some bs else none

abbrev pub also_first : List ℕ → Option (List ℕ × List ℕ) → Option (List ℕ × List ℕ)
also_first bytes none = none
also_first bytes (some (body, rest)) = some (bytes ++ body, rest)

-- The body and what follows it, with at most as many chunks as the fuel.
unfoldable pub read_chunks : ℕ → List ℕ → Option (List ℕ × List ℕ)
unfolding read_size after_crlf
read_chunks zero bs = none
read_chunks (suc fuel) bs = elim (read_size 0 bs) [
  | none ↦ none
  | some line ↦ elim line.0 [
    | zero ↦ elim (after_crlf line.1) [ none ↦ none | some rest ↦ some ([], rest) ]
    | suc n ↦ elim (after_crlf (drop (suc n) line.1)) [
      | none ↦ none
      | some rest ↦ also_first (take (suc n) line.1) (read_chunks fuel rest)
    ]
  ]
]

hex_value-digit : (d : ℕ) → d < 16 → hex_value (digit d) ≡ some d
hex_value-digit d h = ground arith

read_size-digit :
    (size d : ℕ) (bs : List ℕ)
    → d < 16
    → read_size size (digit d ∷ bs) ≡ read_size (16 * size + d) bs
unfolding read_size
read_size-digit size d bs h = rw (read_size, hex_value-digit d h) refl

read_size-digits :
    (fuel n : ℕ) (behind : List ℕ)
    → n < fuel
    → read_size 0 (digits 16 fuel n behind) ≡ read_size n behind
unfolding digits
read_size-digits zero n behind h = absurd (omega arith)
read_size-digits (suc fuel) n behind h = elim (Bool-cases (ltb n 16)) [
  | inl e ↦
      let below : n < 16 = ground (arith, e) in
      let same : 0 + n % 16 ≡ n = omega (arith, below) in
      rw e (read_size-digit 0 (n % 16) behind (omega arith) ∙ ap (λ m. read_size m behind) same)
  | inr e ↦
      let large : 16 ≤ n = ground (arith, e) in
      let back : 16 * (n / 16) + n % 16 ≡ n = omega arith in
      rw e (
        read_size-digits fuel (n / 16) (digit (n % 16) ∷ behind) (omega (arith, large, h))
        ∙ read_size-digit (n / 16) (n % 16) behind (omega arith)
        ∙ ap (λ m. read_size m behind) back)
]

abbrev crlf : List ℕ
crlf = 13 ∷ 10 ∷ []

-- A chunk as it is written, and the end of a body.
abbrev pub chunk_of : List ℕ → List ℕ
chunk_of bytes = hexadecimal (length bytes) ++ (crlf ++ (bytes ++ crlf))

digits-append :
    (base fuel n : ℕ) (behind bs : List ℕ)
    → digits base fuel n behind ++ bs ≡ digits base fuel n (behind ++ bs)
unfolding digits
digits-append base zero n behind bs = refl
digits-append base (suc fuel) n behind bs = elim (Bool-cases (ltb n base)) [
  | inl e ↦ rw e refl
  | inr e ↦ rw e (digits-append base fuel (n / base) (digit (n % base) ∷ behind) bs)
]

line_end : (n : ℕ) (bs : List ℕ) → read_size n (crlf ++ bs) ≡ some (n, bs)
unfolding read_size
line_end n bs = refl

read_size-hexadecimal :
    (n : ℕ) (bs : List ℕ) → read_size 0 (hexadecimal n ++ (crlf ++ bs)) ≡ some (n, bs)
unfolding hexadecimal
read_size-hexadecimal n bs =
    ap (read_size 0) (digits-append 16 (suc n) n [] (crlf ++ bs))
    ∙ read_size-digits (suc n) n (crlf ++ bs) (omega arith)
    ∙ line_end n bs

chunk_of-append :
    (bytes rest : List ℕ)
    → chunk_of bytes ++ rest ≡ hexadecimal (length bytes) ++ (crlf ++ (bytes ++ (crlf ++ rest)))
chunk_of-append bytes rest =
    append_assoc (hexadecimal (length bytes)) (crlf ++ (bytes ++ crlf)) rest
    ∙ ap (λ t. hexadecimal (length bytes) ++ (crlf ++ t)) (append_assoc bytes crlf rest)

pub read_chunks-chunk_of :
    (fuel b : ℕ) (bytes rest : List ℕ)
    → read_chunks (suc fuel) (chunk_of (b ∷ bytes) ++ rest)
      ≡ also_first (b ∷ bytes) (read_chunks fuel rest)
unfolding read_chunks
read_chunks-chunk_of fuel b bytes rest =
    ap (read_chunks (suc fuel)) (chunk_of-append (b ∷ bytes) rest)
    ∙ rw
        (
          read_chunks,
          read_size-hexadecimal (length (b ∷ bytes)) (b ∷ (bytes ++ (crlf ++ rest))),
          drop-append bytes (crlf ++ rest) (length bytes) refl,
          take-append bytes (crlf ++ rest) (length bytes) refl,
        )
        refl

pub read_chunks-end :
    (fuel : ℕ) → read_chunks (suc fuel) (codes "0" ++ crlf ++ crlf) ≡ some ([], [])
unfolding read_chunks read_size after_crlf
read_chunks-end fuel = refl
