-- ===== src/Llhttp/Lenient.antt =====
-- src/llhttp/api.c: each setter of a lenient flag sets its own flag and no other.
use dusty.Base.Bits.{holds_below, holds_below_sound, both_or_neither, same_below}
use dusty.Base.{
  ℕ, ◌<◌, ◌≡◌, refl, ap, ◌∙◌, ◌^◌, Bool, true, false, bit_and, bit_or, arith, if◌then◌else◌, ◌==◌,
  ◌-◌,
}
use dusty.Llhttp.{Parser, has}
use dusty.Llhttp.Api.{
  set_lenient_headers, set_lenient_chunked_length, set_lenient_keep_alive,
  set_lenient_transfer_encoding, set_lenient_version, set_lenient_data_after_close,
  set_lenient_optional_lf_after_cr, set_lenient_optional_crlf_after_chunk,
  set_lenient_optional_cr_before_lf, set_lenient_spaces_after_chunk_size,
}

-- `enum llhttp_lenient_flags`
pub data Lenience : Type 0 where
  headers chunked_length keep_alive transfer_encoding version data_after_close : Lenience
  optional_lf_after_cr optional_crlf_after_chunk optional_cr_before_lf : Lenience
  spaces_after_chunk_size : Lenience

-- The position of a flag's bit.
abbrev pub position : Lenience → ℕ
position headers = 0
position chunked_length = 1
position keep_alive = 2
position transfer_encoding = 3
position version = 4
position data_after_close = 5
position optional_lf_after_cr = 6
position optional_crlf_after_chunk = 7
position optional_cr_before_lf = 8
position spaces_after_chunk_size = 9

abbrev pub flag_of : Lenience → ℕ
flag_of a = 2 ^ position a

abbrev pub setter : Lenience → Parser → Bool → Parser
setter headers = set_lenient_headers
setter chunked_length = set_lenient_chunked_length
setter keep_alive = set_lenient_keep_alive
setter transfer_encoding = set_lenient_transfer_encoding
setter version = set_lenient_version
setter data_after_close = set_lenient_data_after_close
setter optional_lf_after_cr = set_lenient_optional_lf_after_cr
setter optional_crlf_after_chunk = set_lenient_optional_crlf_after_chunk
setter optional_cr_before_lf = set_lenient_optional_cr_before_lf
setter spaces_after_chunk_size = set_lenient_spaces_after_chunk_size

-- The flags after a setter, as the source computes them.
abbrev changed : ℕ → Bool → ℕ → ℕ
changed mask true f = bit_or f mask
changed mask false f = bit_and f (65535 - mask)

setter-changed :
    (a : Lenience) (enabled : Bool) (p : Parser)
    → (setter a p enabled).lenient_flags ≡ changed (flag_of a) enabled p.lenient_flags
unfolding set_lenient_headers set_lenient_chunked_length set_lenient_keep_alive
    set_lenient_transfer_encoding set_lenient_version set_lenient_data_after_close
    set_lenient_optional_lf_after_cr set_lenient_optional_crlf_after_chunk
    set_lenient_optional_cr_before_lf set_lenient_spaces_after_chunk_size
setter-changed headers true p = refl
setter-changed headers false p = refl
setter-changed chunked_length true p = refl
setter-changed chunked_length false p = refl
setter-changed keep_alive true p = refl
setter-changed keep_alive false p = refl
setter-changed transfer_encoding true p = refl
setter-changed transfer_encoding false p = refl
setter-changed version true p = refl
setter-changed version false p = refl
setter-changed data_after_close true p = refl
setter-changed data_after_close false p = refl
setter-changed optional_lf_after_cr true p = refl
setter-changed optional_lf_after_cr false p = refl
setter-changed optional_crlf_after_chunk true p = refl
setter-changed optional_crlf_after_chunk false p = refl
setter-changed optional_cr_before_lf true p = refl
setter-changed optional_cr_before_lf false p = refl
setter-changed spaces_after_chunk_size true p = refl
setter-changed spaces_after_chunk_size false p = refl

expected : ℕ → ℕ → Bool → ℕ → Bool
expected i j enabled f = if i == j then enabled else has f (2 ^ j)

agrees : Bool → ℕ → ℕ → ℕ → Bool
unfolding expected
agrees enabled i j f =
    both_or_neither (has (changed (2 ^ i) enabled f) (2 ^ j)) (expected i j enabled f)

row : Bool → ℕ → ℕ → Bool
unfolding holds_below agrees
row enabled i j = holds_below 1024 (agrees enabled i j)

rows : Bool → ℕ → Bool
unfolding holds_below row
rows enabled i = holds_below 10 (row enabled i)

table : Bool → Bool
unfolding holds_below rows
table enabled = holds_below 10 (rows enabled)

table-holds : (enabled : Bool) → table enabled ≡ true
unfolding table
table-holds true = refl
table-holds false = refl

rows-holds : (enabled : Bool) (i : ℕ) → i < 10 → rows enabled i ≡ true
unfolding table
rows-holds enabled i h = holds_below_sound 10 (rows enabled) i (table-holds enabled) h

row-holds : (enabled : Bool) (i j : ℕ) → i < 10 → j < 10 → row enabled i j ≡ true
unfolding rows
row-holds enabled i j h k = holds_below_sound 10 (row enabled i) j (rows-holds enabled i h) k

position-bound : (a : Lenience) → position a < 10
position-bound headers = omega arith
position-bound chunked_length = omega arith
position-bound keep_alive = omega arith
position-bound transfer_encoding = omega arith
position-bound version = omega arith
position-bound data_after_close = omega arith
position-bound optional_lf_after_cr = omega arith
position-bound optional_crlf_after_chunk = omega arith
position-bound optional_cr_before_lf = omega arith
position-bound spaces_after_chunk_size = omega arith

-- Each setter of a lenient flag sets or clears the flag of its name, as it is told, and leaves each
-- of the other nine as it was, whatever the flags below 1024 that are set before.
pub setter-lenient_flags :
    (a b : Lenience) (enabled : Bool) (p : Parser)
    → p.lenient_flags < 1024
    → has (setter a p enabled).lenient_flags (flag_of b)
      ≡ (if position a == position b then enabled else has p.lenient_flags (flag_of b))
unfolding expected row agrees
setter-lenient_flags a b enabled p h =
    ap (λ f. has f (flag_of b)) (setter-changed a enabled p)
    ∙ same_below (λ f. has (changed (flag_of a) enabled f) (flag_of b))
        (expected (position a) (position b) enabled) 1024 p.lenient_flags
        (row-holds enabled (position a) (position b) (position-bound a) (position-bound b)) h
