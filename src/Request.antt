-- ===== src/Request.antt =====
-- src/request.zig, `urlUnescape`: the percent-decoding of query strings and form fields.
pub mod Escape
mod Examples
use dusty.Base.{
  ℕ, zero, suc, ◌+◌, ◌-◌, ◌*◌, ◌%◌, bit_or, Bool, true, false, ◌&&◌, ◌||◌, not, List, [], ◌∷◌,
  Option, none, some, ◌==◌, leb, if◌then◌else◌, length,
}

abbrev in_range : ℕ → ℕ → ℕ → Bool
in_range first last b = leb first b && leb b last

-- `std.ascii.isHex`
pub is_hex : ℕ → Bool
is_hex b = in_range b'0' b'9' b || in_range b'A' b'F' b || in_range b'a' b'f' b

pub decode_hex : ℕ → ℕ
decode_hex b =
    if in_range b'0' b'9' b
    then b - b'0'
    else if in_range b'A' b'F' b
    then b - b'A' + 10
    else if in_range b'a' b'f' b
    then b - b'a' + 10
    else 0

-- The first loop, from `in_i` on: the length of what is unescaped and whether there is a plus, or
-- none for error.InvalidEscapeSequence.
pub scan : List ℕ → ℕ → Bool → Option (ℕ × Bool)
unfolding is_hex
scan [] unescaped_len has_plus = some (unescaped_len, has_plus)
scan (b ∷ []) unescaped_len has_plus =
    if b == b'%' then none else some (unescaped_len, has_plus || b == b'+')
scan (b ∷ c ∷ []) unescaped_len has_plus =
    let rest = scan (c ∷ []) unescaped_len (has_plus || b == b'+') in
    if b == b'%' then none else rest
scan (b ∷ h ∷ l ∷ bs) unescaped_len has_plus =
    let escaped = scan bs (unescaped_len - 2) has_plus in
    let rest = scan (h ∷ l ∷ bs) unescaped_len (has_plus || b == b'+') in
    if b == b'%' then (if is_hex h && is_hex l then escaped else none) else rest

-- The second loop: a byte of the output at each turn.
pub decode : ℕ → List ℕ → List ℕ
unfolding decode_hex
decode zero bs = []
decode (suc n) [] = []
decode (suc n) (b ∷ []) = (if b == b'+' then b' ' else b) ∷ []
decode (suc n) (b ∷ c ∷ []) = (if b == b'+' then b' ' else b) ∷ decode n (c ∷ [])
decode (suc n) (b ∷ h ∷ l ∷ bs) =
    let escaped = bit_or (decode_hex h * 16 % 256) (decode_hex l) ∷ decode n bs in
    let plain = (if b == b'+' then b' ' else b) ∷ decode n (h ∷ l ∷ bs) in
    if b == b'%' then escaped else plain

abbrev pub unescaped : List ℕ → Option (ℕ × Bool) → Option (List ℕ)
unescaped input none = none
unescaped input (some (unescaped_len, has_plus)) =
    if unescaped_len == length input && not has_plus
    then some input
    else some (decode unescaped_len input)

unfoldable pub url_unescape : List ℕ → Option (List ℕ)
unfolding scan decode
url_unescape input = unescaped input (scan input (length input) false)
