-- ===== src/Headers.antt =====
-- src/http.zig, `Headers`: the multi-value map of header fields with its one-byte hashes. The
-- parallel arrays are one list of the slots in use, and the capacity is a number.
pub mod Multimap
pub mod Calls
mod Examples
use dusty.Base.{
  ℕ, zero, suc, ◌+◌, ◌-◌, ◌%◌, ◌/◌, ◌^◌, min, bit_or, bit_xor, Bool, true, false, ◌&&◌, List, [],
  ◌∷◌, ◌++◌, Option, none, some, ◌==◌, leb, if◌then◌else◌, length, to_lower, eql_ignore_case,
}

pub record Slot : Type 0 where
  pub key : List ℕ
  pub value : List ℕ
  pub hash : ℕ

pub record Headers : Type 0 where
  pub capacity : ℕ
  pub slots : List Slot

-- `max_count`, for slices of 16 bytes.
abbrev pub max_count : ℕ
max_count = (2 ^ 64 - 1) / 33

abbrev pub init : ℕ → Headers
init max = record { capacity = min max max_count; slots = [] }

abbrev last_byte : ℕ → List ℕ → ℕ
last_byte b [] = b
last_byte b (c ∷ bs) = last_byte c bs

pub hash_fn : List ℕ → ℕ
hash_fn [] = 0
hash_fn (b ∷ bs) = bit_or (length (b ∷ bs) % 256) (bit_xor (to_lower b) (to_lower (last_byte b bs)))

-- The test of every loop: the hash first, the name second.
abbrev pub matches : ℕ → List ℕ → Slot → Bool
matches h name slot = slot.hash == h && eql_ignore_case (slot.key) name

also_kept : Slot → Option (List Slot) → Option (List Slot)
also_kept slot none = none
also_kept slot (some slots) = some (slot ∷ slots)

-- The loop of `put`, none when it falls through.
pub replace_first : ℕ → List ℕ → List ℕ → List Slot → Option (List Slot)
unfolding eql_ignore_case also_kept
replace_first h name value [] = none
replace_first h name value (slot ∷ slots) =
    let later = replace_first h name value slots in
    if matches h name slot
    then some (record slot { value = value } ∷ slots)
    else also_kept slot later

-- None is error.TooManyHeaders.
unfoldable pub add : List ℕ → List ℕ → Headers → Option Headers
unfolding hash_fn
add name value headers =
    if leb (headers.capacity) (length (headers.slots))
    then none
    else some (record headers {
      slots = headers.slots ++ record { key = name; value = value; hash = hash_fn name } ∷ [];
    })

abbrev put_or_add : List ℕ → List ℕ → Headers → Option (List Slot) → Option Headers
unfolding add
put_or_add name value headers none = add name value headers
put_or_add name value headers (some slots) = some (record headers { slots = slots })

unfoldable pub put : List ℕ → List ℕ → Headers → Option Headers
unfolding replace_first put_or_add
put name value headers =
    put_or_add name value headers (replace_first (hash_fn name) name value (headers.slots))

pub get_first : ℕ → List ℕ → List Slot → Option (List ℕ)
unfolding eql_ignore_case
get_first h name [] = none
get_first h name (slot ∷ slots) =
    if matches h name slot then some (slot.value) else get_first h name slots

unfoldable pub get : List ℕ → Headers → Option (List ℕ)
unfolding get_first hash_fn
get name headers = get_first (hash_fn name) name (headers.slots)

pub keep_others : ℕ → List ℕ → List Slot → List Slot
unfolding eql_ignore_case
keep_others h name [] = []
keep_others h name (slot ∷ slots) =
    let kept = keep_others h name slots in if matches h name slot then kept else slot ∷ kept

-- What is left, and how many went.
unfoldable pub remove : List ℕ → Headers → Headers × ℕ
unfolding keep_others hash_fn
remove name headers =
    let kept = keep_others (hash_fn name) name (headers.slots) in
    (record headers { slots = kept }, length (headers.slots) - length kept)
