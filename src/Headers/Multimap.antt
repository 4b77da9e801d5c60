-- ===== src/Headers/Multimap.antt =====
-- What the header map of src/http.zig promises: a list of names and values, without a hash.
use dusty.Base.{
  ℕ, suc, ◌%◌, ◌≡◌, refl, ap, sym, ◌∙◌, Bool, true, false, ◌||◌, List, [], ◌∷◌, ◌++◌, map, All,
  Option, none, some, arith, if◌then◌else◌, length, bit_or, bit_xor, to_lower, lowered,
  eql_ignore_case, eql_ignore_case_iff, Bool-cases, inl, inr,
}
use dusty.Headers.{
  Slot, hash_fn, matches, replace_first, get_first, keep_others, last_byte, also_kept,
}

abbrev pub Fields : Type 0
Fields = List (List ℕ × List ℕ)

unfoldable pub put_field : List ℕ → List ℕ → Fields → Fields
put_field name value [] = (name, value) ∷ []
put_field name value ((k, v) ∷ fields) =
    let rest = put_field name value fields in
    if eql_ignore_case k name then (k, value) ∷ fields else (k, v) ∷ rest

unfoldable pub get_field : List ℕ → Fields → Option (List ℕ)
get_field name [] = none
get_field name ((k, v) ∷ fields) = if eql_ignore_case k name then some v else get_field name fields

unfoldable pub without : List ℕ → Fields → Fields
without name [] = []
without name ((k, v) ∷ fields) =
    let rest = without name fields in if eql_ignore_case k name then rest else (k, v) ∷ rest

lowered-length : (xs : List ℕ) → length (lowered xs) ≡ length xs
lowered-length [] = refl
lowered-length (b ∷ bs) = ap suc (lowered-length bs)

-- The last byte, in lower case.
last_lowered : ℕ → List ℕ → ℕ
last_lowered b [] = b
last_lowered b (c ∷ bs) = last_lowered c bs

last_lowered-lowered :
    (b : ℕ) (bs : List ℕ) → last_lowered (to_lower b) (lowered bs) ≡ to_lower (last_byte b bs)
unfolding last_lowered
last_lowered-lowered b [] = refl
last_lowered-lowered b (c ∷ bs) = last_lowered-lowered c bs

hash_lowered : List ℕ → ℕ
hash_lowered [] = 0
hash_lowered (b ∷ bs) = bit_or (length (b ∷ bs) % 256) (bit_xor b (last_lowered b bs))

hash_fn-lowered : (name : List ℕ) → hash_lowered (lowered name) ≡ hash_fn name
unfolding hash_lowered hash_fn
hash_fn-lowered [] = refl
hash_fn-lowered (b ∷ bs) = rw (lowered-length bs) (rw (last_lowered-lowered b bs) refl)

-- Names that differ only in case have one hash.
hash_fn-same : (a b : List ℕ) → eql_ignore_case a b ≡ true → hash_fn a ≡ hash_fn b
hash_fn-same a b h =
    sym (hash_fn-lowered a) ∙ ap hash_lowered ((eql_ignore_case_iff a b).0 h) ∙ hash_fn-lowered b

abbrev pub IsHashed : Slot → Type 0
IsHashed slot = slot.hash ≡ hash_fn (slot.key)

matches-eql :
    (name : List ℕ) (slot : Slot)
    → IsHashed slot
    → matches (hash_fn name) name slot ≡ eql_ignore_case (slot.key) name
matches-eql name slot h = elim (Bool-cases (eql_ignore_case (slot.key) name)) [
  | inl e ↦ ground (arith, e, h, hash_fn-same (slot.key) name e)
  | inr e ↦ ground (arith, e)
]

abbrev pub fields_of : List Slot → Fields
fields_of slots = map (λ slot. (slot.key, slot.value)) slots

unfoldable pub has_field : List ℕ → Fields → Bool
has_field name [] = false
has_field name ((k, v) ∷ fields) = eql_ignore_case k name || has_field name fields

pub get_first-get_field :
    (name : List ℕ) (slots : List Slot)
    → All IsHashed slots
    → get_first (hash_fn name) name slots ≡ get_field name (fields_of slots)
unfolding get_first get_field
get_first-get_field name [] h = refl
get_first-get_field name (slot ∷ slots) h =
    rw (matches-eql name slot h.0) (rw (get_first-get_field name slots h.1) refl)

pub keep_others-without :
    (name : List ℕ) (slots : List Slot)
    → All IsHashed slots
    → (fields_of (keep_others (hash_fn name) name slots) ≡ without name (fields_of slots))
      × All IsHashed (keep_others (hash_fn name) name slots)
unfolding keep_others without
keep_others-without name [] h = (refl, tt)
keep_others-without name (slot ∷ slots) h =
    let below = keep_others-without name slots h.1 in
    rw (matches-eql name slot h.0) (elim (Bool-cases (eql_ignore_case (slot.key) name)) [
      | inl e ↦ rw e below
      | inr e ↦ rw e (ap (λ rest. (slot.key, slot.value) ∷ rest) below.0, (h.0, below.1))
    ])

-- What the loop of `put` gives, or that there is nothing to replace.
abbrev pub Replaces : List ℕ → List ℕ → List Slot → Option (List Slot) → Type 0
Replaces name value slots (some out) =
    (fields_of out ≡ put_field name value (fields_of slots))
    × (has_field name (fields_of slots) ≡ true)
    × All IsHashed out
Replaces name value slots none =
    (put_field name value (fields_of slots) ≡ fields_of slots ++ (name, value) ∷ [])
    × (has_field name (fields_of slots) ≡ false)

Replaces-also_kept :
    (name value : List ℕ) (slot : Slot) (slots : List Slot) (o : Option (List Slot))
    → eql_ignore_case (slot.key) name ≡ false
    → IsHashed slot
    → Replaces name value slots o
    → Replaces name value (slot ∷ slots) (also_kept slot o)
unfolding also_kept put_field has_field
Replaces-also_kept name value slot slots none e h r =
    rw e (ap (λ rest. (slot.key, slot.value) ∷ rest) r.0, r.1)
Replaces-also_kept name value slot slots (some out) e h r =
    rw e (ap (λ rest. (slot.key, slot.value) ∷ rest) r.0, r.1, (h, r.2))

Replaces-found :
    (name value : List ℕ) (slot : Slot) (slots : List Slot)
    → eql_ignore_case (slot.key) name ≡ true
    → All IsHashed (slot ∷ slots)
    → Replaces name value (slot ∷ slots) (some (record slot { value = value } ∷ slots))
unfolding put_field has_field
Replaces-found name value slot slots e h = rw e (refl, refl, h)

pub Replaces-replace_first :
    (name value : List ℕ) (slots : List Slot)
    → All IsHashed slots
    → Replaces name value slots (replace_first (hash_fn name) name value slots)
unfolding replace_first put_field has_field
Replaces-replace_first name value [] h = (refl, refl)
Replaces-replace_first name value (slot ∷ slots) h =
    rw (matches-eql name slot h.0) (elim (Bool-cases (eql_ignore_case (slot.key) name)) [
      | inl e ↦ rw e (Replaces-found name value slot slots e h)
      | inr e ↦ rw e (
          Replaces-also_kept name value slot slots _ e h.0
            (Replaces-replace_first name value slots h.1))
    ])
