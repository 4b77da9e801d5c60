-- ===== src/Headers/Calls.antt =====
-- src/http.zig, `Headers`: any sequence of calls, against the list of names and values.
use dusty.Base.{
  ℕ, min, ◌-◌, ◌≡◌, refl, ap, sym, ◌∙◌, subst, List, [], ◌∷◌, ◌++◌, All, Option, none, some, leb,
  if◌then◌else◌, length, length-map, Bool-cases, inl, inr,
}
use dusty.Headers.{
  max_count, Slot, Headers, init, hash_fn, add, put, put_or_add, get, keep_others, remove,
}
use dusty.Headers.Multimap.{
  Fields, put_field, get_field, without, has_field, fields_of, IsHashed, Replaces,
  Replaces-replace_first, get_first-get_field, keep_others-without,
}

pub data HeaderCall : Type 0 where
  put_call : (name value : List ℕ) → HeaderCall
  add_call : (name value : List ℕ) → HeaderCall
  get_call : (name : List ℕ) → HeaderCall
  remove_call : (name : List ℕ) → HeaderCall

pub data Outcome : Type 0 where
  stored : Outcome
  too_many_headers : Outcome
  value_is : Option (List ℕ) → Outcome
  removed : ℕ → Outcome

abbrev or_as_before : {A : Type 0} → A → Option A → A × Outcome
or_as_before before none = (before, too_many_headers)
or_as_before before (some after) = (after, stored)

unfoldable pub call : HeaderCall → Headers → Headers × Outcome
unfolding put add get remove
call (put_call name value) headers = or_as_before headers (put name value headers)
call (add_call name value) headers = or_as_before headers (add name value headers)
call (get_call name) headers = (headers, value_is (get name headers))
call (remove_call name) headers = ((remove name headers).0, removed ((remove name headers).1))

-- The same on the list, where a new field needs room.
abbrev added : ℕ → List ℕ → List ℕ → Fields → Option Fields
added max name value fields =
    if leb max (length fields) then none else some (fields ++ (name, value) ∷ [])

unfoldable pub field_call : ℕ → HeaderCall → Fields → Fields × Outcome
unfolding has_field put_field get_field without
field_call max (put_call name value) fields = or_as_before fields (
    if has_field name fields
    then some (put_field name value fields)
    else added max name value fields)
field_call max (add_call name value) fields = or_as_before fields (added max name value fields)
field_call max (get_call name) fields = (fields, value_is (get_field name fields))
field_call max (remove_call name) fields =
    (without name fields, removed (length fields - length (without name fields)))

-- What the calls return, and what the iterator gives at the end.
unfoldable pub call_all : List HeaderCall → Headers → List Outcome × Fields
unfolding call
call_all [] headers = ([], fields_of (headers.slots))
call_all (c ∷ calls) headers =
    let after = call c headers in let rest = call_all calls after.0 in (after.1 ∷ rest.0, rest.1)

unfoldable pub field_call_all : ℕ → List HeaderCall → Fields → List Outcome × Fields
unfolding field_call
field_call_all max [] fields = ([], fields)
field_call_all max (c ∷ calls) fields =
    let after = field_call max c fields in
    let rest = field_call_all max calls after.0 in (after.1 ∷ rest.0, rest.1)

-- A result on the headers beside one on the list.
abbrev Same : ℕ → Headers × Outcome → Fields × Outcome → Type 0
Same max (headers, outcome) (fields, expected) =
    (fields_of (headers.slots) ≡ fields)
    × (outcome ≡ expected)
    × (headers.capacity ≡ max)
    × All IsHashed (headers.slots)

All-append :
    (slots : List Slot) (slot : Slot)
    → All IsHashed slots
    → IsHashed slot
    → All IsHashed (slots ++ slot ∷ [])
All-append [] slot h g = (g, tt)
All-append (s ∷ slots) slot h g = (h.0, All-append slots slot h.1 g)

fields_of-append :
    (slots : List Slot) (slot : Slot)
    → fields_of (slots ++ slot ∷ []) ≡ fields_of slots ++ (slot.key, slot.value) ∷ []
fields_of-append [] slot = refl
fields_of-append (s ∷ slots) slot =
    ap (λ rest. (s.key, s.value) ∷ rest) (fields_of-append slots slot)

Same-add :
    (name value : List ℕ) (headers : Headers)
    → All IsHashed (headers.slots)
    → Same (headers.capacity) (or_as_before headers (add name value headers)) (
        or_as_before
          (fields_of (headers.slots))
          (added (headers.capacity) name value (fields_of (headers.slots))))
unfolding add
Same-add name value headers h =
    let count : length (fields_of (headers.slots)) ≡ length (headers.slots) =
      length-map _ (headers.slots) in
    rw count (elim (Bool-cases (leb (headers.capacity) (length (headers.slots)))) [
      | inl e ↦ rw e (refl, refl, refl, h)
      | inr e ↦
          rw e (fields_of-append (headers.slots) _, refl, refl, All-append (headers.slots) _ h refl)
    ])

Same-put_or_add :
    (name value : List ℕ) (headers : Headers) (o : Option (List Slot))
    → All IsHashed (headers.slots)
    → Replaces name value (headers.slots) o
    → Same
        (headers.capacity)
        (or_as_before headers (put_or_add name value headers o))
        (field_call (headers.capacity) (put_call name value) (fields_of (headers.slots)))
unfolding put_or_add field_call
Same-put_or_add name value headers none h r = rw r.1 (Same-add name value headers h)
Same-put_or_add name value headers (some slots) h r = rw r.1 (r.0, refl, refl, r.2)

Same-call :
    (c : HeaderCall) (headers : Headers)
    → All IsHashed (headers.slots)
    → Same
        (headers.capacity)
        (call c headers)
        (field_call (headers.capacity) c (fields_of (headers.slots)))
unfolding call field_call
Same-call (put_call name value) headers h =
    Same-put_or_add name value headers _ h (Replaces-replace_first name value (headers.slots) h)
Same-call (add_call name value) headers h = Same-add name value headers h
Same-call (get_call name) headers h =
    (refl, ap value_is (get_first-get_field name (headers.slots) h), refl, h)
Same-call (remove_call name) headers h =
    let kept = keep_others-without name (headers.slots) h in
    let before : length (fields_of (headers.slots)) ≡ length (headers.slots) =
      length-map _ (headers.slots) in
    let left : length (without name (fields_of (headers.slots)))
        ≡ length (keep_others (hash_fn name) name (headers.slots)) =
      sym (ap length kept.0) ∙ length-map _ (keep_others (hash_fn name) name (headers.slots)) in
    (kept.0, rw before (rw left refl), refl, kept.1)

Same-call_all :
    (calls : List HeaderCall) (max : ℕ) (headers : Headers) (fields : Fields)
    → fields_of (headers.slots) ≡ fields
    → headers.capacity ≡ max
    → All IsHashed (headers.slots)
    → call_all calls headers ≡ field_call_all max calls fields
unfolding call_all field_call_all
Same-call_all [] max headers fields e m h = ap (λ f. ([], f)) e
Same-call_all (c ∷ calls) max headers fields e m h =
    let same =
      subst (λ m. Same m (call c headers) (field_call m c fields)) m
        (subst (λ f. Same (headers.capacity) (call c headers) (field_call (headers.capacity) c f)) e
          (Same-call c headers h)) in
    let below =
      Same-call_all calls max (call c headers).0 (field_call max c fields).0 same.0 same.2 same.3 in
    rw same.1 (rw below refl)

-- Whatever calls are made on new headers, each returns what it would on a list of names and values
-- without hashes, of at most as many fields as the headers were made for and fit into memory, and
-- what is left at the end is that list: no hash hides a name that is the same but for case. On the
-- list a put changes the first field of its name or appends one, a get reads the first, and a
-- removal drops all and says how many they were.
pub call_all-field_call_all :
    (max : ℕ) (calls : List HeaderCall)
    → call_all calls (init max) ≡ field_call_all (min max max_count) calls []
call_all-field_call_all max calls =
    Same-call_all calls (min max max_count) (init max) [] refl refl tt
