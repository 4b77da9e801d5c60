-- ===== src/Session/Map.antt =====
-- src/middleware/Session.zig: the entries of a session as a map from keys to values, whose order is
-- forgotten: `remove` puts the last entry where the removed one was.
use dusty.Base.{
  ℕ, suc, ◌≡◌, refl, ap, sym, subst, ◌∙◌, Bool, true, false, List, [], ◌∷◌, ◌++◌, Option, none,
  some, arith, if◌then◌else◌, length, bytes_eq, bytes_eq_iff, Bool-cases, inl, inr, if_true,
  if_false,
}
use dusty.Session.{
  Entries, find_entry, has_zero, replace_value, also_kept, behind_first, last_first, swap_remove,
}

-- Keys that differ, and no zero byte in a key or a value.
abbrev pub IsTidy : Entries → Type 0
IsTidy [] = Unit
IsTidy ((k, v) ∷ entries) =
    (find_entry k entries ≡ none) × (has_zero k ≡ false) × (has_zero v ≡ false) × IsTidy entries

abbrev pub present : Option (List ℕ) → Bool
present none = false
present (some v) = true

bytes_eq_sym : (a b : List ℕ) → bytes_eq a b ≡ bytes_eq b a
unfolding bytes_eq
bytes_eq_sym [] [] = refl
bytes_eq_sym [] (y ∷ ys) = refl
bytes_eq_sym (x ∷ xs) [] = refl
bytes_eq_sym (x ∷ xs) (y ∷ ys) = ground (arith, bytes_eq_sym xs ys)

-- Two lists of entries that cannot be told apart by `get`.
abbrev Alike : Entries → Entries → Type 0
Alike a b = ((q : List ℕ) → find_entry q a ≡ find_entry q b) × (length a ≡ length b)

bytes_eq-common : (a b c : List ℕ) → bytes_eq a c ≡ true → bytes_eq b c ≡ true → bytes_eq a b ≡ true
bytes_eq-common a b c h g = subst (λ t. bytes_eq a t ≡ true) (sym ((bytes_eq_iff b c).0 g)) h

Alike-behind_first :
    (k v : List ℕ) (entries : Entries)
    → find_entry k entries ≡ none
    → Alike (behind_first (k, v) entries) ((k, v) ∷ entries)
unfolding find_entry
Alike-behind_first k v [] h = (λ q. refl, refl)
Alike-behind_first k v ((l, w) ∷ rest) h = (λ q. ground (arith, h, bytes_eq-common l k q), refl)

IsTidy-behind_first :
    (k v : List ℕ) (entries : Entries)
    → IsTidy ((k, v) ∷ entries)
    → IsTidy (behind_first (k, v) entries)
unfolding find_entry
IsTidy-behind_first k v [] h = h
IsTidy-behind_first k v ((l, w) ∷ rest) (fresh, kz, vz, (other, lz, wz, tidy)) =
    (ground (arith, fresh, other, bytes_eq_sym k l), lz, wz, (ground (arith, fresh), kz, vz, tidy))

Alike-last_first :
    (entries : Entries)
    → IsTidy entries
    → Alike (last_first entries) entries × IsTidy (last_first entries)
unfolding find_entry
Alike-last_first [] h = ((λ q. refl, refl), tt)
Alike-last_first ((k, v) ∷ entries) (fresh, kz, vz, tidy) =
    let ((same, long), still) = Alike-last_first entries tidy in
    let fresh1 = same k ∙ fresh in
    let (same1, long1) = Alike-behind_first k v (last_first entries) fresh1 in
    (
      (λ q. same1 q ∙ ap (λ o. if bytes_eq k q then some v else o) (same q), long1 ∙ ap suc long),
      IsTidy-behind_first k v (last_first entries) (fresh1, kz, vz, still),
    )

-- What the loop of `set` leaves.
abbrev pub IsReplaced : List ℕ → List ℕ → Entries → Option Entries → Type 0
IsReplaced key value entries none = find_entry key entries ≡ none
IsReplaced key value entries (some after) =
    (present (find_entry key entries) ≡ true)
    × (length after ≡ length entries)
    × IsTidy after
    × ((q : List ℕ)
        → find_entry q after ≡ (if bytes_eq key q then some value else find_entry q entries))

IsReplaced-also_kept :
    (key value k v : List ℕ) (entries : Entries) (later : Option Entries)
    → IsTidy ((k, v) ∷ entries)
    → bytes_eq k key ≡ false
    → IsReplaced key value entries later
    → IsReplaced key value ((k, v) ∷ entries) (also_kept (k, v) later)
unfolding find_entry
IsReplaced-also_kept key value k v entries none h e r = ground (arith, e, r)
IsReplaced-also_kept key value k v entries (some after) (fresh, kz, vz, tidy) e
      (there, long, still, found) =
    (
      ground (arith, e, there),
      ap suc long,
      (found k ∙ ground (arith, e, fresh, bytes_eq_sym k key), kz, vz, still),
      λ q. ground (arith, e, found q, bytes_eq-common k key q),
    )

pub IsReplaced-replace_value :
    (key value : List ℕ) (entries : Entries)
    → has_zero value ≡ false
    → IsTidy entries
    → IsReplaced key value entries (replace_value key value entries)
unfolding find_entry replace_value
IsReplaced-replace_value key value [] z h = refl
IsReplaced-replace_value key value ((k, v) ∷ entries) z h = elim (Bool-cases (bytes_eq k key)) [
  | inr e ↦ subst (IsReplaced key value ((k, v) ∷ entries)) (sym (if_false _ _ _ e)) (
      IsReplaced-also_kept key value k v entries _ h e
        (IsReplaced-replace_value key value entries z h.3))
  | inl e ↦
      let same = (bytes_eq_iff k key).0 e in
      subst (IsReplaced key value ((k, v) ∷ entries)) (sym (if_true _ _ _ e)) (
        ground (arith, e),
        refl,
        (h.0, h.1, z, h.3),
        λ q.
            subst
              (λ t.
                find_entry q ((k, value) ∷ entries)
                ≡ (if bytes_eq t q then some value else find_entry q ((k, v) ∷ entries)))
              same (ground arith),
      )
]

-- What the loop of `remove` leaves.
abbrev pub IsRemoved : List ℕ → Entries → Option Entries → Type 0
IsRemoved key entries none = find_entry key entries ≡ none
IsRemoved key entries (some after) =
    (present (find_entry key entries) ≡ true)
    × (suc (length after) ≡ length entries)
    × IsTidy after
    × ((q : List ℕ) → find_entry q after ≡ (if bytes_eq key q then none else find_entry q entries))

IsRemoved-also_kept :
    (key k v : List ℕ) (entries : Entries) (later : Option Entries)
    → IsTidy ((k, v) ∷ entries)
    → bytes_eq k key ≡ false
    → IsRemoved key entries later
    → IsRemoved key ((k, v) ∷ entries) (also_kept (k, v) later)
unfolding find_entry
IsRemoved-also_kept key k v entries none h e r = ground (arith, e, r)
IsRemoved-also_kept key k v entries (some after) (fresh, kz, vz, tidy) e
      (there, long, still, found) =
    (
      ground (arith, e, there),
      ap suc long,
      (found k ∙ ground (arith, e, fresh, bytes_eq_sym k key), kz, vz, still),
      λ q. ground (arith, e, found q, bytes_eq-common k key q),
    )

gone :
    (k key q : List ℕ) (v : List ℕ) (entries : Entries)
    → k ≡ key
    → find_entry k entries ≡ none
    → find_entry q entries ≡ (if bytes_eq key q then none else find_entry q ((k, v) ∷ entries))
unfolding find_entry
gone k key q v entries same fresh =
    subst
      (λ t. find_entry q entries ≡ (if bytes_eq t q then none else find_entry q ((k, v) ∷ entries)))
      same
      (elim (Bool-cases (bytes_eq k q)) [
        | inl e ↦
            subst (λ t. find_entry t entries ≡ none) ((bytes_eq_iff k q).0 e) fresh
            ∙ sym (if_true _ _ _ e)
        | inr e ↦ ground (arith, e)
      ])

pub IsRemoved-swap_remove :
    (key : List ℕ) (entries : Entries)
    → IsTidy entries
    → IsRemoved key entries (swap_remove key entries)
unfolding find_entry swap_remove
IsRemoved-swap_remove key [] h = refl
IsRemoved-swap_remove key ((k, v) ∷ entries) h = elim (Bool-cases (bytes_eq k key)) [
  | inr e ↦
      subst (IsRemoved key ((k, v) ∷ entries)) (sym (if_false _ _ _ e))
        (IsRemoved-also_kept key k v entries _ h e (IsRemoved-swap_remove key entries h.3))
  | inl e ↦
      let ((alike, long), tidy) = Alike-last_first entries h.3 in
      subst (IsRemoved key ((k, v) ∷ entries)) (sym (if_true _ _ _ e)) (
        ground (arith, e),
        ap suc long,
        tidy,
        λ q. alike q ∙ gone k key q v entries ((bytes_eq_iff k key).0 e) h.0,
      )
]

pub find_entry-append :
    (key value : List ℕ) (entries : Entries) (q : List ℕ)
    → find_entry key entries ≡ none
    → find_entry q (entries ++ (key, value) ∷ [])
      ≡ (if bytes_eq key q then some value else find_entry q entries)
unfolding find_entry
find_entry-append key value [] q h = refl
find_entry-append key value ((k, v) ∷ entries) q h = elim (Bool-cases (bytes_eq k key)) [
  | inl e ↦ absurd (ground (arith, e, h))
  | inr e ↦ ground (
    arith,
    e,
    bytes_eq-common k key q,
    find_entry-append key value entries q (sym (if_false _ _ _ e) ∙ h),
  )
]

pub IsTidy-append :
    (key value : List ℕ) (entries : Entries)
    → find_entry key entries ≡ none
    → has_zero key ≡ false
    → has_zero value ≡ false
    → IsTidy entries
    → IsTidy (entries ++ (key, value) ∷ [])
unfolding find_entry
IsTidy-append key value [] h kz vz tidy = (refl, kz, vz, tt)
IsTidy-append key value ((k, v) ∷ entries) h kz vz (fresh, z, w, tidy) =
    elim (Bool-cases (bytes_eq k key)) [
      | inl e ↦ absurd (ground (arith, e, h))
      | inr e ↦
          let absent : find_entry key entries ≡ none = sym (if_false _ _ _ e) ∙ h in
          (
            find_entry-append key value entries k absent
                ∙ if_false _ _ _ (bytes_eq_sym key k ∙ e)
                ∙ fresh,
            z,
            w,
            IsTidy-append key value entries absent kz vz tidy,
          )
    ]
