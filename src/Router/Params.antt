-- ===== src/Router/Params.antt =====
-- src/http.zig, `Params`: a string map, as a list of keys and values with each key once.
use dusty.Base.{
  ℕ, suc, ◌≤◌, ◌≡◌, refl, false, List, [], ◌∷◌, Option, none, some, arith, if◌then◌else◌, length,
  bytes_eq, bytes_eq_self, bytes_eq_iff, Bool-cases, inl, inr,
}

abbrev pub Params : Type 0
Params = List (List ℕ × List ℕ)

unfoldable pub get : List ℕ → Params → Option (List ℕ)
get name [] = none
get name ((k, v) ∷ ps) = if bytes_eq k name then some v else get name ps

unfoldable pub remove : List ℕ → Params → Params
remove name [] = []
remove name ((k, v) ∷ ps) =
    let rest = remove name ps in if bytes_eq k name then rest else (k, v) ∷ rest

-- The order of a hash map is not observed here: the newest entry stands in front.
unfoldable pub put : List ℕ → List ℕ → Params → Params
unfolding remove
put name value ps = (name, value) ∷ remove name ps

-- The first map has entries of the second, in their order.
pub data Within : Params → Params → Type 0 where
  none_of : Within [] []
  keep : {ps qs : Params} (e : List ℕ × List ℕ) → Within ps qs → Within (e ∷ ps) (e ∷ qs)
  skip : {ps qs : Params} (e : List ℕ × List ℕ) → Within ps qs → Within ps (e ∷ qs)

pub Within-refl : (ps : Params) → Within ps ps
Within-refl [] = none_of
Within-refl (e ∷ ps) = keep e (Within-refl ps)

pub Within-trans : {ps qs rs : Params} → Within ps qs → Within qs rs → Within ps rs
Within-trans a none_of = a
Within-trans (keep e a) (keep _ b) = keep e (Within-trans a b)
Within-trans (skip e a) (keep _ b) = skip e (Within-trans a b)
Within-trans a (skip e b) = skip e (Within-trans a b)

pub length-Within : {ps qs : Params} → Within ps qs → length ps ≤ length qs
length-Within none_of = omega arith
length-Within (keep e a) = omega (arith, length-Within a)
length-Within (skip e a) = omega (arith, length-Within a)

pub remove-Within : (name : List ℕ) (ps : Params) → Within (remove name ps) ps
unfolding remove
remove-Within name [] = none_of
remove-Within name ((k, v) ∷ ps) = elim (Bool-cases (bytes_eq k name)) [
  | inl h ↦ rw h (skip (k, v) (remove-Within name ps))
  | inr h ↦ rw h (keep (k, v) (remove-Within name ps))
]

remove_mono :
    (name : List ℕ) {ps qs : Params} → Within ps qs → Within (remove name ps) (remove name qs)
unfolding remove
remove_mono name none_of = none_of
remove_mono name (keep (k, v) a) = elim (Bool-cases (bytes_eq k name)) [
  | inl h ↦ rw h (remove_mono name a)
  | inr h ↦ rw h (keep (k, v) (remove_mono name a))
]
remove_mono name (skip (k, v) a) = elim (Bool-cases (bytes_eq k name)) [
  | inl h ↦ rw h (remove_mono name a)
  | inr h ↦ rw h (skip (k, v) (remove_mono name a))
]

pub length-put : (name value : List ℕ) (ps : Params) → length (put name value ps) ≤ suc (length ps)
unfolding put
length-put name value ps = omega (arith, length-Within (remove-Within name ps))

unput :
    (name value : List ℕ) (ps : Params) → Within (remove name ((name, value) ∷ remove name ps)) ps
unfolding remove
unput name value ps =
    rw (bytes_eq_self name)
      (Within-trans (remove-Within name (remove name ps)) (remove-Within name ps))

-- What is left of a map with a new entry, when the entry is taken out, was in the map.
pub remove-put :
    (name value : List ℕ) (ps qs : Params)
    → Within qs (put name value ps)
    → Within (remove name qs) ps
unfolding put
remove-put name value ps qs a = Within-trans (remove_mono name a) (unput name value ps)

pub get-remove :
    (name other : List ℕ) (ps : Params)
    → bytes_eq name other ≡ false
    → get other (remove name ps) ≡ get other ps
unfolding get remove
get-remove name other [] h = refl
get-remove name other ((k, v) ∷ ps) h = ground (
  arith,
  bytes_eq_iff k name,
  bytes_eq_iff k other,
  bytes_eq_iff name other,
  get-remove name other ps h,
)

pub get-put :
    (name value other : List ℕ) (ps : Params)
    → get other (put name value ps) ≡ (if bytes_eq name other then some value else get other ps)
unfolding get put
get-put name value other ps = elim (Bool-cases (bytes_eq name other)) [
  | inl h ↦ rw h refl
  | inr h ↦ rw h (get-remove name other ps h)
]
