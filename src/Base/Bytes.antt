-- ===== src/Base/Bytes.antt =====
-- Byte strings: equality, equality without regard to case, and splitting at a byte.
use Prim.Native.Char.{code}
use Prim.Native.String.{String}
use Prim.Native.Nat.{ℕ, ◌+◌}
use mathlib.Core.Path.{◌≡◌, refl}
use mathlib.Core.Logic.{◌↔◌}
use mathlib.Core.Bool.{Bool, true, false, ◌&&◌}
use mathlib.Core.List.{List, [], ◌∷◌, ◌++◌}
use mathlib.Core.Option.{Option, none, some}
use native.Mathlib.Omega.{arith}
use dusty.Base.Tests.{◌==◌, leb, if◌then◌else◌}
use dusty.Base.Lists.{All}

-- The bytes of an ASCII text.
abbrev pub codes : String → List ℕ
codes String.[] = []
codes (String.◌∷◌ c s) = code c ∷ codes s

-- `std.mem.eql`
unfoldable pub bytes_eq : List ℕ → List ℕ → Bool
bytes_eq [] [] = true
bytes_eq [] (b ∷ bs) = false
bytes_eq (a ∷ as1) [] = false
bytes_eq (a ∷ as1) (b ∷ bs) = a == b && bytes_eq as1 bs

pub bytes_eq_iff : (xs ys : List ℕ) → (bytes_eq xs ys ≡ true) ↔ (xs ≡ ys)
unfolding bytes_eq
bytes_eq_iff [] [] = ground arith
bytes_eq_iff [] (y ∷ ys) = ground arith
bytes_eq_iff (x ∷ xs) [] = ground arith
bytes_eq_iff (x ∷ xs) (y ∷ ys) = ground (arith, bytes_eq_iff xs ys)

pub bytes_eq_self : (xs : List ℕ) → bytes_eq xs xs ≡ true
bytes_eq_self xs = (bytes_eq_iff xs xs).1 refl

-- `std.mem.splitScalar`: one part more than there are separators.
unfoldable pub push_first : ℕ → List (List ℕ) → List (List ℕ)
push_first b [] = (b ∷ []) ∷ []
push_first b (part ∷ parts) = (b ∷ part) ∷ parts

unfoldable pub split_scalar : ℕ → List ℕ → List (List ℕ)
unfolding push_first
split_scalar separator [] = [] ∷ []
split_scalar separator (b ∷ bs) =
    let parts = split_scalar separator bs in
    if b == separator then [] ∷ parts else push_first b parts

-- What stands before and after the first byte of a kind: `std.mem.indexOfScalar` and two slices.
also_before : ℕ → Option (List ℕ × List ℕ) → Option (List ℕ × List ℕ)
also_before b none = none
also_before b (some (before, after)) = some (b ∷ before, after)

unfoldable pub cut_at : ℕ → List ℕ → Option (List ℕ × List ℕ)
unfolding also_before
cut_at separator [] = none
cut_at separator (b ∷ bs) =
    let later = cut_at separator bs in if b == separator then some ([], bs) else also_before b later

abbrev pub Lacks : ℕ → List ℕ → Type 0
Lacks separator = All (λ b. (b == separator) ≡ false)

pub cut_at-append :
    (separator : ℕ) (before after : List ℕ)
    → Lacks separator before
    → cut_at separator (before ++ separator ∷ after) ≡ some (before, after)
unfolding cut_at also_before
cut_at-append separator [] after h = ground arith
cut_at-append separator (b ∷ bs) after h = rw h.0 (rw (cut_at-append separator bs after h.1))

pub cut_at-none : (separator : ℕ) (bs : List ℕ) → Lacks separator bs → cut_at separator bs ≡ none
unfolding cut_at also_before
cut_at-none separator [] h = refl
cut_at-none separator (b ∷ bs) h = rw h.0 (rw (cut_at-none separator bs h.1))

pub split_scalar-Lacks :
    (separator : ℕ) (part : List ℕ) → Lacks separator part → split_scalar separator part ≡ part ∷ []
unfolding split_scalar push_first
split_scalar-Lacks separator [] h = refl
split_scalar-Lacks separator (b ∷ bs) h = rw h.0 (rw (split_scalar-Lacks separator bs h.1))

pub split_scalar-append :
    (separator : ℕ) (part rest : List ℕ)
    → Lacks separator part
    → split_scalar separator (part ++ separator ∷ rest) ≡ part ∷ split_scalar separator rest
unfolding split_scalar push_first
split_scalar-append separator [] rest h = ground arith
split_scalar-append separator (b ∷ bs) rest h =
    rw h.0 (rw (split_scalar-append separator bs rest h.1))

-- `std.ascii.toLower` and `std.ascii.eqlIgnoreCase`
abbrev pub to_lower : ℕ → ℕ
to_lower b = if leb b'A' b && leb b b'Z' then b + 32 else b

unfoldable pub eql_ignore_case : List ℕ → List ℕ → Bool
eql_ignore_case [] [] = true
eql_ignore_case [] (b ∷ bs) = false
eql_ignore_case (a ∷ as1) [] = false
eql_ignore_case (a ∷ as1) (b ∷ bs) = to_lower a == to_lower b && eql_ignore_case as1 bs

abbrev pub lowered : List ℕ → List ℕ
lowered [] = []
lowered (b ∷ bs) = to_lower b ∷ lowered bs

pub eql_ignore_case_iff :
    (xs ys : List ℕ) → (eql_ignore_case xs ys ≡ true) ↔ (lowered xs ≡ lowered ys)
unfolding eql_ignore_case
eql_ignore_case_iff [] [] = ground arith
eql_ignore_case_iff [] (y ∷ ys) = ground arith
eql_ignore_case_iff (x ∷ xs) [] = ground arith
eql_ignore_case_iff (x ∷ xs) (y ∷ ys) = ground (arith, eql_ignore_case_iff xs ys)
