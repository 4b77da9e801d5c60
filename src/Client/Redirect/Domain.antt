-- ===== src/Client/Redirect/Domain.antt =====
-- src/client.zig, `isDomainOrSubdomain`: the hosts that keep the credentials of a request.
use dusty.Base.{
  ℕ, ◌≤◌, zero, suc, ltb, ◌+◌, ◌-◌, ◌≡◌, ◌⊎◌, ◌↔◌, refl, ap, sym, ◌∙◌, true, false, List, [], ◌∷◌,
  ◌++◌, arith, ==_iff, leb, length, take, drop, get_or, lowered, eql_ignore_case,
  eql_ignore_case_iff, codes, Bool-cases, inl, inr, if_true, if_false, length-append, length-take,
}
use dusty.Cookie.{any_byte, one_of}
use dusty.Client.Redirect.{is_domain_or_subdomain}

-- A name of at least one byte, a dot, and the parent in some case, where no byte is a colon or a
-- percent.
abbrev pub IsBelow : List ℕ → List ℕ → Type 0
IsBelow sub parent =
    (any_byte (one_of (codes ":%")) sub ≡ false)
    × ((b : ℕ) × (label : List ℕ) × (rest : List ℕ) × (sub ≡ (b ∷ label) ++ b'.' ∷ rest)
        × (lowered rest ≡ lowered parent))

length-lowered : (xs : List ℕ) → length (lowered xs) ≡ length xs
length-lowered [] = refl
length-lowered (b ∷ bs) = ap suc (length-lowered bs)

get_or-append :
    (xs : List ℕ) (b : ℕ) (ys : List ℕ) (n : ℕ) → length xs ≡ n → get_or (xs ++ b ∷ ys) n 0 ≡ b
get_or-append [] b ys zero h = refl
get_or-append [] b ys (suc n) h = absurd (omega (arith, h))
get_or-append (x ∷ xs) b ys zero h = absurd (omega (arith, h))
get_or-append (x ∷ xs) b ys (suc n) h = get_or-append xs b ys n (omega (arith, h))

drop-behind :
    (xs : List ℕ) (b : ℕ) (ys : List ℕ) (n : ℕ) → suc (length xs) ≡ n → drop n (xs ++ b ∷ ys) ≡ ys
drop-behind [] b ys zero h = absurd (omega (arith, h))
drop-behind [] b ys (suc zero) h = refl
drop-behind [] b ys (suc (suc n)) h = absurd (omega (arith, h))
drop-behind (x ∷ xs) b ys zero h = absurd (omega (arith, h))
drop-behind (x ∷ xs) b ys (suc n) h = drop-behind xs b ys n (omega (arith, h))

-- A list around one of its elements.
split_at :
    (xs : List ℕ) (n : ℕ)
    → ltb n (length xs) ≡ true
    → xs ≡ take n xs ++ get_or xs n 0 ∷ drop (suc n) xs
split_at [] zero h = absurd (ground (arith, h))
split_at [] (suc n) h = absurd (ground (arith, h))
split_at (x ∷ xs) zero h = refl
split_at (x ∷ xs) (suc n) h = ap (λ t. x ∷ t) (split_at xs n (ground (arith, h)))

IsBelow-is_domain_or_subdomain :
    (sub parent : List ℕ)
    → eql_ignore_case sub parent ≡ false
    → IsBelow sub parent
    → is_domain_or_subdomain sub parent ≡ true
unfolding is_domain_or_subdomain
IsBelow-is_domain_or_subdomain sub parent other (plain, (b, label, rest, same, lower)) =
    let front = b ∷ label in
    let sizes = ap length same ∙ length-append front (b'.' ∷ rest) in
    let equal : length rest ≡ length parent =
      sym (length-lowered rest) ∙ ap length lower ∙ length-lowered parent in
    let at : length sub - length parent - 1 ≡ length front = omega (arith, sizes, equal) in
    let dot : get_or sub (length sub - length parent - 1) 0 ≡ b'.' =
      ap (λ n. get_or sub n 0) at
      ∙ ap (λ t. get_or t (length front) 0) same
      ∙ get_or-append front b'.' rest (length front) refl in
    let behind : drop (length sub - length parent - 1 + 1) sub ≡ rest =
      ap (λ t. drop (length sub - length parent - 1 + 1) t) same
      ∙ drop-behind front b'.' rest _ (omega (arith, at)) in
    let ends : eql_ignore_case (drop (length sub - length parent - 1 + 1) sub) parent ≡ true =
      (eql_ignore_case_iff _ parent).1 (ap lowered behind ∙ lower) in
    if_false _ _ _ other
    ∙ if_false _ _ _ plain
    ∙ if_false (leb (length sub) (length parent + 1)) _ _ (ground (arith, sizes, equal))
    ∙ rw ((==_iff _ b'.').1 dot) ends

starts-IsBelow :
    (front sub : List ℕ) (dot : ℕ) (behind parent : List ℕ)
    → any_byte (one_of (codes ":%")) sub ≡ false
    → sub ≡ front ++ dot ∷ behind
    → 1 ≤ length front
    → dot ≡ b'.'
    → lowered behind ≡ lowered parent
    → IsBelow sub parent
starts-IsBelow [] sub dot behind parent plain same one is lower = absurd (omega (arith, one))
starts-IsBelow (b ∷ label) sub dot behind parent plain same one is lower =
    (plain, (b, label, behind, same ∙ ap (λ d. (b ∷ label) ++ d ∷ behind) is, lower))

is_domain_or_subdomain-IsBelow :
    (sub parent : List ℕ)
    → eql_ignore_case sub parent ≡ false
    → is_domain_or_subdomain sub parent ≡ true
    → IsBelow sub parent
unfolding is_domain_or_subdomain
is_domain_or_subdomain-IsBelow sub parent other h =
    elim (Bool-cases (any_byte (one_of (codes ":%")) sub)) [
      | inl e ↦
          absurd (let no = sym (if_false _ _ _ other ∙ if_true _ _ _ e) ∙ h in ground (arith, no))
      | inr e ↦ elim (Bool-cases (leb (length sub) (length parent + 1))) [
        | inl f ↦ absurd (
            let no = sym (if_false _ _ _ other ∙ if_false _ _ _ e ∙ if_true _ _ _ f) ∙ h in
            ground (arith, no))
        | inr f ↦
            let both = sym (if_false _ _ _ other ∙ if_false _ _ _ e ∙ if_false _ _ _ f) ∙ h in
            let n = length sub - length parent - 1 in
            let step : n + 1 ≡ suc n = omega arith in
            let front = length-take n sub in
            let lower = (eql_ignore_case_iff (drop (n + 1) sub) parent).0 (ground (arith, both)) in
            starts-IsBelow (take n sub) sub (get_or sub n 0) (drop (suc n) sub) parent e
              (split_at sub n (ground (arith, f))) (ground (arith, f, front)) (ground (arith, both))
              (ap (λ k. lowered (drop k sub)) (sym step) ∙ lower)
      ]
    ]

-- A host counts as the parent or one of its subdomains exactly if it is the parent's name in some
-- case, or if no byte of it is a colon or a percent sign and it is a label of at least one byte, a
-- dot and the parent's name in some case: a name that only ends with the parent's is refused, and
-- an address of IPv6 is only itself.
pub is_domain_or_subdomain_iff :
    (sub parent : List ℕ)
    → (is_domain_or_subdomain sub parent ≡ true)
      ↔ ((lowered sub ≡ lowered parent) ⊎ IsBelow sub parent)
unfolding is_domain_or_subdomain
is_domain_or_subdomain_iff sub parent = elim (Bool-cases (eql_ignore_case sub parent)) [
  | inl e ↦ (λ h. inl ((eql_ignore_case_iff sub parent).0 e), λ h. if_true _ _ _ e)
  | inr e ↦ (
    λ h. inr (is_domain_or_subdomain-IsBelow sub parent e h),
    λ h. elim h [
      | inl same ↦ if_true _ _ _ ((eql_ignore_case_iff sub parent).1 same)
      | inr below ↦ IsBelow-is_domain_or_subdomain sub parent e below
    ],
  )
]
