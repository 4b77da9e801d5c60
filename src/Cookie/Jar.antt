-- ===== src/Cookie/Jar.antt =====
-- src/cookie.zig: what a handler reads of the cookies that it set, when a user agent stores them and
-- sends them back by RFC 6265.
use dusty.Base.{
  ℕ, suc, ◌+◌, ◌≡◌, refl, ap, ◌∙◌, Bool, true, false, List, [], ◌∷◌, ◌++◌, none, some, arith, ◌==◌,
  ==_iff, leb, if◌then◌else◌, length, Lacks, codes, bytes_eq, Bool-cases, inl, inr,
}
use dusty.Cookie.{
  starts_with, value_in, bad_in_name, bad_in_value, any_byte, one_of, validate_cookie_name,
  validate_cookie_value, quoted,
}

-- No byte of a kind stands in a text whose bytes all fail a test that the byte passes.
Lacks-any_byte :
    (test : ℕ → Bool) (b : ℕ) (bs : List ℕ) → test b ≡ true → any_byte test bs ≡ false → Lacks b bs
unfolding any_byte
Lacks-any_byte test b [] h g = tt
Lacks-any_byte test b (c ∷ cs) h g = (
  elim (Bool-cases (c == b)) [
    | inl e ↦ absurd (let bad = ap test ((==_iff c b).0 e) ∙ h in ground (arith, bad, g))
    | inr e ↦ e
  ],
  Lacks-any_byte test b cs h (ground (arith, g)),
)

pub Lacks-append : (b : ℕ) (xs ys : List ℕ) → Lacks b xs → Lacks b ys → Lacks b (xs ++ ys)
Lacks-append b [] ys h g = g
Lacks-append b (x ∷ xs) ys h g = (h.0, Lacks-append b xs ys h.1 g)

-- A byte that no name may have.
pub name-Lacks :
    (b : ℕ) (name : List ℕ) → bad_in_name b ≡ true → validate_cookie_name name ≡ true → Lacks b name
unfolding validate_cookie_name bad_in_name
name-Lacks b [] bad h = tt
name-Lacks b (c ∷ cs) bad h = Lacks-any_byte bad_in_name b (c ∷ cs) bad (ground (arith, h))

pub quoted-Lacks : (value : List ℕ) → validate_cookie_value value ≡ true → Lacks b';' (quoted value)
unfolding validate_cookie_value quoted bad_in_value one_of
quoted-Lacks value h =
    let inside : Lacks b';' value =
      Lacks-any_byte bad_in_value b';' value refl (ground (arith, h)) in
    elim (Bool-cases (any_byte (one_of (codes ", ")) value)) [
      | inl e ↦ rw e (refl, Lacks-append b';' value (b'"' ∷ []) inside (refl, tt))
      | inr e ↦ rw e inside
    ]

value_in-step :
    (c : ℕ) (name trimmed : List ℕ) → value_in (c ∷ name) (c ∷ trimmed) ≡ value_in name trimmed
unfolding value_in starts_with
value_in-step c name trimmed =
    let n : suc (length name) + 1 ≡ suc (length name + 1) = omega arith in
    let self : (c == c) ≡ true = (==_iff c c).1 refl in
    let shorter : leb (suc (length trimmed)) (suc (length name))
        ≡ leb (length trimmed) (length name) =
      ground arith in
    rw n (rw self (rw shorter refl))

value_in-other :
    (c d : ℕ) (name trimmed : List ℕ) → (d == c) ≡ false → value_in (c ∷ name) (d ∷ trimmed) ≡ none
unfolding value_in starts_with
value_in-other c d name trimmed h = ground (arith, h)

no_name : (value : List ℕ) → value_in [] (b'=' ∷ value) ≡ some value
unfolding value_in starts_with
no_name value = ground arith

longer_name : (k : ℕ) (rest : List ℕ) → (k == b'=') ≡ false → value_in [] (k ∷ rest) ≡ none
unfolding value_in starts_with
longer_name k rest h = ground (arith, h)

-- A part of the header that is a pair, against a name without an equals sign.
pub value_in-pair :
    (name key value : List ℕ)
    → Lacks b'=' name
    → Lacks b'=' key
    → value_in name (key ++ b'=' ∷ value) ≡ (if bytes_eq key name then some value else none)
unfolding bytes_eq
value_in-pair [] [] value h g = no_name value
value_in-pair [] (k ∷ key) value h g = longer_name k (key ++ b'=' ∷ value) g.0
value_in-pair (c ∷ name) [] value h g = value_in-other c b'=' name value (ground (arith, h.0))
value_in-pair (c ∷ name) (k ∷ key) value h g = elim (Bool-cases (k == c)) [
  | inl e ↦
      ap (λ d. value_in (c ∷ name) (d ∷ (key ++ b'=' ∷ value))) ((==_iff k c).0 e)
      ∙ value_in-step c name (key ++ b'=' ∷ value)
      ∙ value_in-pair name key value h.1 g.1
      ∙ rw e refl
  | inr e ↦ value_in-other c k name (key ++ b'=' ∷ value) e ∙ rw e refl
]
