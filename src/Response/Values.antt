-- ===== src/Response/Values.antt =====
-- src/http.zig, `validateHeaderValue`: texts that may be the value of a field.
use dusty.Base.{
  ℕ, zero, suc, ◌%◌, ◌/◌, ◌≡◌, refl, true, ◌&&◌, List, [], ◌∷◌, ◌++◌, arith, ltb, if_true, if_false,
  Bool-cases, inl, inr, sym, subst,
}
use dusty.Response.{validate_header_value, digits, digit, decimal}

pub validate_header_value-append :
    (xs ys : List ℕ)
    → validate_header_value (xs ++ ys) ≡ (validate_header_value xs && validate_header_value ys)
unfolding validate_header_value
validate_header_value-append [] ys = refl
validate_header_value-append (x ∷ xs) ys = ground (arith, validate_header_value-append xs ys)

validate_header_value-digits :
    (fuel n : ℕ) (behind : List ℕ)
    → validate_header_value behind ≡ true
    → validate_header_value (digits 10 fuel n behind) ≡ true
unfolding digits validate_header_value
validate_header_value-digits zero n behind h = h
validate_header_value-digits (suc fuel) n behind h =
    let here : validate_header_value (digit (n % 10) ∷ behind) ≡ true = ground (arith, h) in
    elim (Bool-cases (ltb n 10)) [
      | inl e ↦ subst (λ t. validate_header_value t ≡ true) (sym (if_true _ _ _ e)) here
      | inr e ↦
          subst (λ t. validate_header_value t ≡ true) (sym (if_false _ _ _ e))
            (validate_header_value-digits fuel (n / 10) (digit (n % 10) ∷ behind) here)
    ]

pub validate_header_value-decimal : (n : ℕ) → validate_header_value (decimal n) ≡ true
unfolding decimal validate_header_value
validate_header_value-decimal n = validate_header_value-digits (suc n) n [] refl
