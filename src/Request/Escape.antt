-- ===== src/Request/Escape.antt =====
-- What src/request.zig's `urlUnescape` reads: the texts in which any byte may be written as itself,
-- as a percent sign and two hexadecimal digits or, for a space, as a plus.
use dusty.Base.{
  ℕ, zero, suc, ◌+◌, ◌-◌, ◌*◌, ◌%◌, ◌≤◌, ◌<◌, bit_or, ◌≡◌, refl, ap, sym, ◌∙◌, ◌⊎◌, inl, inr, Bool,
  true, false, ◌||◌, List, [], ◌∷◌, ==_iff, Bool-cases, some, arith, ◌==◌, if◌then◌else◌, length,
}
use dusty.Base.Bits.{holds_below, holds_below_sound}
use dusty.Request.{is_hex, decode_hex, scan, decode, unescaped, url_unescape}

-- The number that a hexadecimal digit of either case stands for.
abbrev pub Digit : ℕ → ℕ → Type 0
Digit n c =
    ((n < 10) × (c ≡ n + b'0'))
    ⊎ ((10 ≤ n) × (n < 16) × (c + 10 ≡ n + b'A'))
    ⊎ ((10 ≤ n) × (n < 16) × (c + 10 ≡ n + b'a'))

pub data Escapes : List ℕ → List ℕ → Type 0 where
  done : Escapes [] []
  plain :
      {s e : List ℕ} (b : ℕ)
      → (b == b'%') ≡ false
      → (b == b'+') ≡ false
      → Escapes s e
      → Escapes (b ∷ s) (b ∷ e)
  space : {s e : List ℕ} → Escapes s e → Escapes (b' ' ∷ s) (b'+' ∷ e)
  escaped :
      {s e : List ℕ} (h l hc lc : ℕ)
      → Digit h hc
      → Digit l lc
      → Escapes s e
      → Escapes ((16 * h + l) ∷ s) (b'%' ∷ hc ∷ lc ∷ e)

decode_hex-Digit : (n c : ℕ) → Digit n c → decode_hex c ≡ n
unfolding decode_hex
decode_hex-Digit n c d = ground (arith, d)

is_hex-Digit : (n c : ℕ) → Digit n c → is_hex c ≡ true
unfolding is_hex
is_hex-Digit n c d = ground (arith, d)

Digit-bound : (n c : ℕ) → Digit n c → n < 16
Digit-bound n c d = ground (arith, d)

nibbles_agree : Bool
unfolding holds_below
nibbles_agree = holds_below 16 (λ h. holds_below 16 (λ l. bit_or (h * 16 % 256) l == 16 * h + l))

nibbles_do_agree : nibbles_agree ≡ true
unfolding nibbles_agree
nibbles_do_agree = refl

nibbles : (h l : ℕ) → h < 16 → l < 16 → bit_or (h * 16 % 256) l ≡ 16 * h + l
unfolding nibbles_agree
nibbles h l a b = (==_iff _ _).0 (
    holds_below_sound 16 (λ l. bit_or (h * 16 % 256) l == 16 * h + l) l
      (holds_below_sound 16 (λ h. holds_below 16 (λ l. bit_or (h * 16 % 256) l == 16 * h + l)) h
        nibbles_do_agree a)
      b)

length-Escapes : {s e : List ℕ} → Escapes s e → length s ≤ length e
length-Escapes done = omega arith
length-Escapes (plain b p q x) = omega (arith, length-Escapes x)
length-Escapes (space x) = omega (arith, length-Escapes x)
length-Escapes (escaped h l hc lc dh dl x) = omega (arith, length-Escapes x)

scan-plain :
    (b : ℕ) (e : List ℕ) (n : ℕ) (p : Bool)
    → (b == b'%') ≡ false
    → scan (b ∷ e) n p ≡ scan e n (p || b == b'+')
unfolding scan
scan-plain b [] n p h = rw h
scan-plain b (c ∷ []) n p h = rw h
scan-plain b (c ∷ d ∷ e) n p h = rw h

decode-plain :
    (b : ℕ) (e : List ℕ) (n : ℕ)
    → (b == b'%') ≡ false
    → decode (suc n) (b ∷ e) ≡ (if b == b'+' then b' ' else b) ∷ decode n e
unfolding decode
decode-plain b [] zero h = refl
decode-plain b [] (suc n) h = refl
decode-plain b (c ∷ []) n h = refl
decode-plain b (c ∷ d ∷ e) n h = rw h

||-false : (p : Bool) → (p || false) ≡ p
||-false p = ground arith

-- What the first loop finds: the length of what was escaped and, with no plus and nothing shortened,
-- the text itself.
abbrev Scanned : List ℕ → List ℕ → Type 0
Scanned s e =
    (q : Bool) × ((k : ℕ) (p : Bool) → scan e (k + length e) p ≡ some (k + length s, p || q))
    × (q ≡ false → length s ≡ length e → s ≡ e)

||-true : (p : Bool) → (p || true) ≡ true
||-true p = ground arith

shift : (k n : ℕ) → k + suc n ≡ suc k + n
shift k n = omega arith

by_plain :
    (b : ℕ) (e s : List ℕ) (k : ℕ) (p q : Bool)
    → (b == b'%') ≡ false
    → (b == b'+') ≡ false
    → scan e (suc k + length e) p ≡ some (suc k + length s, p || q)
    → scan (b ∷ e) (k + suc (length e)) p ≡ some (k + suc (length s), p || q)
by_plain b e s k p q h g below =
    scan-plain b e (k + suc (length e)) p h
    ∙ rw g (rw (||-false p) (rw (shift k (length e)) (rw (shift k (length s)) below)))

by_plus :
    (e s : List ℕ) (k : ℕ) (p q : Bool)
    → scan e (suc k + length e) true ≡ some (suc k + length s, true || q)
    → scan (b'+' ∷ e) (k + suc (length e)) p ≡ some (k + suc (length s), p || true)
by_plus e s k p q below =
    scan-plain b'+' e (k + suc (length e)) p refl
    ∙ rw (||-true p) (rw (shift k (length e)) (rw (shift k (length s)) below))

by_escape :
    (e s : List ℕ) (k : ℕ) (p q : Bool) (hc lc : ℕ)
    → is_hex hc ≡ true
    → is_hex lc ≡ true
    → scan e (suc k + length e) p ≡ some (suc k + length s, p || q)
    → scan (b'%' ∷ hc ∷ lc ∷ e) (k + length (b'%' ∷ hc ∷ lc ∷ e)) p
      ≡ some (k + suc (length s), p || q)
unfolding scan
by_escape e s k p q hc lc h l below =
    let i : k + suc (suc (suc (length e))) - 2 ≡ suc k + length e = omega arith in
    rw h (rw l (rw i (rw (shift k (length s)) below)))

scan-Escapes : {s e : List ℕ} → Escapes s e → Scanned s e
unfolding scan
scan-Escapes done = (false, λ k p. ap (λ q. some (k + 0, q)) (sym (||-false p)), λ q h. refl)
scan-Escapes (plain {s = s} {e = e} b p q x) =
    let below = scan-Escapes x in
    (
      below.0,
      (λ k p'. by_plain b e s k p' below.0 p q (below.1 (suc k) p')),
      λ r h. ap (λ t. b ∷ t) (below.2 r (omega (arith, h))),
    )
scan-Escapes (space {s = s} {e = e} x) =
    let below = scan-Escapes x in
    (
      true,
      (λ k p. by_plus e s k p below.0 (below.1 (suc k) true)),
      λ r h. absurd (ground (arith, r)),
    )
scan-Escapes (escaped {s = s} {e = e} h l hc lc dh dl x) =
    let below = scan-Escapes x in
    (
      below.0,
      (λ k p.
          by_escape e s k p below.0 hc lc (is_hex-Digit h hc dh) (is_hex-Digit l lc dl)
            (below.1 (suc k) p)),
      λ r g. absurd (omega (arith, g, length-Escapes x)),
    )

decode-Escapes : {s e : List ℕ} → Escapes s e → decode (length s) e ≡ s
unfolding decode
decode-Escapes done = refl
decode-Escapes (plain {s = s} {e = e} b p q x) =
    decode-plain b e (length s) p ∙ rw q (ap (λ t. b ∷ t) (decode-Escapes x))
decode-Escapes (space {s = s} {e = e} x) =
    decode-plain b'+' e (length s) refl ∙ ap (λ t. b' ' ∷ t) (decode-Escapes x)
decode-Escapes (escaped {s = s} {e = e} h l hc lc dh dl x) = rw (decode_hex-Digit h hc dh) (
    rw (decode_hex-Digit l lc dl) (
      rw (nibbles h l (Digit-bound h hc dh) (Digit-bound l lc dl))
        (ap (λ t. (16 * h + l) ∷ t) (decode-Escapes x))))

unescaped-scanned :
    (s e : List ℕ) (q : Bool)
    → decode (length s) e ≡ s
    → (q ≡ false → length s ≡ length e → s ≡ e)
    → unescaped e (some (length s, q)) ≡ some s
unescaped-scanned s e true d same = ground (arith, d)
unescaped-scanned s e false d same = elim (Bool-cases (length s == length e)) [
  | inl h ↦ rw h (ap some (sym (same refl ((==_iff _ _).0 h))))
  | inr h ↦ rw h (ap some d)
]

-- `urlUnescape` reads back every text that was escaped, whichever bytes were and in whichever case.
pub url_unescape-Escapes : (s e : List ℕ) → Escapes s e → url_unescape e ≡ some s
unfolding url_unescape
url_unescape-Escapes s e x =
    let scanned = scan-Escapes x in
    let z : (n : ℕ) → n ≡ 0 + n = λ n. omega arith in
    ap (λ n. unescaped e (scan e n false)) (z (length e))
    ∙ ap (unescaped e) (scanned.1 0 false)
    ∙ ap (λ n. unescaped e (some (n, scanned.0))) (sym (z (length s)))
    ∙ unescaped-scanned s e scanned.0 (decode-Escapes x) scanned.2
