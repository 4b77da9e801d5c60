-- ===== src/Nghttp2/Extpri.antt =====
-- src/nghttp2/lib/nghttp2_extpri.c: the extensible priorities of RFC 9218 in one byte.
mod Examples
use dusty.Base.{
  ℕ, ◌+◌, ◌*◌, ◌%◌, ◌^◌, ◌<◌, bit_and, bit_or, ◌≡◌, ◌⊎◌, inl, inr, refl, ap, sym, ◌∙◌, Bool, true,
  false, ◌&&◌, List, ◌==◌, ◌!=◌, ==_iff, arith, if◌then◌else◌,
}
use dusty.Base.Bits.{IsByte, holds_below, holds_below_sound}

pub record Extpri : Type 0 where
  pub urgency : ℕ
  pub inc : ℕ

-- NGHTTP2_EXTPRI_INC_MASK
abbrev pub extpri_inc_mask : ℕ
extpri_inc_mask = 0x80

unfoldable pub extpri_to_uint8 : Extpri → ℕ
extpri_to_uint8 e = bit_or (e.inc * 128 % 2 ^ 32) (e.urgency) % 2 ^ 8

-- The complement of the mask, on a byte.
abbrev pub extpri_uint8_urgency : ℕ → ℕ
extpri_uint8_urgency pri = bit_and pri 0x7f

abbrev pub extpri_uint8_inc : ℕ → ℕ
extpri_uint8_inc pri = if bit_and pri extpri_inc_mask != 0 then 1 else 0

unfoldable pub extpri_from_uint8 : ℕ → Extpri
extpri_from_uint8 u8extpri = record {
  urgency = extpri_uint8_urgency u8extpri;
  inc = extpri_uint8_inc u8extpri;
}

abbrev packs : ℕ → ℕ → Bool
packs inc urgency =
    let byte = bit_or (inc * 128 % 2 ^ 32) urgency % 2 ^ 8 in
    extpri_uint8_urgency byte == urgency && extpri_uint8_inc byte == inc

all_pack : Bool
unfolding holds_below
all_pack = holds_below 2 (λ inc. holds_below 128 (packs inc))

all_do_pack : all_pack ≡ true
unfolding all_pack
all_do_pack = refl

left_true : (a b : Bool) → (a && b) ≡ true → a ≡ true
left_true a b h = ground (arith, h)

right_true : (a b : Bool) → (a && b) ≡ true → b ≡ true
right_true a b h = ground (arith, h)

packs-true : (inc urgency : ℕ) → inc < 2 → urgency < 128 → packs inc urgency ≡ true
unfolding all_pack
packs-true inc urgency h g =
    holds_below_sound 128 (packs inc) urgency
      (holds_below_sound 2 (λ inc. holds_below 128 (packs inc)) inc all_do_pack h) g

all_unpack : Bool
unfolding holds_below
all_unpack =
    holds_below 256
      (λ u. bit_or (extpri_uint8_inc u * 128 % 2 ^ 32) (extpri_uint8_urgency u) % 2 ^ 8 == u)

all_do_unpack : all_unpack ≡ true
unfolding all_unpack
all_do_unpack = refl

-- A priority whose urgency is below 128 and whose inc is 0 or 1 comes back from its byte, and every
-- byte comes back from its priority: nghttp2_extpri_to_uint8 and nghttp2_extpri_from_uint8 are
-- inverse to each other.
pub extpri_trip :
    (e : Extpri) (u : ℕ)
    → e.urgency < 128
    → e.inc < 2
    → IsByte u
    → (extpri_from_uint8 (extpri_to_uint8 e) ≡ e) × (extpri_to_uint8 (extpri_from_uint8 u) ≡ u)
unfolding extpri_to_uint8 extpri_from_uint8 all_unpack
extpri_trip e u h g k =
    let packed = packs-true (e.inc) (e.urgency) g h in
    let same_urgency = (==_iff _ _).0 (left_true _ _ packed) in
    let same_inc = (==_iff _ _).0 (right_true _ _ packed) in
    (
      ap (λ n. record { urgency = n; inc = extpri_uint8_inc (extpri_to_uint8 e) }) same_urgency
          ∙ ap (λ n. record { urgency = e.urgency; inc = n }) same_inc,
      (==_iff _ _).0 (
          holds_below_sound 256
            (λ u. bit_or (extpri_uint8_inc u * 128 % 2 ^ 32) (extpri_uint8_urgency u) % 2 ^ 8 == u)
            u all_do_unpack k),
    )
