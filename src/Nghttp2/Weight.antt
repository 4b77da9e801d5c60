-- ===== src/Nghttp2/Weight.antt =====
-- nghttp2_priority_spec.c: the default priority and the range of weights.
use dusty.Base.{ℕ, ◌^◌, ◌≤◌, ◌≡◌, Bool, ◌&&◌, ◌||◌, ltb, leb, ◌==◌, if◌then◌else◌, arith}
use dusty.Nghttp2.Frame.{PrioritySpec}

abbrev pub default_weight : ℕ
default_weight = 16

abbrev pub max_weight : ℕ
max_weight = 256

abbrev pub min_weight : ℕ
min_weight = 1

unfoldable pub priority_spec_default_init : PrioritySpec
priority_spec_default_init = record { stream_id = 0; weight = default_weight; exclusive = 0 }

unfoldable pub priority_spec_check_default : PrioritySpec → Bool
priority_spec_check_default s = s.stream_id == 0 && (s.weight == default_weight && s.exclusive == 0)

-- The weight is an `int32_t`: a bit pattern from 2 ^ 31 on is negative, so it is below the least.
unfoldable pub priority_spec_normalize_weight : PrioritySpec → PrioritySpec
priority_spec_normalize_weight s =
    if leb (2 ^ 31) s.weight || ltb s.weight min_weight
    then record s { weight = min_weight }
    else if ltb max_weight s.weight
    then record s { weight = max_weight }
    else s

-- A normalized weight is one that the byte of a frame can carry: it is from 1 to 256, a weight that
-- was in this range already is unchanged, and normalizing again changes nothing.
pub priority_spec_normalize_weight-range :
    (s : PrioritySpec)
    → let v = priority_spec_normalize_weight s in
      (1 ≤ v.weight)
      × (v.weight ≤ 256)
      × (1 ≤ s.weight → s.weight ≤ 256 → v.weight ≡ s.weight)
      × ((priority_spec_normalize_weight v).weight ≡ v.weight)
unfolding priority_spec_normalize_weight
priority_spec_normalize_weight-range s =
    (ground arith, ground arith, λ l h. ground (arith, l, h), ground arith)
