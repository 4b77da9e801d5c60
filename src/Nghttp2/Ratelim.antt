-- ===== src/Nghttp2/Ratelim.antt =====
-- nghttp2_ratelim.c: the token bucket that limits the rate of frames from a peer.
pub mod Bounds
mod Examples
use dusty.Base.{
  ℕ, ◌+◌, ◌-◌, ◌*◌, ◌/◌, ◌%◌, ◌^◌, ◌≤◌, ◌<◌, ◌≡◌, refl, Bool, true, false, min, ltb, ◌==◌,
  if◌then◌else◌, arith, List, [], ◌∷◌,
}

pub record Ratelim : Type 0 where
  pub burst : ℕ
  pub rate : ℕ
  pub val : ℕ
  pub tstamp : ℕ

abbrev pub uint64_max : ℕ
uint64_max = 2 ^ 64 - 1

unfoldable pub ratelim_init : ℕ → ℕ → Ratelim
ratelim_init burst rate = record { burst = burst; rate = rate; val = burst; tstamp = 0 }

-- The time that an update counts: a clock that goes back counts as one second.
abbrev pub elapsed : Ratelim → ℕ → ℕ
elapsed rl tstamp = if ltb rl.tstamp tstamp then tstamp - rl.tstamp else 1

abbrev pub regain : Ratelim → ℕ → ℕ
regain rl d =
    let gain = rl.rate * d % 2 ^ 64 in
    if ltb (uint64_max / d) rl.rate
    then rl.burst
    else if ltb (uint64_max - gain) rl.val
    then rl.burst
    else min ((rl.val + gain) % 2 ^ 64) rl.burst

unfoldable pub ratelim_update : Ratelim → ℕ → Ratelim
ratelim_update rl tstamp =
    if tstamp == rl.tstamp
    then rl
    else record rl { tstamp = tstamp; val = regain rl (elapsed rl tstamp) }

-- The result and the limiter: `true` for 0, `false` for -1.
unfoldable pub ratelim_drain : Ratelim → ℕ → Bool × Ratelim
ratelim_drain rl n = if ltb rl.val n then (false, rl) else (true, record rl { val = rl.val - n })

pub record IsBucket (rl : Ratelim) : Type 0 where
  pub burst : rl.burst < 2 ^ 64
  pub rate : rl.rate < 2 ^ 64
  pub val : rl.val ≤ rl.burst
