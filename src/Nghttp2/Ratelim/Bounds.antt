-- ===== src/Nghttp2/Ratelim/Bounds.antt =====
-- nghttp2_ratelim.c: its arithmetic does not overflow, and it bounds what is drained.
use native.Mathlib.Nat.{div-lt_iff_lt-mul}
use dusty.Base.{
  ℕ, ◌+◌, ◌-◌, ◌*◌, ◌/◌, ◌^◌, ◌≤◌, ◌<◌, ◌≡◌, refl, ap, sym, ◌∙◌, subst, Bool, true, false, min, ltb,
  ◌==◌, if◌then◌else◌, arith, List, [], ◌∷◌, Bool-cases, inl, inr, ltb→lt, if_true, if_false,
}
use dusty.Nghttp2.Ratelim.{
  Ratelim, IsBucket, uint64_max, elapsed, regain, ratelim_update, ratelim_drain,
}

small_product : (rate d : ℕ) → 0 < d → ltb (uint64_max / d) rate ≡ false → rate * d < 2 ^ 64
small_product rate d pos h = elim (Bool-cases (ltb (2 ^ 64 - 1) (rate * d))) [
  | inl big ↦ absurd (
      ground
        (arith, h, (div-lt_iff_lt-mul {k = d} {x = uint64_max} {y = rate} pos).1 (ltb→lt _ _ big)))
  | inr fits ↦ ground (arith, fits)
]

large_product : (rate d : ℕ) → 0 < d → ltb (uint64_max / d) rate ≡ true → uint64_max < rate * d
large_product rate d pos h = (div-lt_iff_lt-mul pos).0 (ltb→lt _ _ h)

-- The gain without bounds, cut at the burst.
ideal :
    (rl : Ratelim) (d : ℕ) → IsBucket rl → 0 < d → regain rl d ≡ min (rl.val + rl.rate * d) rl.burst
ideal rl d b pos = elim (Bool-cases (ltb (uint64_max / d) rl.rate)) [
  | inl over ↦
      rw over
        (let big = large_product rl.rate d pos over in let v = b.burst in omega (arith, big, v))
  | inr fits ↦ rw fits (
      let small = small_product rl.rate d pos fits in
      let v = b.val in let u = b.burst in ground (arith, small, v, u))
]

-- The seconds from one timestamp to the next: a clock that goes back counts as one.
pub ticks : ℕ → ℕ → ℕ
ticks before now = if now == before then 0 else if ltb before now then now - before else 1

-- The 64-bit arithmetic of an update is that of unbounded numbers: a bucket with 64-bit burst and
-- rate and no more than its burst holds, after an update to any timestamp, what it held with the
-- rate for each second that passed, cut at the burst; it stores the timestamp, its burst and its
-- rate are the same, and it is such a bucket still.
pub ratelim_update-exact :
    (rl : Ratelim) (tstamp : ℕ)
    → IsBucket rl
    → ((ratelim_update rl tstamp).val ≡ min (rl.val + rl.rate * ticks rl.tstamp tstamp) rl.burst)
      × ((ratelim_update rl tstamp).tstamp ≡ tstamp)
      × ((ratelim_update rl tstamp).burst ≡ rl.burst)
      × ((ratelim_update rl tstamp).rate ≡ rl.rate)
      × IsBucket (ratelim_update rl tstamp)
unfolding ratelim_update ticks
ratelim_update-exact rl tstamp b = elim (Bool-cases (tstamp == rl.tstamp)) [
  | inl same ↦ rw same (let v = b.val in (omega (arith, v), ground (arith, same), refl, refl, b))
  | inr moved ↦ rw moved (
      let i = ideal rl (elapsed rl tstamp) b (ground (arith, moved)) in
      (
        i,
        refl,
        refl,
        refl,
        record {
          burst = b.burst;
          rate = b.rate;
          val =
              let u : min (rl.val + rl.rate * elapsed rl tstamp) rl.burst ≤ rl.burst =
                omega arith in
              subst (λ x. x ≤ rl.burst) (sym i) u;
        },
      ))
]

-- What a session asks of the limiter, in the order in which it asks.
pub data Event : Type 0 where
  update : ℕ → Event
  drain : ℕ → Event

pub after : Event → Ratelim → Ratelim
after (update tstamp) rl = ratelim_update rl tstamp
after (drain n) rl = (ratelim_drain rl n).1

pub granted : Event → Ratelim → ℕ
granted (update tstamp) rl = 0
granted (drain n) rl = if (ratelim_drain rl n).0 then n else 0

pub drained : List Event → Ratelim → ℕ
drained [] rl = 0
drained (e ∷ es) rl = granted e rl + drained es (after e rl)

-- The seconds that pass from a timestamp on, by the timestamps of the updates alone.
pub seconds : ℕ → List Event → ℕ
seconds before [] = 0
seconds before (update now ∷ es) = ticks before now + seconds now es
seconds before (drain n ∷ es) = seconds before es

-- One event, and the seconds that are left behind it.
record Step (rl : Ratelim) (e : Event) (es : List Event) : Type 0 where
  bucket : IsBucket (after e rl)
  rate : (after e rl).rate ≡ rl.rate
  balance :
      granted e rl + (after e rl).val + rl.rate * seconds (after e rl).tstamp es
      ≤ rl.val + rl.rate * seconds rl.tstamp (e ∷ es)

drained_step :
    (rl : Ratelim) (n : ℕ) (r : Bool × Ratelim) (es : List Event)
    → ratelim_drain rl n ≡ r
    → IsBucket r.1
    → (if r.0 then n else 0) + r.1.val ≤ rl.val
    → r.1.rate ≡ rl.rate
    → r.1.tstamp ≡ rl.tstamp
    → Step rl (drain n) es
unfolding after granted seconds
drained_step rl n r es e b h same still = record {
  bucket = subst (λ q. IsBucket q.1) (sym e) b;
  rate = ap (λ q. q.1.rate) e ∙ same;
  balance =
      subst
        (λ q.
          (if q.0 then n else 0) + q.1.val + rl.rate * seconds q.1.tstamp es
          ≤ rl.val + rl.rate * seconds rl.tstamp es)
        (sym e) (let t = ap (λ k. rl.rate * seconds k es) still in omega (arith, h, t));
}

one_step : (e : Event) (rl : Ratelim) (es : List Event) → IsBucket rl → Step rl e es
unfolding after granted seconds ratelim_drain
one_step (update tstamp) rl es b =
    let (v, t, c, r, k) = ratelim_update-exact rl tstamp b in
    let u = ap (λ x. rl.rate * seconds x es) t in
    record { bucket = k; rate = r; balance = omega (arith, v, u) }
one_step (drain n) rl es b =
    let v = b.val in
    elim (Bool-cases (ltb rl.val n)) [
      | inl short ↦ drained_step rl n (false, rl) es (if_true _ _ _ short) b (omega arith) refl refl
      | inr enough ↦
          drained_step rl n (true, record rl { val = rl.val - n }) es (if_false _ _ _ enough)
            (record { burst = b.burst; rate = b.rate; val = omega (arith, v) })
            (ground (arith, enough)) refl refl
    ]

-- For a bucket with 64-bit burst and rate and no more than its burst, however the calls are ordered
-- and whatever the timestamps, what is drained is at most what the bucket holds at first and the rate
-- for each second between the timestamps, from the bucket's own on, where a step back counts as one.
pub drained-bound :
    (es : List Event) (rl : Ratelim)
    → IsBucket rl
    → drained es rl ≤ rl.val + rl.rate * seconds rl.tstamp es
unfolding drained seconds
drained-bound [] rl b = omega arith
drained-bound (e ∷ es) rl b =
    let s = one_step e rl es b in
    let rest = drained-bound es (after e rl) s.bucket in
    let bal = s.balance in
    let same = ap (λ r. r * seconds (after e rl).tstamp es) s.rate in omega (arith, bal, rest, same)
