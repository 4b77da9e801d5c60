-- ===== src/Nghttp2/Ratelim/Examples.antt =====
-- A limiter of ten at once and two a second.
use dusty.Base.{◌+◌, ◌*◌, ◌≤◌, ◌≡◌, min, arith, List, [], ◌∷◌}
use dusty.Nghttp2.Ratelim.{Ratelim, IsBucket, ratelim_update}
use dusty.Nghttp2.Ratelim.Bounds.{
  ticks, ratelim_update-exact, Event, drained, seconds, drained-bound,
}

abbrev limiter : Ratelim
limiter = record { burst = 10; rate = 2; val = 3; tstamp = 5 }

limiter-IsBucket : IsBucket limiter
limiter-IsBucket = record { burst = omega arith; rate = omega arith; val = omega arith }

abbrev events : List Event
events = Event.drain 3 ∷ Event.update 7 ∷ Event.drain 5 ∷ Event.drain 4 ∷ []

ratelim_update-exact_example :
    ((ratelim_update limiter 7).val
      ≡ min (limiter.val + limiter.rate * ticks limiter.tstamp 7) limiter.burst)
    × ((ratelim_update limiter 7).tstamp ≡ 7)
    × ((ratelim_update limiter 7).burst ≡ limiter.burst)
    × ((ratelim_update limiter 7).rate ≡ limiter.rate)
    × IsBucket (ratelim_update limiter 7)
ratelim_update-exact_example = ratelim_update-exact limiter 7 limiter-IsBucket

drained-bound_example :
    drained events limiter ≤ limiter.val + limiter.rate * seconds limiter.tstamp events
drained-bound_example = drained-bound events limiter limiter-IsBucket
