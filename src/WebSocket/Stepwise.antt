-- ===== src/WebSocket/Stepwise.antt =====
-- What holds across each step of a connection holds across the chain of them.
use dusty.Base.{Bool, true, false, if◌then◌else◌}
use dusty.WebSocket.{WebSocket, Result, ok, err, out_of_fuel}
use dusty.WebSocket.Codec.{Step, and_then, ◌>>=◌}

pub either : {A : Type 0} (P : A → Type 0) (b : Bool) (x y : A) → P x → P y → P (if b then x else y)
either P true x y hx hy = hx
either P false x y hx hy = hy

-- The step did not run out of fuel.
abbrev pub Done : {A : Type 0} → Result A → Type 0
Done (ok a) = Unit {0}
Done (err e) = Unit {0}
Done out_of_fuel = ⊥

-- `Chains` is for relations that compose; `Rel` says that a step ends, in states so related.
pub record Chains (R : WebSocket → WebSocket → Type 0) : Type 0 where
  pub same : (w : WebSocket) → R w w
  pub chain : (u v w : WebSocket) → R u v → R v w → R u w

abbrev pub At :
    {A : Type 0} → (WebSocket → WebSocket → Type 0) → WebSocket → Result A × WebSocket → Type 0
At R w r = Done r.0 × R w r.1

pub record Rel {A : Type 0} (R : WebSocket → WebSocket → Type 0) (m : Step A) : Type 0 where
  pub at : (w : WebSocket) → At R w (m w)

-- A step that does what another does after a change of the state.
pub after :
    {A : Type 0} (R : WebSocket → WebSocket → Type 0) (c : Chains R) (w v : WebSocket)
    (r : Result A × WebSocket)
    → R w v
    → At R v r
    → At R w r
after R c w v r h a = (a.0, c.chain w v r.1 h a.1)

module _ (R : WebSocket → WebSocket → Type 0) (c : Chains R) where
  and_then-At :
      {A B : Type 0} (w : WebSocket) (r : Result A × WebSocket) (k : A → Step B)
      → At R w r
      → ((a : A) → Rel R (k a))
      → At R w (and_then r k)
  and_then-At w (ok a, v) k h g = after R c w v (k a v) h.1 ((g a).at v)
  and_then-At w (err e, v) k h g = h
  and_then-At w (out_of_fuel, v) k h g = h

  pub bind :
      {A B : Type 0} (m : Step A) (k : A → Step B)
      → Rel R m
      → ((a : A) → Rel R (k a))
      → Rel R (m >>= k)
  bind m k h g = record { at = λ w. and_then-At w (m w) k (h.at w) g }
