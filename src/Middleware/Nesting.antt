-- ===== src/Middleware/Nesting.antt =====
-- src/middleware.zig: the executor against middlewares that hold one another, with no index.
use dusty.Base.{
  ℕ, zero, suc, ◌+◌, ◌<◌, ◌≡◌, refl, ap, sym, ◌∙◌, List, [], ◌∷◌, All, Option, none, some, arith,
  get_elem?, length, Bool-cases, inl, inr, if◌then◌else◌,
}
use dusty.Response.{Response}
use dusty.Middleware.{
  Failure, connection_failure, handler_error, State, Outcome, returned, threw, Middleware, stop,
  change, look, call_next, execute, Handler, Context, after, act, next, run_caught, run, dispatched,
  handle_not_found, handle_error,
}

-- The middleware calls `next` no more.
pub data Ends : Middleware → Type 0 where
  stops : (e : Option Failure) → Ends (stop e)
  changes : {rest : Middleware} (f : Response → Response) → Ends rest → Ends (change f rest)
  looks : {rest : Response → Middleware} → ((res : Response) → Ends (rest res)) → Ends (look rest)

-- Whatever it sees, the middleware calls `next` once or ends without it.
pub data AtMostOnce : Middleware → Type 0 where
  never : (e : Option Failure) → AtMostOnce (stop e)
  calls :
      {rest : Option Failure → Middleware}
      → ((e : Option Failure) → Ends (rest e))
      → AtMostOnce (call_next rest)
  changes :
      {rest : Middleware} (f : Response → Response) → AtMostOnce rest → AtMostOnce (change f rest)
  looks :
      {rest : Response → Middleware}
      → ((res : Response) → AtMostOnce (rest res))
      → AtMostOnce (look rest)

-- The middleware around a handler that its call of `next` is a call of.
abbrev pub around : Handler → Middleware → Handler
around inner (stop e) res = (e, res)
around inner (change f rest) res = around inner rest (f res)
around inner (look rest) res = around inner (rest res) res
around inner (call_next rest) res = around inner (rest ((inner res).0)) ((inner res).1)

-- The first middleware is the outermost, the handler the innermost.
abbrev pub nest : Handler → List Middleware → Handler
nest inner [] = inner
nest inner (m ∷ ms) = around (nest inner ms) m

-- The route's handler, inside the context's `dispatch`, or the answer to a request without a route.
abbrev pub innermost : Context → Option Handler → Handler
innermost ctx none res = handle_not_found ctx res
innermost ctx (some handler) res = elim (ctx.dispatch) [
  | some dispatch ↦ dispatch handler res
  | none ↦ handler res
]

-- What becomes of an error that comes out of them all.
abbrev pub answered : Context → Option Failure × Response → Option Failure × Response
answered ctx (none, res) = (none, res)
answered ctx (some connection_failure, res) = (some connection_failure, res)
answered ctx (some (handler_error e), res) =
    if res.headers_written
    then (some (handler_error e), res)
    else (none, handle_error ctx (handler_error e) res)

abbrev pub outcome_of : Outcome → Option Failure × Response
outcome_of (returned st) = (none, st.res)
outcome_of (threw e st) = (some e, st.res)

around-Ends :
    (n : State → Outcome) (inner : Handler) (m : Middleware) (st : State)
    → Ends m
    → outcome_of (execute n m st) ≡ around inner m (st.res)
unfolding execute
around-Ends n inner _ st (stops none) = refl
around-Ends n inner _ st (stops (some e)) = refl
around-Ends n inner _ st (changes {rest = rest} f ends) =
    around-Ends n inner rest (record st { res = f (st.res) }) ends
around-Ends n inner _ st (looks {rest = rest} ends) =
    around-Ends n inner (rest (st.res)) st (ends (st.res))

around-resumed :
    (n : State → Outcome) (inner : Handler) (rest : Option Failure → Middleware) (o : Outcome)
    → ((e : Option Failure) → Ends (rest e))
    → outcome_of
        (elim o [ returned s ↦ execute n (rest none) s | threw e s ↦ execute n (rest (some e)) s ])
      ≡ around inner (rest ((outcome_of o).0)) ((outcome_of o).1)
around-resumed n inner rest (returned s) ends = around-Ends n inner (rest none) s (ends none)
around-resumed n inner rest (threw e s) ends = around-Ends n inner (rest (some e)) s (ends (some e))

-- When the one call of `next` comes to a handler, from whatever response.
around-AtMostOnce :
    (n : State → Outcome) (inner : Handler) (m : Middleware) (st : State)
    → AtMostOnce m
    → ((res : Response) → outcome_of (n (record st { res = res })) ≡ inner res)
    → outcome_of (execute n m st) ≡ around inner m (st.res)
unfolding execute
around-AtMostOnce n inner _ st (never none) same = refl
around-AtMostOnce n inner _ st (never (some e)) same = refl
around-AtMostOnce n inner _ st (calls {rest = rest} ends) same =
    around-resumed n inner rest (n st) ends
    ∙ ap (λ (o : Option Failure × Response). around inner (rest (o.0)) (o.1)) (same (st.res))
around-AtMostOnce n inner _ st (changes {rest = rest} f once) same =
    around-AtMostOnce n inner rest (record st { res = f (st.res) }) once same
around-AtMostOnce n inner _ st (looks {rest = rest} once) same =
    around-AtMostOnce n inner (rest (st.res)) st (once (st.res)) same

-- The middlewares from an index on.
abbrev behind : ℕ → List Middleware → List Middleware
behind zero ms = ms
behind (suc i) [] = []
behind (suc i) (m ∷ ms) = behind i ms

behind_all : (ms : List Middleware) → behind (length ms) ms ≡ []
behind_all [] = refl
behind_all (m ∷ ms) = behind_all ms

middleware_at :
    (ms : List Middleware) (i : ℕ)
    → All AtMostOnce ms
    → i < length ms
    → (m : Middleware) × (get_elem? ms i ≡ some m)
      × AtMostOnce m
      × (behind i ms ≡ m ∷ behind (suc i) ms)
middleware_at [] i once h = absurd (omega (arith, h))
middleware_at (m ∷ ms) zero once h = (m, refl, once.0, refl)
middleware_at (m ∷ ms) (suc i) once h = middleware_at ms i once.1 (omega (arith, h))

outcome_of-after : (st : State) (r : Option Failure × Response) → outcome_of (after st r) ≡ r
outcome_of-after st (none, res) = refl
outcome_of-after st (some e, res) = refl

module _ (ctx : Context) (action : Option Handler) (middlewares : List Middleware) where
  outcome_of-act :
      (st : State) → outcome_of (act ctx action middlewares st) ≡ innermost ctx action (st.res)
  unfolding act
  outcome_of-act st = by_action action (ctx.dispatch)
    where
      by_action :
          (a : Option Handler) (d : Option (Handler → Handler))
          → outcome_of (elim a [
            | some handler ↦
                after st
                  (dispatched (record ctx { dispatch = d }) action middlewares handler (st.res))
            | none ↦ after st (handle_not_found ctx (st.res))
          ])
            ≡ innermost (record ctx { dispatch = d }) a (st.res)
      by_action (some handler) (some dispatch) = outcome_of-after st (dispatch handler (st.res))
      by_action (some handler) none = outcome_of-after st (handler (st.res))
      by_action none d = outcome_of-after st (handle_not_found ctx (st.res))

  outcome_of-next :
      (fuel : ℕ) (st : State)
      → All AtMostOnce middlewares
      → st.index + fuel ≡ length middlewares
      → outcome_of (next ctx action middlewares fuel st)
        ≡ nest (innermost ctx action) (behind (st.index) middlewares) (st.res)
  unfolding next
  outcome_of-next zero st once h =
      let at_end : st.index ≡ length middlewares = omega (arith, h) in
      outcome_of-act st
      ∙ ap (λ ms. nest (innermost ctx action) ms (st.res))
          (sym (ap (λ i. behind i middlewares) at_end ∙ behind_all middlewares))
  outcome_of-next (suc fuel) st once h =
      let found = middleware_at middlewares (st.index) once (omega (arith, h)) in
      let entered : State = record st { index = st.index + 1 } in
      let here : behind (st.index) middlewares ≡ found.0 ∷ behind (st.index + 1) middlewares =
        found.3 ∙ ap (λ i. found.0 ∷ behind i middlewares) {x = suc (st.index)} (omega arith) in
      ap
        (λ o. outcome_of (elim o [
          | some middleware ↦ execute (next ctx action middlewares fuel) middleware entered
          | none ↦ act ctx action middlewares st
        ]))
        found.1
      ∙ around-AtMostOnce (next ctx action middlewares fuel)
          (nest (innermost ctx action) (behind (st.index + 1) middlewares)) found.0 entered found.2
          (λ res. outcome_of-next fuel (record entered { res = res }) once (omega (arith, h)))
      ∙ ap (λ ms. nest (innermost ctx action) ms (st.res)) (sym here)

  outcome_of-run_caught :
      (o : Outcome) → outcome_of (run_caught ctx action middlewares o) ≡ answered ctx (outcome_of o)
  unfolding run_caught
  outcome_of-run_caught (returned st) = refl
  outcome_of-run_caught (threw connection_failure st) = refl
  outcome_of-run_caught (threw (handler_error e) st) = elim (Bool-cases (st.res.headers_written)) [
    | inl h ↦ rw h refl
    | inr h ↦ rw h refl
  ]

  -- When each middleware calls `next` at most once, whatever it sees in the response and whatever
  -- error comes back to it, the executor's run gives the response and the error of the middlewares
  -- nested in one another: the first one outside, the route's handler (inside the context's
  -- dispatch, or the answer to a request without a route) at the core, and each call of `next` a
  -- call of what is inside. A middleware that does not call `next` keeps all that is inside it from
  -- running. An error that comes out of them all is passed on when the connection failed or the
  -- header block is written, and otherwise replaced by the error response.
  pub run-nest :
      (res : Response)
      → All AtMostOnce middlewares
      → outcome_of (run ctx action middlewares res)
        ≡ answered ctx (nest (innermost ctx action) middlewares res)
  unfolding run
  run-nest res once =
      outcome_of-run_caught
        (next ctx action middlewares (length middlewares) (record { index = 0; res = res }))
      ∙ ap (answered ctx) (
          outcome_of-next (length middlewares) (record { index = 0; res = res }) once (omega arith))
