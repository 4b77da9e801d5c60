-- ===== src/Middleware.antt =====
-- src/middleware.zig, `Executor`: the middlewares of a route, one inside the other, and its action.
pub mod Nesting
mod Examples
use dusty.Base.{
  ℕ, zero, suc, ◌+◌, Bool, true, false, List, [], ◌∷◌, Option, none, some, if◌then◌else◌, get_elem?,
  length, codes,
}
use dusty.Response.{Response, Result, done, failed}
use dusty.Response.Body.{reset_body}

-- The errors that can produce no response, and every other.
pub data Failure : Type 0 where
  connection_failure : Failure
  handler_error : ℕ → Failure

-- What the executor changes as it runs: its index and the response.
pub record State : Type 0 where
  pub index : ℕ
  pub res : Response

pub data Outcome : Type 0 where
  returned : State → Outcome
  threw : Failure → State → Outcome

-- The body of a middleware: it ends, with an error or without, changes the response, looks at it, or
-- calls `next` and goes on with the error that this gave, if any.
pub data Middleware : Type 0 where
  stop : Option Failure → Middleware
  change : (Response → Response) → Middleware → Middleware
  look : (Response → Middleware) → Middleware
  call_next : (Option Failure → Middleware) → Middleware

unfoldable pub execute : (State → Outcome) → Middleware → State → Outcome
execute next (stop none) st = returned st
execute next (stop (some e)) st = threw e st
execute next (change f rest) st = execute next rest (record st { res = f (st.res) })
execute next (look rest) st = execute next (rest (st.res)) st
execute next (call_next rest) st = elim (next st) [
  | returned s ↦ execute next (rest none) s
  | threw e s ↦ execute next (rest (some e)) s
]

abbrev pub Handler : Type 0
Handler = Response → Option Failure × Response

-- The context may declare `dispatch`, `notFound` and `uncaughtError`.
pub record Context : Type 0 where
  pub dispatch : Option (Handler → Handler)
  pub not_found : Option Handler
  pub uncaught_error : Option (Failure → Response → Response)

abbrev pub after : State → Option Failure × Response → Outcome
after st (none, res) = returned (record st { res = res })
after st (some e, res) = threw e (record st { res = res })

-- `resetBody`, where the headers are still open.
abbrev response_of : Result → Response
response_of (done r) = r
response_of (failed e r) = r

abbrev reset : Response → Response
unfolding reset_body
reset res = response_of (reset_body res)

abbrev pub error_page : ℕ → List ℕ → Response → Response
error_page status body res = record res {
  status = status;
  content_type = some (codes "text/plain; charset=UTF-8");
  body = body;
}

unfoldable pub handle_not_found : Context → Response → Option Failure × Response
unfolding reset
handle_not_found ctx res =
    let open_res = if res.headers_written then res else reset res in
    elim (ctx.not_found) [
      | some handler ↦ handler open_res
      | none ↦ (none, error_page 404 (codes "404 Not Found\n") open_res)
    ]

unfoldable pub handle_error : Context → Failure → Response → Response
unfolding reset
handle_error ctx e res = elim (ctx.uncaught_error) [
  | some handler ↦ handler e (reset res)
  | none ↦ error_page 500 (codes "500 Internal Server Error\n") (reset res)
]

module _ (ctx : Context) (action : Option Handler) (middlewares : List Middleware) where
  abbrev pub dispatched : Handler → Handler
  dispatched handler = elim (ctx.dispatch) [ some dispatch ↦ dispatch handler | none ↦ handler ]

  -- The action, or the answer to a request without a route.
  unfoldable pub act : State → Outcome
  unfolding handle_not_found
  act st = elim action [
    | some handler ↦ after st (dispatched handler (st.res))
    | none ↦ after st (handle_not_found ctx (st.res))
  ]

  -- `next`, which moves on to the next middleware each time it is called: with fuel for one call of
  -- every middleware that is left.
  unfoldable pub next : ℕ → State → Outcome
  unfolding act execute
  next zero st = act st
  next (suc fuel) st = elim (get_elem? middlewares (st.index)) [
    | some middleware ↦ execute (next fuel) middleware (record st { index = st.index + 1 })
    | none ↦ act st
  ]

  abbrev pub run_caught : Outcome → Outcome
  unfolding handle_error
  run_caught (returned st) = returned st
  run_caught (threw connection_failure st) = threw connection_failure st
  run_caught (threw (handler_error e) st) =
      if st.res.headers_written
      then threw (handler_error e) st
      else returned (record st { res = handle_error ctx (handler_error e) (st.res) })

  -- `run`, of an executor whose index is 0.
  unfoldable pub run : Response → Outcome
  unfolding next run_caught
  run res = run_caught (next (length middlewares) (record { index = 0; res = res }))
