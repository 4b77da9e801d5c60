-- ===== src/Middleware/Examples.antt =====
-- Executors at concrete values.
use dusty.Base.{◌+◌, ◌≡◌, refl, true, false, [], ◌∷◌, none, some, codes}
use dusty.Headers.{init}
use dusty.Response.{Response}
use dusty.Response.Session.{fresh}
use dusty.Middleware.{
  handler_error, Outcome, returned, threw, Middleware, stop, change, call_next, Handler, Context,
  run,
}
use dusty.Middleware.Nesting.{stops, AtMostOnce, nest, innermost, answered, outcome_of, run-nest}

abbrev plain : Context
plain = record { dispatch = none; not_found = none; uncaught_error = none }

abbrev start : Response
start = fresh 200 (init 4) true false

abbrev failing : Handler
failing res = (some (handler_error 7), record res { body = codes "half" })

-- One middleware passes on what comes back, the next one swallows it.
abbrev passing : Middleware
passing = call_next (λ e. stop e)

abbrev swallowing : Middleware
swallowing = change (λ res. record res { status = 201 }) (call_next (λ e. stop none))

abbrev response_of : Outcome → Response
response_of (returned st) = st.res
response_of (threw e st) = st.res

error_replaced :
    (response_of (run plain (some failing) (passing ∷ []) start)).body
    ≡ codes "500 Internal Server Error\n"
unfolding run
error_replaced = refl

error_swallowed :
    (response_of (run plain (some failing) (passing ∷ swallowing ∷ []) start)).status ≡ 201
unfolding run
error_swallowed = refl

no_route : (response_of (run plain none [] start)).status ≡ 404
unfolding run
no_route = refl

-- A middleware that calls `next` again when it has failed gets to the action twice.
abbrev counting : Handler
counting res = (some (handler_error 7), record res { status = res.status + 1 })

retried :
    (response_of (
      run plain
        (some counting)
        (swallowing ∷ call_next (λ e. call_next (λ f. stop f)) ∷ [])
        start)).status
    ≡ 203
unfolding run
retried = refl

-- A middleware that refuses: what is inside it does not run.
abbrev refusing : Middleware
refusing = change (λ res. record res { status = 403 }) (stop none)

refused :
    (response_of (run plain (some failing) (passing ∷ refusing ∷ swallowing ∷ []) start)).status
    ≡ 403
unfolding run
refused = refl

run-nest_example :
    outcome_of (run plain (some failing) (passing ∷ swallowing ∷ []) start)
    ≡ answered plain (nest (innermost plain (some failing)) (passing ∷ swallowing ∷ []) start)
run-nest_example = run-nest plain (some failing) (passing ∷ swallowing ∷ []) start (
  AtMostOnce.calls (λ e. stops e),
  (AtMostOnce.changes _ (AtMostOnce.calls (λ e. stops none)), tt),
)
