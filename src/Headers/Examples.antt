-- ===== src/Headers/Examples.antt =====
-- Header maps at concrete values.
use dusty.Base.{min, ◌≡◌, refl, List, [], ◌∷◌, some, codes}
use dusty.Headers.{init, max_count}
use dusty.Headers.Calls.{
  HeaderCall, put_call, add_call, get_call, remove_call, stored, too_many_headers, value_is,
  removed, call_all, field_call_all, call_all-field_call_all,
}

abbrev calls : List HeaderCall
calls =
    put_call (codes "Content-Type") (codes "text/plain")
    ∷ add_call (codes "Set-Cookie") (codes "a=1")
    ∷ add_call (codes "set-cookie") (codes "b=2")
    ∷ add_call (codes "Age") (codes "1")
    ∷ get_call (codes "content-TYPE")
    ∷ remove_call (codes "SET-COOKIE")
    ∷ []

outcomes :
    (call_all calls (init 3)).0
    ≡ stored
      ∷ stored
      ∷ stored
      ∷ too_many_headers
      ∷ value_is (some (codes "text/plain"))
      ∷ removed 2
      ∷ []
unfolding call_all
outcomes = refl

call_all-field_call_all_example :
    call_all calls (init 3) ≡ field_call_all (min 3 max_count) calls []
call_all-field_call_all_example = call_all-field_call_all 3 calls
