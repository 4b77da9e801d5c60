-- ===== src/Router/Examples.antt =====
-- Routers and requests at concrete values.
use dusty.Base.{
  All, ℕ, ◌≤◌, ◌≡◌, refl, List, [], ◌∷◌, none, some, arith, codes, bytes_eq, length, cut_at, inl,
  inr,
}
use dusty.Request.Escape.{done, plain, space, escaped}
use dusty.Router.{path_segments}
use dusty.Router.Params.{Params, get}
use dusty.Router.Query.{parsed, parse_query_string}
use dusty.Router.QueryTrip.{WrittenQuery, last, more, last_of, parse_query_string-Written}
use dusty.Router.Register.{Group, get_method, head_method}
use dusty.Router.Find.{Limits, Reply, handler, escape_error, find_handler}
use dusty.Router.Refine.{EndsWell, Call, on_router, on_group, run, table_after}
use dusty.Router.Answers.{path_of, find_handler-reply_in, given, reply_in, start, Replies}
use dusty.Router.Bounds.{find_handler-Fitting, Fitting}

abbrev api : Group
api = record { prefix = codes "/api"; group_middlewares = 8 ∷ [] }

abbrev calls : List Call
calls =
    on_router get_method (codes "/users/:id") 1
    ∷ on_router get_method (codes "/users/me") 2
    ∷ on_router get_method (codes "/files/*path") 3
    ∷ on_group api get_method (codes "/items") 4
    ∷ on_router head_method (codes "/users/me") 5
    ∷ []

abbrev limits : Limits
limits = record { max_param_count = 8; max_query_count = 32 }

abbrev reply_at : ℕ → List ℕ → Reply
reply_at method url = (find_handler (run calls (given (7 ∷ []))) limits method url []).reply

static_first :
    reply_at get_method (codes "/users/me?x=1")
    ≡ handler (record { action = 2; middlewares = 7 ∷ [] })
unfolding run find_handler bytes_eq
static_first = refl

param_next :
    reply_at get_method (codes "/users/42") ≡ handler (record { action = 1; middlewares = 7 ∷ [] })
unfolding run find_handler bytes_eq
param_next = refl

group_route :
    reply_at get_method (codes "/api//items/")
    ≡ handler (record { action = 4; middlewares = 7 ∷ 8 ∷ [] })
unfolding run find_handler bytes_eq
group_route = refl

head_of_get :
    reply_at head_method (codes "/users/42") ≡ handler (record { action = 1; middlewares = 7 ∷ [] })
unfolding run find_handler bytes_eq
head_of_get = refl

rest_of_path :
    get
      (codes "path")
      ((find_handler (run calls (given [])) limits get_method (codes "/files/a/b") []).params)
    ≡ some (codes "a/b")
unfolding run find_handler get bytes_eq
rest_of_path = refl

bad_escape : reply_at get_method (codes "/users/me?x=%4") ≡ escape_error
unfolding run find_handler bytes_eq
bad_escape = refl

calls_end : All EndsWell calls
unfolding path_segments
calls_end = (
  (refl, (refl, tt)),
  ((refl, (refl, tt)), ((refl, (refl, tt)), ((refl, (refl, tt)), ((refl, (refl, tt)), tt)))),
)

few_segments :
    length
      (path_segments (path_of (cut_at b'?' (codes "/users/42?x=%41")) (codes "/users/42?x=%41")))
    ≤ 8
unfolding path_segments cut_at
few_segments = omega arith

find_handler-reply_in_example :
    Replies
      (find_handler (run calls (given (7 ∷ []))) limits head_method (codes "/users/42?x=%41") [])
      (reply_in (table_after (7 ∷ []) calls start) limits head_method (codes "/users/42?x=%41"))
find_handler-reply_in_example =
    find_handler-reply_in (7 ∷ []) calls limits head_method (codes "/users/42?x=%41") calls_end
      few_segments

find_handler-Fitting_example :
    Fitting
      (run calls (given []))
      limits
      get_method
      (find_handler (run calls (given [])) limits get_method (codes "/users/42?x=%41") [])
find_handler-Fitting_example =
    find_handler-Fitting (run calls (given [])) limits get_method (codes "/users/42?x=%41") []
      (omega arith)

-- The query k=a%2b&k=+, for the key k twice.
abbrev pairs : Params
pairs = (codes "k", codes "a+") ∷ (codes "k", codes " ") ∷ []

query_written : WrittenQuery pairs (codes "k=a%2b&k=+")
query_written =
    more (codes "k", codes "a+")
      (record {
        key = codes "k";
        value = codes "a%2b";
        key_escapes = plain b'k' refl refl done;
        value_escapes = plain b'a' refl refl (
            escaped 2 11 b'2' b'b' (inl (omega arith, refl))
              (inr (inr (omega arith, omega arith, refl))) done);
        key_lacks_eq = (refl, tt);
        key_lacks_and = (refl, tt);
        value_lacks_and = (refl, (refl, (refl, (refl, tt))));
        joined = refl;
      })
      (last (codes "k", codes " ")
        (record {
          key = codes "k";
          value = codes "+";
          key_escapes = plain b'k' refl refl done;
          value_escapes = space done;
          key_lacks_eq = (refl, tt);
          key_lacks_and = (refl, tt);
          value_lacks_and = (refl, tt);
          joined = refl;
        }))

parse_query_string-Written_example :
    (query : Params) × (parse_query_string 2 (codes "k=a%2b&k=+") [] ≡ parsed query)
    × ((name : List ℕ) → get name query ≡ last_of name pairs none)
parse_query_string-Written_example =
    parse_query_string-Written 2 pairs (codes "k=a%2b&k=+") query_written (omega arith)
