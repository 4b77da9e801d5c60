-- ===== src/Router/Answers.antt =====
-- src/router.zig: `findHandler` answers what the table of the registrations says.
use dusty.Base.{
  ℕ, ◌+◌, ◌≤◌, ◌≡◌, ◌≢◌, refl, ap, sym, ◌∙◌, subst, Bool, true, false, List, [], ◌∷◌, map, All,
  Option, none, some, arith, ◌==◌, length, split_scalar, cut_at, if◌then◌else◌, length-map,
}
use dusty.Router.{node, Child, no_child, child, Route, path_segments, non_empty}
use dusty.Router.Params.{Params, Within, Within-refl, none_of, length-Within, Within-trans}
use dusty.Router.Match.{
  Answer, route, no_route, too_many_params, answer, match_in, match_segments, Match, found,
  not_found, too_many,
}
use dusty.Router.Table.{Shape, lookup, at_child}
use dusty.Router.Tidy.{TidyChild, IsTidy}
use dusty.Router.Query.{Query, parsed, too_many_query_params, invalid_escape, parse_query_string}
use dusty.Router.Register.{Router, get_method, head_method}
use dusty.Router.Find.{
  Limits, Reply, handler, no_handler, query_error, escape_error, Found, segments_from, or_get,
  reply_to, find_path, find_after, find_cut, find_handler,
}
use dusty.Router.Refine.{
  Table, Call, EndsWell, run, table_after, Represents, Represents-run, Represents-empty,
}
use dusty.Router.Resolve.{resolve, first_of, resolve_ext, resolve-none, Gives, Gives-match_segments}

-- What a table answers: a HEAD falls back to the routes of GET.
abbrev pub in_table : Table → ℕ → List (List ℕ) → Option Route
in_table table method segments =
    first_of (resolve (table method) segments)
      (if method == head_method then resolve (table get_method) segments else none)

abbrev pub reply_for : Option Route → Reply
reply_for (some r) = handler r
reply_for none = no_handler

abbrev pub after_query : Table → ℕ → List ℕ → Query → Reply
after_query table method path (parsed query) =
    reply_for (in_table table method (path_segments path))
after_query table method path (too_many_query_params query) = query_error
after_query table method path (invalid_escape query) = escape_error

abbrev pub path_of : Option (List ℕ × List ℕ) → List ℕ → List ℕ
path_of none url = url
path_of (some (path, query_string)) url = path

abbrev pub query_of : ℕ → Option (List ℕ × List ℕ) → Query
query_of limit none = parsed []
query_of limit (some (path, query_string)) = parse_query_string limit query_string []

-- The answer that a table gives to a request's method and target.
pub reply_in : Table → Limits → ℕ → List ℕ → Reply
unfolding cut_at parse_query_string path_segments
reply_in table limits method url =
    after_query table method (path_of (cut_at b'?' url) url)
      (query_of (limits.max_query_count) (cut_at b'?' url))

-- An answer that agrees with a route or none of them.
abbrev Agrees : Answer → Option Route → Params → Type 0
Agrees (route r qs) o ps = o ≡ some r
Agrees (no_route qs) o ps = (o ≡ none) × Within qs ps
Agrees (too_many_params qs) o ps = ⊥

Agrees-answer : (m : Match) (o : Option Route) (ps : Params) → Gives m o ps → Agrees (answer m) o ps
Agrees-answer (found (node s k n st p w (some r)) qs) o ps g = sym g.0
Agrees-answer (found (node s k n st p w none) qs) (some r) ps g = absurd (ground (arith, g.0))
Agrees-answer (found (node s k n st p w none) qs) none ps g = absurd g.1
Agrees-answer (not_found qs) o ps g = g
Agrees-answer (too_many qs) o ps g = g

map-segments_from :
    (offset : ℕ) (parts : List (List ℕ))
    → map (λ x. x.0) (segments_from offset parts) ≡ non_empty parts
unfolding segments_from non_empty
map-segments_from offset [] = refl
map-segments_from offset ([] ∷ parts) = map-segments_from (offset + 0 + 1) parts
map-segments_from offset ((b ∷ bs) ∷ parts) =
    ap (λ rest. (b ∷ bs) ∷ rest) (map-segments_from (offset + length (b ∷ bs) + 1) parts)

module _ (limit : ℕ) (path : List ℕ) (segments : List (List ℕ × ℕ)) where
  Agrees-match_in :
      (tree : Child) (ps : Params) (t : List Shape → Option Route)
      → TidyChild tree
      → ((q : List Shape) → at_child (lookup q) tree ≡ t q)
      → length ps + length segments ≤ limit
      → Agrees (match_in limit path segments tree ps) (resolve t (map (λ x. x.0) segments)) ps
  unfolding match_in IsTidy
  Agrees-match_in no_child ps t tidy same h = (
    resolve_ext t (λ q. none) (map (λ x. x.0) segments) (λ q. sym (same q))
        ∙ resolve-none (map (λ x. x.0) segments),
    Within-refl ps,
  )
  Agrees-match_in (child c) ps t tidy same h =
      subst (λ o. Agrees (answer (match_segments limit path segments c ps)) o ps)
        (resolve_ext (λ q. lookup q c) t (map (λ x. x.0) segments) same)
        (Agrees-answer (match_segments limit path segments c ps) _ ps
          (Gives-match_segments limit path segments c ps tidy h))

Agrees-widen :
    (a : Answer) (o : Option Route) (qs ps : Params) → Agrees a o qs → Within qs ps → Agrees a o ps
Agrees-widen (route r rs) o qs ps h w = h
Agrees-widen (no_route rs) o qs ps h w = (h.0, Within-trans h.1 w)
Agrees-widen (too_many_params rs) o qs ps h w = h

Agrees-or_get :
    (in_get : Params → Answer) (head : Bool) (a : Answer) (o g : Option Route) (ps : Params)
    → Agrees a o ps
    → ((qs : Params) → Within qs ps → Agrees (in_get qs) g ps)
    → Agrees (or_get in_get head a) (first_of o (if head then g else none)) ps
Agrees-or_get in_get true (no_route qs) o g ps h k =
    subst (λ o. Agrees (in_get qs) (first_of o g) ps) (sym h.0) (k qs h.1)
Agrees-or_get in_get false (no_route qs) o g ps h k = (ap (λ o. first_of o none) h.0, h.1)
Agrees-or_get in_get true (route r qs) o g ps h k = ap (λ o. first_of o g) h
Agrees-or_get in_get false (route r qs) o g ps h k = ap (λ o. first_of o none) h
Agrees-or_get in_get head (too_many_params qs) o g ps h k = absurd h

module _ (router : Router) (table : Table) (global : List ℕ) (r : Represents router table global)
    (limits : Limits) (method : ℕ) where
  Agrees-find_path :
      (path : List ℕ) (ps : Params)
      → length ps + length (path_segments path) ≤ limits.max_param_count
      → Agrees
          (find_path router limits method path ps)
          (in_table table method (path_segments path))
          ps
  unfolding find_path path_segments
  Agrees-find_path path ps h =
      let segments = segments_from 0 (split_scalar b'/' path) in
      let same = map-segments_from 0 (split_scalar b'/' path) in
      let count : length segments ≡ length (path_segments path) =
        sym (length-map (λ x. x.0) segments) ∙ ap length same in
      subst (λ ss. Agrees (find_path router limits method path ps) (in_table table method ss) ps)
        same
        (Agrees-or_get _ (method == head_method) _ _ _ ps
          (Agrees-match_in (limits.max_param_count) path segments (router.trees method) ps
            (table method) (r.tidy method) (r.entries method) (omega (arith, h, count)))
          (λ qs w.
            Agrees-widen _ _ qs ps
              (Agrees-match_in (limits.max_param_count) path segments (router.trees get_method) qs
                (table get_method) (r.tidy get_method) (r.entries get_method)
                (omega (arith, h, count, length-Within w)))
              w))

-- The reply, and no parameter of the request when there is no handler.
abbrev pub Replies : Found → Reply → Type 0
Replies out reply = (out.reply ≡ reply) × (reply ≡ no_handler → out.params ≡ [])

Within-nil : {ps : Params} → Within ps [] → ps ≡ []
Within-nil none_of = refl

handler≢no_handler : (r : Route) → handler r ≢ no_handler
handler≢no_handler r h = absurd (ground (arith, h))

Replies-reply_to :
    (a : Answer) (o : Option Route) (query : Params)
    → Agrees a o []
    → Replies (reply_to a query) (reply_for o)
Replies-reply_to (route r qs) o query h =
    subst (λ o. Replies (reply_to (route r qs) query) (reply_for o)) (sym h)
      (refl, λ e. absurd (handler≢no_handler r e))
Replies-reply_to (no_route qs) o query h =
    subst (λ o. Replies (reply_to (no_route qs) query) (reply_for o)) (sym h.0)
      (refl, λ e. Within-nil h.1)
Replies-reply_to (too_many_params qs) o query h = absurd h

-- The middlewares of the router are those it is given before the registrations.
abbrev pub given : List ℕ → Router
given global = record { trees = λ m. no_child; middlewares = global }

abbrev pub start : Table
start m q = none

module _ (router : Router) (table : Table) (global : List ℕ) (r : Represents router table global)
    (limits : Limits) (method : ℕ) where
  Replies-find_after :
      (path : List ℕ) (query : Query)
      → length (path_segments path) ≤ limits.max_param_count
      → Replies
          (find_after router limits method path [] query)
          (after_query table method path query)
  Replies-find_after path (parsed query) h =
      Replies-reply_to _ _ query
        (Agrees-find_path router table global r limits method path [] (omega (arith, h)))
  Replies-find_after path (too_many_query_params query) h = (refl, λ e. refl)
  Replies-find_after path (invalid_escape query) h = (refl, λ e. refl)

  Replies-find_cut :
      (url : List ℕ) (cut : Option (List ℕ × List ℕ))
      → length (path_segments (path_of cut url)) ≤ limits.max_param_count
      → Replies
          (find_cut router limits method url [] cut)
          (after_query table method (path_of cut url) (query_of (limits.max_query_count) cut))
  Replies-find_cut url none h = Replies-find_after url (parsed []) h
  Replies-find_cut url (some (path, query_string)) h =
      Replies-find_after path (parse_query_string (limits.max_query_count) query_string []) h

-- Whatever was registered, on the router and its groups, in calls whose wildcards end their paths:
-- a request that has no parameters yet, with no more path segments than parameters are allowed, gets
-- the reply that the table of the registrations gives. That is the error of a query that is refused,
-- or the route of the last registration with the most specific shape, the segments compared from
-- left to right with a given text before a parameter and a parameter before a wildcard, and for a
-- HEAD without one that of GET; and where there is no route no parameter is left on the request.
pub find_handler-reply_in :
    (global : List ℕ) (calls : List Call) (limits : Limits) (method : ℕ) (url : List ℕ)
    → All EndsWell calls
    → length (path_segments (path_of (cut_at b'?' url) url)) ≤ limits.max_param_count
    → Replies
        (find_handler (run calls (given global)) limits method url [])
        (reply_in (table_after global calls start) limits method url)
unfolding find_handler reply_in
find_handler-reply_in global calls limits method url ends h =
    Replies-find_cut (run calls (given global)) (table_after global calls start) global
      (Represents-run global calls (given global) start ends (Represents-empty global)) limits
      method url (cut_at b'?' url) h
