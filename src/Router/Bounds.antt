-- ===== src/Router/Bounds.antt =====
-- src/router.zig: how many parameters a request may get, in any tree.
use dusty.Base.{
  ℕ, ◌≤◌, ◌≡◌, refl, Bool, true, false, List, [], ◌∷◌, Option, none, some, arith, leb, length,
  Bool-cases, inl, inr, bytes_eq, cut_at, ◌==◌, split_scalar, drop,
}
use dusty.Router.{Node, node, Nodes, nil, cons, Child, no_child, child, segment_of, name_of}
use dusty.Router.Params.{Params, put, length-put, length-Within, remove-Within}
use dusty.Router.Match.{
  Match, found, not_found, too_many, or_else, match_statics, match_param, match_wildcard,
  match_segments, Answer, route, no_route, too_many_params, answer, match_in,
}
use dusty.Router.Query.{
  Query, parsed, too_many_query_params, invalid_escape, entry_of, parse_pairs, parse_query_string,
}
use dusty.Router.Register.{Router, get_method, head_method}
use dusty.Router.Find.{
  Limits, Found, segments_from, or_get, reply_to, find_path, find_after, find_cut, find_handler,
}

abbrev params_of : Match → Params
params_of (found c ps) = ps
params_of (not_found ps) = ps
params_of (too_many ps) = ps

module _ (limit : ℕ) where
  abbrev Fits : Match → Type 0
  Fits m = length (params_of m) ≤ limit

  Fits-or_else :
      (m : Match) (next : Params → Match)
      → Fits m
      → ((qs : Params) → length qs ≤ limit → Fits (next qs))
      → Fits (or_else m next)
  Fits-or_else (found c ps) next h g = h
  Fits-or_else (not_found ps) next h g = g ps h
  Fits-or_else (too_many ps) next h g = h

  Fits-match_statics :
      (f : Node → Params → Match) (segment : List ℕ) (st : Nodes) (ps : Params)
      → ((c : Node) (qs : Params) → length qs ≤ limit → Fits (f c qs))
      → length ps ≤ limit
      → Fits (match_statics f segment st ps)
  unfolding match_statics
  Fits-match_statics f segment nil ps g h = h
  Fits-match_statics f segment (cons c rest) ps g h =
      elim (Bool-cases (bytes_eq (segment_of c) segment)) [
        | inl e ↦
            rw e (
              Fits-or_else (f c ps) _ (g c ps h) (λ qs k. Fits-match_statics f segment rest qs g k))
        | inr e ↦ rw e (Fits-match_statics f segment rest ps g h)
      ]

  put_fits :
      (name value : List ℕ) (ps : Params)
      → leb limit (length ps) ≡ false
      → length (put name value ps) ≤ limit
  put_fits name value ps h = let n = length-put name value ps in ground (arith, n, h)

  Fits-match_param :
      (path : List ℕ) (f : Node → Params → Match) (segment : List ℕ) (p : Child) (ps : Params)
      → ((c : Node) (qs : Params) → length qs ≤ limit → Fits (f c qs))
      → length ps ≤ limit
      → Fits (match_param limit path f segment p ps)
  unfolding match_param
  Fits-match_param path f segment no_child ps g h = h
  Fits-match_param path f segment (child c) ps g h = elim (Bool-cases (leb limit (length ps))) [
    | inl e ↦ rw e h
    | inr e ↦ rw e (
        Fits-or_else (f c (put (name_of c) segment ps)) _
          (g c _ (put_fits (name_of c) segment ps e))
          (λ qs k. omega (arith, k, length-Within (remove-Within (name_of c) qs))))
  ]

  Fits-match_wildcard :
      (path : List ℕ) (offset : ℕ) (w : Child) (ps : Params)
      → length ps ≤ limit
      → Fits (match_wildcard limit path offset w ps)
  unfolding match_wildcard
  Fits-match_wildcard path offset no_child ps h = h
  Fits-match_wildcard path offset (child c) ps h = elim (Bool-cases (leb limit (length ps))) [
    | inl e ↦ rw e h
    | inr e ↦ rw e (put_fits (name_of c) (drop offset path) ps e)
  ]

  Fits-match_segments :
      (path : List ℕ) (segments : List (List ℕ × ℕ)) (c : Node) (ps : Params)
      → length ps ≤ limit
      → Fits (match_segments limit path segments c ps)
  unfolding match_segments
  Fits-match_segments path [] (node s k n st p w none) ps h = h
  Fits-match_segments path [] (node s k n st p w (some r)) ps h = h
  Fits-match_segments path ((segment, offset) ∷ rest) (node s k n st p w r) ps h =
      let below : (c : Node) (qs : Params)
          → length qs ≤ limit
          → Fits (match_segments limit path rest c qs) =
        λ c qs g. Fits-match_segments path rest c qs g in
      let f = match_segments limit path rest in
      let statics = match_statics f segment st ps in
      let param_child = match_param limit path f segment p in
      Fits-or_else (or_else statics param_child) (match_wildcard limit path offset w)
        (Fits-or_else statics param_child (Fits-match_statics f segment st ps below h)
          (λ qs g. Fits-match_param path f segment p qs below g))
        (λ qs g. Fits-match_wildcard path offset w qs g)

abbrev answered : Answer → Params
answered (route r ps) = ps
answered (no_route ps) = ps
answered (too_many_params ps) = ps

module _ (limit : ℕ) (path : List ℕ) (segments : List (List ℕ × ℕ)) where
  length-answer : (m : Match) → length (params_of m) ≤ limit → length (answered (answer m)) ≤ limit
  length-answer (found (node s k n st p w (some r)) ps) h = h
  length-answer (found (node s k n st p w none) ps) h = h
  length-answer (not_found ps) h = h
  length-answer (too_many ps) h = h

  length-match_in :
      (tree : Child) (ps : Params)
      → length ps ≤ limit
      → length (answered (match_in limit path segments tree ps)) ≤ limit
  unfolding match_in
  length-match_in no_child ps h = h
  length-match_in (child c) ps h =
      length-answer (match_segments limit path segments c ps)
        (Fits-match_segments limit path segments c ps h)

length-or_get :
    (limit : ℕ) (in_get : Params → Answer) (head : Bool) (a : Answer)
    → length (answered a) ≤ limit
    → ((ps : Params) → length ps ≤ limit → length (answered (in_get ps)) ≤ limit)
    → length (answered (or_get in_get head a)) ≤ limit
length-or_get limit in_get true (no_route ps) h g = g ps h
length-or_get limit in_get false (no_route ps) h g = h
length-or_get limit in_get true (route r ps) h g = h
length-or_get limit in_get false (route r ps) h g = h
length-or_get limit in_get true (too_many_params ps) h g = h
length-or_get limit in_get false (too_many_params ps) h g = h

abbrev query_read : Query → Params
query_read (parsed q) = q
query_read (too_many_query_params q) = q
query_read (invalid_escape q) = q

length-parse_pairs :
    (limit : ℕ) (pairs : List (List ℕ)) (q : Params)
    → length q ≤ limit
    → length (query_read (parse_pairs limit pairs q)) ≤ limit
unfolding parse_pairs
length-parse_pairs limit [] q h = h
length-parse_pairs limit ([] ∷ pairs) q h = length-parse_pairs limit pairs q h
length-parse_pairs limit ((b ∷ bs) ∷ pairs) q h =
    by_entry (leb limit (length q)) refl (entry_of (b ∷ bs))
      (λ r g. length-parse_pairs limit pairs r g)
  where
    by_entry :
        (full : Bool)
        → leb limit (length q) ≡ full
        → (entry : Option (List ℕ × List ℕ))
        → ((r : Params)
            → length r ≤ limit
            → length (query_read (parse_pairs limit pairs r)) ≤ limit)
        → length (
            query_read (elim full [
              | true ↦ too_many_query_params q
              | false ↦ elim entry [
                | none ↦ invalid_escape q
                | some e ↦ parse_pairs limit pairs (put e.0 e.1 q)
              ]
            ]))
          ≤ limit
    by_entry true e entry below = h
    by_entry false e none below = h
    by_entry false e (some (k, v)) below = below (put k v q) (put_fits limit k v q e)

length-parse_query_string :
    (limit : ℕ) (text : List ℕ) → length (query_read (parse_query_string limit text [])) ≤ limit
unfolding parse_query_string
length-parse_query_string limit [] = omega arith
length-parse_query_string limit (b ∷ bs) =
    length-parse_pairs limit (split_scalar b'&' (b ∷ bs)) [] (omega arith)

module _ (router : Router) (limits : Limits) (method : ℕ) where
  length-find_path :
      (path : List ℕ) (ps : Params)
      → length ps ≤ limits.max_param_count
      → length (answered (find_path router limits method path ps)) ≤ limits.max_param_count
  unfolding find_path
  length-find_path path ps h =
      let segments = segments_from 0 (split_scalar b'/' path) in
      length-or_get (limits.max_param_count) _ (method == head_method) _
        (length-match_in (limits.max_param_count) path segments (router.trees method) ps h)
        (λ qs g.
          length-match_in (limits.max_param_count) path segments (router.trees get_method) qs g)

  abbrev pub Fitting : Found → Type 0
  Fitting out =
      (length (out.params) ≤ limits.max_param_count) × (length (out.query) ≤ limits.max_query_count)

  Fitting-reply_to :
      (a : Answer) (q : Params)
      → length (answered a) ≤ limits.max_param_count
      → length q ≤ limits.max_query_count
      → Fitting (reply_to a q)
  Fitting-reply_to (route r ps) q h g = (h, g)
  Fitting-reply_to (no_route ps) q h g = (h, g)
  Fitting-reply_to (too_many_params ps) q h g = (h, g)

  Fitting-find_after :
      (path : List ℕ) (ps : Params) (q : Query)
      → length ps ≤ limits.max_param_count
      → length (query_read q) ≤ limits.max_query_count
      → Fitting (find_after router limits method path ps q)
  Fitting-find_after path ps (parsed q) h g = Fitting-reply_to _ q (length-find_path path ps h) g
  Fitting-find_after path ps (too_many_query_params q) h g = (h, g)
  Fitting-find_after path ps (invalid_escape q) h g = (h, g)

  Fitting-find_cut :
      (url : List ℕ) (ps : Params) (cut : Option (List ℕ × List ℕ))
      → length ps ≤ limits.max_param_count
      → Fitting (find_cut router limits method url ps cut)
  Fitting-find_cut url ps none h = Fitting-find_after url ps (parsed []) h (omega arith)
  Fitting-find_cut url ps (some (path, text)) h =
      Fitting-find_after path ps _ h (length-parse_query_string (limits.max_query_count) text)

  -- Whatever the trees are and however the search ends, with an error or without: a request that
  -- comes with no more parameters than allowed has no more than allowed afterwards, and its query
  -- has no more names than allowed.
  pub find_handler-Fitting :
      (url : List ℕ) (ps : Params)
      → length ps ≤ limits.max_param_count
      → Fitting (find_handler router limits method url ps)
  unfolding find_handler
  find_handler-Fitting url ps h = Fitting-find_cut url ps (cut_at b'?' url) h
