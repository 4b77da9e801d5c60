-- ===== src/Router/Match.antt =====
-- src/router.zig, `matchRecursive` and `matchIn`. A segment of the request comes with its offset in
-- the path.
use dusty.Base.{ℕ, List, [], ◌∷◌, none, some, leb, if◌then◌else◌, length, drop, bytes_eq}
use dusty.Router.{Node, node, Nodes, nil, cons, Child, no_child, child, Route, segment_of, name_of}
use dusty.Router.Params.{Params, put, remove}

-- `found` is a node, `not_found` null and `too_many` error.TooManyParams; the parameters are those
-- of the request then.
pub data Match : Type 0 where
  found : Node → Params → Match
  not_found : Params → Match
  too_many : Params → Match

abbrev pub or_else : Match → (Params → Match) → Match
or_else (found c ps) next = found c ps
or_else (not_found ps) next = next ps
or_else (too_many ps) next = too_many ps

-- The loop over the static children.
unfoldable pub match_statics : (Node → Params → Match) → List ℕ → Nodes → Params → Match
match_statics f segment nil ps = not_found ps
match_statics f segment (cons c rest) ps =
    let here = or_else (f c ps) (λ qs. match_statics f segment rest qs) in
    let there = match_statics f segment rest ps in
    if bytes_eq (segment_of c) segment then here else there

module _ (max_param_count : ℕ) (path : List ℕ) where
  -- The parameter child, and its parameter taken back when nothing is found below it.
  unfoldable pub match_param : (Node → Params → Match) → List ℕ → Child → Params → Match
  unfolding put remove
  match_param f segment no_child ps = not_found ps
  match_param f segment (child c) ps =
      let deeper =
        or_else (f c (put (name_of c) segment ps)) (λ qs. not_found (remove (name_of c) qs)) in
      if leb max_param_count (length ps) then too_many ps else deeper

  unfoldable pub match_wildcard : ℕ → Child → Params → Match
  unfolding put
  match_wildcard offset no_child ps = not_found ps
  match_wildcard offset (child c) ps =
      if leb max_param_count (length ps)
      then too_many ps
      else found c (put (name_of c) (drop offset path) ps)

  unfoldable pub match_segments : List (List ℕ × ℕ) → Node → Params → Match
  unfolding match_statics match_param match_wildcard
  match_segments [] (node s k n st p w none) ps = not_found ps
  match_segments [] (node s k n st p w (some r)) ps = found (node s k n st p w (some r)) ps
  match_segments ((segment, offset) ∷ rest) (node s k n st p w r) ps =
      or_else
        (or_else (match_statics (match_segments rest) segment st ps)
          (λ qs. match_param (match_segments rest) segment p qs))
        (λ qs. match_wildcard offset w qs)

-- What `matchIn` returns, with the parameters of the request.
pub data Answer : Type 0 where
  route : Route → Params → Answer
  no_route : Params → Answer
  too_many_params : Params → Answer

abbrev pub answer : Match → Answer
answer (found (node s k n st p w (some r)) ps) = route r ps
answer (found (node s k n st p w none) ps) = no_route ps
answer (not_found ps) = no_route ps
answer (too_many ps) = too_many_params ps

unfoldable pub match_in : ℕ → List ℕ → List (List ℕ × ℕ) → Child → Params → Answer
unfolding match_segments
match_in max_param_count path segments no_child ps = no_route ps
match_in max_param_count path segments (child c) ps =
    answer (match_segments max_param_count path segments c ps)
