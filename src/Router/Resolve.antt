-- ===== src/Router/Resolve.antt =====
-- What a table of routes answers to the segments of a path, with no tree: at each segment the
-- routes that name it come first, those that take any one segment next, and the route that takes
-- all that is left comes last. `matchRecursive` answers so on every tidy tree.
use mathlib.Core.Path.{fun_ext}
use dusty.Base.{
  ℕ, suc, ◌+◌, ◌≤◌, ◌≡◌, refl, ap, sym, subst, false, List, [], ◌∷◌, map, Option, none, some, arith,
  leb, length, bytes_eq, bytes_eq_iff, Bool-cases, inl, inr,
}
use dusty.Router.{
  Node, node, Nodes, nil, cons, Child, no_child, child, Route, segment_of, route_of, name_of,
  find_static,
}
use dusty.Router.Params.{
  Params, put, remove, Within, Within-refl, Within-trans, length-Within, remove-put, length-put,
}
use dusty.Router.Match.{
  Match, found, not_found, too_many, or_else, match_statics, match_param, match_wildcard,
  match_segments,
}
use dusty.Router.Table.{Shape, text, any_one, any_rest, lookup, at_child}
use dusty.Router.Tidy.{IsTidy, AllTidy, TidyChild, IsNew, WildRoute, HasRoute}

abbrev pub first_of : Option Route → Option Route → Option Route
first_of none o = o
first_of (some r) o = some r

pub resolve : (List Shape → Option Route) → List (List ℕ) → Option Route
resolve table [] = table []
resolve table (s ∷ ss) =
    first_of (resolve (λ q. table (text s ∷ q)) ss)
      (first_of (resolve (λ q. table (any_one ∷ q)) ss) (table (any_rest ∷ [])))

first_of_assoc : (a b c : Option Route) → first_of (first_of a b) c ≡ first_of a (first_of b c)
first_of_assoc none b c = refl
first_of_assoc (some r) b c = refl

pub resolve-none : (ss : List (List ℕ)) → resolve (λ q. none) ss ≡ none
unfolding resolve
resolve-none [] = refl
resolve-none (s ∷ ss) = rw (resolve-none ss)

pub resolve_ext :
    (f g : List Shape → Option Route) (ss : List (List ℕ))
    → ((q : List Shape) → f q ≡ g q)
    → resolve f ss ≡ resolve g ss
resolve_ext f g ss h = ap (λ t. resolve t ss) (fun_ext h)

-- The tree gives the answer `o`, and takes back the parameters that it bound when that is none.
abbrev pub Gives : Match → Option Route → Params → Type 0
Gives (found c qs) o ps = (route_of c ≡ o) × HasRoute o
Gives (not_found qs) o ps = (o ≡ none) × Within qs ps
Gives (too_many qs) o ps = ⊥

Gives-or_else :
    (m : Match) (next : Params → Match) (a b : Option Route) (ps : Params)
    → Gives m a ps
    → ((qs : Params) → Within qs ps → Gives (next qs) b ps)
    → Gives (or_else m next) (first_of a b) ps
Gives-or_else (found c qs) next none b ps g h = absurd g.1
Gives-or_else (found c qs) next (some r) b ps g h = g
Gives-or_else (not_found qs) next a b ps g h =
    subst (λ o. Gives (next qs) (first_of o b) ps) (sym g.0) (h qs g.1)
Gives-or_else (too_many qs) next a b ps g h = absurd g

widen : (m : Match) (o : Option Route) (qs ps : Params) → Gives m o qs → Within qs ps → Gives m o ps
widen (found c rs) o qs ps g w = g
widen (not_found rs) o qs ps g w = (g.0, Within-trans g.1 w)
widen (too_many rs) o qs ps g w = g

Gives-alone :
    (m : Match) (o : Option Route) (ps : Params) → Gives m o ps → Gives (or_else m not_found) o ps
Gives-alone (found c qs) o ps g = g
Gives-alone (not_found qs) o ps g = g
Gives-alone (too_many qs) o ps g = g

Gives-taken_back :
    (m : Match) (o : Option Route) (name value : List ℕ) (ps : Params)
    → Gives m o (put name value ps)
    → Gives (or_else m (λ qs. not_found (remove name qs))) o ps
Gives-taken_back (found c qs) o name value ps g = g
Gives-taken_back (not_found qs) o name value ps g = (g.0, remove-put name value ps qs g.1)
Gives-taken_back (too_many qs) o name value ps g = g

room : (limit n : ℕ) → suc n ≤ limit → leb limit n ≡ false
room limit n h = ground arith

module _ (max_param_count : ℕ) (path : List ℕ) (rest : List (List ℕ × ℕ)) where
  -- What is known of the segments behind the first.
  Below : Type 0
  Below =
      (c : Node) (ps : Params)
      → IsTidy c
      → length ps + length rest ≤ max_param_count
      → Gives (match_segments max_param_count path rest c ps)
          (resolve (λ q. lookup q c) (map (λ x. x.0) rest)) ps

  texts : List (List ℕ)
  texts = map (λ x. x.0) rest

  abbrev below_child : Child → Option Route
  below_child c = resolve (λ q. at_child (lookup q) c) texts

  -- No other static child has a segment, so the loop stops or finds nothing.
  statics-new :
      (segment : List ℕ) (st : Nodes) (ps : Params)
      → IsNew segment st
      → match_statics (match_segments max_param_count path rest) segment st ps ≡ not_found ps
  unfolding match_statics
  statics-new segment nil ps h = refl
  statics-new segment (cons c others) ps h = rw h.0 (statics-new segment others ps h.1)

  Gives-statics :
      (segment : List ℕ) (st : Nodes) (ps : Params)
      → Below
      → AllTidy st
      → suc (length ps + length rest) ≤ max_param_count
      → Gives
          (match_statics (match_segments max_param_count path rest) segment st ps)
          (below_child (find_static segment st))
          ps
  unfolding match_statics find_static IsTidy Below texts
  Gives-statics segment nil ps ih a b = (resolve-none texts, Within-refl ps)
  Gives-statics segment (cons c others) ps ih a b =
      elim (Bool-cases (bytes_eq (segment_of c) segment)) [
        | inl e ↦ rw e (
            let new = subst (λ t. IsNew t others) ((bytes_eq_iff (segment_of c) segment).0 e) a.1 in
            subst
              (λ g.
                Gives (or_else (match_segments max_param_count path rest c ps) g)
                  (resolve (λ q. lookup q c) texts) ps)
              (sym (fun_ext (λ qs. statics-new segment others qs new)))
              (Gives-alone (match_segments max_param_count path rest c ps)
                (resolve (λ q. lookup q c) texts) ps (ih c ps a.0 (omega arith))))
        | inr e ↦ rw e (Gives-statics segment others ps ih a.2 b)
      ]

  Gives-param :
      (segment : List ℕ) (p : Child) (ps : Params)
      → Below
      → TidyChild p
      → suc (length ps + length rest) ≤ max_param_count
      → Gives
          (match_param max_param_count path (match_segments max_param_count path rest) segment p ps)
          (below_child p)
          ps
  unfolding match_param Below texts IsTidy
  Gives-param segment no_child ps ih t b = (resolve-none texts, Within-refl ps)
  Gives-param segment (child c) ps ih t b = rw (room max_param_count (length ps) (omega arith)) (
      Gives-taken_back _ _ (name_of c) segment ps
        (ih c (put (name_of c) segment ps) t (omega (arith, length-put (name_of c) segment ps))))

  Gives-wildcard :
      (offset : ℕ) (w : Child) (ps : Params)
      → WildRoute w
      → suc (length ps + length rest) ≤ max_param_count
      → Gives (match_wildcard max_param_count path offset w ps) (at_child (lookup []) w) ps
  unfolding match_wildcard lookup
  Gives-wildcard offset no_child ps h b = (refl, Within-refl ps)
  Gives-wildcard offset (child (node s k n st p w r)) ps h b =
      rw (room max_param_count (length ps) (omega arith)) (refl, h)

  -- The three steps at a node, each after the one before has found nothing.
  Gives-node :
      (segment : List ℕ) (offset : ℕ) (c : Node) (ps : Params)
      → Below
      → IsTidy c
      → suc (length ps + length rest) ≤ max_param_count
      → Gives
          (match_segments max_param_count path ((segment, offset) ∷ rest) c ps)
          (resolve (λ q. lookup q c) (segment ∷ texts))
          ps
  unfolding match_segments IsTidy texts resolve lookup
  Gives-node segment offset (node s k n st p w r) ps ih t b =
      let f = match_segments max_param_count path rest in
      let m = match_statics f segment st ps in
      let room_at : (qs : Params) → Within qs ps → suc (length qs + length rest) ≤ max_param_count =
        λ qs v. omega (arith, length-Within v, b) in
      subst
        (λ o.
          Gives
            (or_else (or_else m (λ qs. match_param max_param_count path f segment p qs))
              (λ qs. match_wildcard max_param_count path offset w qs))
            o ps)
        (first_of_assoc (below_child (find_static segment st)) (below_child p)
          (at_child (lookup []) w))
        (Gives-or_else _ _ _ _ ps
          (Gives-or_else m _ _ _ ps (Gives-statics segment st ps ih t.0 b)
            (λ qs v. widen _ _ qs ps (Gives-param segment p qs ih t.1 (room_at qs v)) v))
          (λ qs v. widen _ _ qs ps (Gives-wildcard offset w qs t.2 (room_at qs v)) v))

-- On a tidy tree, with room for a parameter at every segment.
pub Gives-match_segments :
    (max_param_count : ℕ) (path : List ℕ) (segments : List (List ℕ × ℕ)) (c : Node) (ps : Params)
    → IsTidy c
    → length ps + length segments ≤ max_param_count
    → Gives
        (match_segments max_param_count path segments c ps)
        (resolve (λ q. lookup q c) (map (λ x. x.0) segments))
        ps
unfolding match_segments lookup resolve Below texts
Gives-match_segments limit path [] (node s k n st p w none) ps t b = (refl, Within-refl ps)
Gives-match_segments limit path [] (node s k n st p w (some r)) ps t b = (refl, tt)
Gives-match_segments limit path ((segment, offset) ∷ rest) c ps t b =
    Gives-node limit path rest segment offset c ps
      (λ d qs u v. Gives-match_segments limit path rest d qs u v) t (omega (arith, b))
