-- ===== src/Router/Refine.antt =====
-- What a router promises, with no trees: a table from methods and the shapes of paths to routes, in
-- which a registration overwrites the entry of its own shape. src/router.zig implements it.
use dusty.Base.{
  ℕ, ◌≡◌, refl, ap, sym, ◌∙◌, subst, ◌&&◌, List, [], ◌∷◌, ◌++◌, map, All, Option, none, some, ◌==◌,
  if◌then◌else◌, Bool-cases, inl, inr, append-nil,
}
use dusty.Router.{Child, no_child, Route, static, or_new, insert_route, path_segments}
use dusty.Router.Table.{
  Shape, shape_of, same_shapes, lookup, at_child, lookup-insert_segments, lookup-or_new,
}
use dusty.Router.Tidy.{IsTidy, TidyChild, EndsTidily, IsTidy-insert_segments, IsTidy-or_new}
use dusty.Router.Register.{
  Router, insert, insert_all, on, any, Group, register, register_all, merge_middlewares,
  all_methods,
}

abbrev pub Table : Type 0
Table = ℕ → List Shape → Option Route

abbrev pub shapes_of : List ℕ → List Shape
shapes_of path = map shape_of (path_segments path)

abbrev pub add_entry : List ℕ → ℕ → ℕ → List ℕ → Table → Table
add_entry path method handler middlewares table m q =
    if m == method && same_shapes (shapes_of path) q
    then some (record { action = handler; middlewares = middlewares })
    else table m q

pub add_entries : List ℕ → List ℕ → ℕ → List ℕ → Table → Table
add_entries [] path handler middlewares table = table
add_entries (m ∷ ms) path handler middlewares table =
    add_entries ms path handler middlewares (add_entry path m handler middlewares table)

-- The calls by which routes are registered.
pub data Call : Type 0 where
  on_router : (method : ℕ) (path : List ℕ) (handler : ℕ) → Call
  on_router_any : (path : List ℕ) (handler : ℕ) → Call
  on_group : Group → (method : ℕ) (path : List ℕ) (handler : ℕ) → Call
  on_group_any : Group → (path : List ℕ) (handler : ℕ) → Call

unfoldable pub run : List Call → Router → Router
unfolding on any register register_all
run [] router = router
run (on_router method path handler ∷ calls) router = run calls (on method path handler router)
run (on_router_any path handler ∷ calls) router = run calls (any path handler router)
run (on_group g method path handler ∷ calls) router =
    run calls (register g method path handler router)
run (on_group_any g path handler ∷ calls) router =
    run calls (register_all g all_methods path handler router)

-- A group's path stands behind its prefix, and its middlewares behind those of the router.
unfoldable pub table_after : List ℕ → List Call → Table → Table
unfolding add_entries
table_after global [] table = table
table_after global (on_router method path handler ∷ calls) table =
    table_after global calls (add_entry path method handler global table)
table_after global (on_router_any path handler ∷ calls) table =
    table_after global calls (add_entries all_methods path handler global table)
table_after global (on_group g method path handler ∷ calls) table =
    table_after global calls
      (add_entry (g.prefix ++ path) method handler (global ++ g.group_middlewares) table)
table_after global (on_group_any g path handler ∷ calls) table =
    table_after global calls
      (add_entries all_methods (g.prefix ++ path) handler (global ++ g.group_middlewares) table)

-- In the path of the call a wildcard is the last segment.
abbrev pub EndsWell : Call → Type 0
EndsWell (on_router method path handler) = EndsTidily (path_segments path)
EndsWell (on_router_any path handler) = EndsTidily (path_segments path)
EndsWell (on_group g method path handler) = EndsTidily (path_segments (g.prefix ++ path))
EndsWell (on_group_any g path handler) = EndsTidily (path_segments (g.prefix ++ path))

pub record Represents (router : Router) (table : Table) (global : List ℕ) : Type 0 where
  pub entries : (m : ℕ) (q : List Shape) → at_child (lookup q) (router.trees m) ≡ table m q
  pub tidy : (m : ℕ) → TidyChild (router.trees m)
  pub same_global : router.middlewares ≡ global

merge_middlewares-append : (ms gs : List ℕ) → merge_middlewares ms gs ≡ ms ++ gs
merge_middlewares-append [] gs = refl
merge_middlewares-append (m ∷ ms) [] = sym (append-nil (m ∷ ms))
merge_middlewares-append (m ∷ ms) (g ∷ gs) = refl

lookup-insert_route :
    (path : List ℕ) (r : Route) (tree : Child) (q : List Shape)
    → at_child (lookup q) (insert_route path r tree)
      ≡ (if same_shapes (shapes_of path) q then some r else at_child (lookup q) tree)
unfolding insert_route
lookup-insert_route path r tree q =
    lookup-insert_segments (path_segments path) r q (or_new static [] tree)
    ∙ ap (λ o. if same_shapes (shapes_of path) q then some r else o)
        (lookup-or_new q static [] tree)

TidyChild-insert_route :
    (path : List ℕ) (r : Route) (tree : Child)
    → EndsTidily (path_segments path)
    → TidyChild tree
    → TidyChild (insert_route path r tree)
unfolding insert_route IsTidy
TidyChild-insert_route path r tree e t =
    IsTidy-insert_segments (path_segments path) r (or_new static [] tree) e
      (IsTidy-or_new static [] tree t)

module _ (path : List ℕ) (handler : ℕ) (middlewares global : List ℕ)
    (ends : EndsTidily (path_segments path)) where
  Represents-insert :
      (method : ℕ) (router : Router) (table : Table)
      → Represents router table global
      → Represents
          (insert path method handler middlewares router)
          (add_entry path method handler middlewares table)
          global
  unfolding insert
  Represents-insert method router table r = record {
    entries = λ m q. elim (Bool-cases (m == method)) [
      | inl h ↦ rw h (
          lookup-insert_route path _ (router.trees m) q
          ∙ ap
              (λ o.
                if same_shapes (shapes_of path) q
                then some (record { action = handler; middlewares = middlewares })
                else o)
              (r.entries m q))
      | inr h ↦ rw h (r.entries m q)
    ];
    tidy = λ m. elim (Bool-cases (m == method)) [
      | inl h ↦ rw h (TidyChild-insert_route path _ (router.trees m) ends (r.tidy m))
      | inr h ↦ rw h (r.tidy m)
    ];
    same_global = r.same_global;
  }

  Represents-insert_all :
      (ms : List ℕ) (router : Router) (table : Table)
      → Represents router table global
      → Represents
          (insert_all ms path handler middlewares router)
          (add_entries ms path handler middlewares table)
          global
  unfolding insert_all add_entries
  Represents-insert_all [] router table r = r
  Represents-insert_all (m ∷ ms) router table r =
      Represents-insert_all ms (insert path m handler middlewares router)
        (add_entry path m handler middlewares table) (Represents-insert m router table r)

-- The middlewares of a route are those that the router had when it was registered.
module _ (path : List ℕ) (handler : ℕ) (global : List ℕ) (router : Router) (table : Table)
    (r : Represents router table global) where
  Represents-on :
      (method : ℕ)
      → EndsTidily (path_segments path)
      → Represents
          (on method path handler router)
          (add_entry path method handler global table)
          global
  unfolding on
  Represents-on method ends =
      subst
        (λ ms.
          Represents (insert path method handler ms router)
            (add_entry path method handler global table) global)
        (sym (r.same_global))
        (Represents-insert path handler global global ends method router table r)

  Represents-any :
      EndsTidily (path_segments path)
      → Represents
          (any path handler router)
          (add_entries all_methods path handler global table)
          global
  unfolding any
  Represents-any ends =
      subst
        (λ ms.
          Represents (insert_all all_methods path handler ms router)
            (add_entries all_methods path handler global table) global)
        (sym (r.same_global))
        (Represents-insert_all path handler global global ends all_methods router table r)

  Represents-register :
      (g : Group) (method : ℕ)
      → EndsTidily (path_segments (g.prefix ++ path))
      → Represents
          (register g method path handler router)
          (add_entry (g.prefix ++ path) method handler (global ++ g.group_middlewares) table)
          global
  unfolding register
  Represents-register g method ends =
      let merged =
        ap (λ ms. merge_middlewares ms (g.group_middlewares)) (r.same_global)
        ∙ merge_middlewares-append global (g.group_middlewares) in
      subst
        (λ ms.
          Represents (insert (g.prefix ++ path) method handler ms router)
            (add_entry (g.prefix ++ path) method handler (global ++ g.group_middlewares) table)
            global)
        (sym merged)
        (Represents-insert (g.prefix ++ path) handler (global ++ g.group_middlewares) global ends
          method router table r)

Represents-register_all :
    (path : List ℕ) (handler : ℕ) (global : List ℕ) (g : Group) (ms : List ℕ) (router : Router)
    (table : Table)
    → EndsTidily (path_segments (g.prefix ++ path))
    → Represents router table global
    → Represents
        (register_all g ms path handler router)
        (add_entries ms (g.prefix ++ path) handler (global ++ g.group_middlewares) table)
        global
unfolding register_all add_entries
Represents-register_all path handler global g [] router table ends r = r
Represents-register_all path handler global g (m ∷ ms) router table ends r =
    Represents-register_all path handler global g ms (register g m path handler router)
      (add_entry (g.prefix ++ path) m handler (global ++ g.group_middlewares) table) ends
      (Represents-register path handler global router table r g m ends)

pub Represents-run :
    (global : List ℕ) (calls : List Call) (router : Router) (table : Table)
    → All EndsWell calls
    → Represents router table global
    → Represents (run calls router) (table_after global calls table) global
unfolding run table_after
Represents-run global [] router table ends r = r
Represents-run global (on_router method path handler ∷ calls) router table ends r =
    Represents-run global calls _ _ ends.1
      (Represents-on path handler global router table r method ends.0)
Represents-run global (on_router_any path handler ∷ calls) router table ends r =
    Represents-run global calls _ _ ends.1
      (Represents-any path handler global router table r ends.0)
Represents-run global (on_group g method path handler ∷ calls) router table ends r =
    Represents-run global calls _ _ ends.1
      (Represents-register path handler global router table r g method ends.0)
Represents-run global (on_group_any g path handler ∷ calls) router table ends r =
    Represents-run global calls _ _ ends.1
      (Represents-register_all path handler global g all_methods router table ends.0 r)

pub Represents-empty :
    (global : List ℕ)
    → Represents (record { trees = λ m. no_child; middlewares = global }) (λ m q. none) global
unfolding IsTidy
Represents-empty global = record { entries = λ m q. refl; tidy = λ m. tt; same_global = refl }
