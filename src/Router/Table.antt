-- ===== src/Router/Table.antt =====
-- What a routing tree stands for: a table from the shapes of paths to routes.
use dusty.Base.{
  ℕ, ◌≡◌, refl, ap, ◌∙◌, Bool, true, false, ◌&&◌, List, [], ◌∷◌, map, Option, none, some, arith,
  if◌then◌else◌, bytes_eq, bytes_eq_iff,
}
use dusty.Router.{
  Node, node, Nodes, nil, cons, Child, no_child, child, NodeKind, static, param, wildcard, Route,
  segment_of, kind_of, new_node, or_new, find_static, replace_static, update_static, descend,
  insert_segments,
}

-- A segment of a path to be matched: a given text, any one segment, or all that is left.
pub data Shape : Type 0 where
  text : List ℕ → Shape
  any_one : Shape
  any_rest : Shape

abbrev shape_in : NodeKind → List ℕ → Shape
shape_in static segment = text segment
shape_in param segment = any_one
shape_in wildcard segment = any_rest

abbrev pub shape_of : List ℕ → Shape
shape_of segment = shape_in (kind_of segment) segment

pub same_shape : Shape → Shape → Bool
same_shape (text s) (text t) = bytes_eq s t
same_shape any_one any_one = true
same_shape any_rest any_rest = true
same_shape _ _ = false

pub same_shapes : List Shape → List Shape → Bool
unfolding same_shape
same_shapes [] [] = true
same_shapes (s ∷ ss) (t ∷ ts) = same_shape s t && same_shapes ss ts
same_shapes [] (t ∷ ts) = false
same_shapes (s ∷ ss) [] = false

abbrev pub at_child : (Node → Option Route) → Child → Option Route
at_child f no_child = none
at_child f (child c) = f c

-- The route that stands at the end of a path of these shapes.
unfoldable pub lookup : List Shape → Node → Option Route
unfolding find_static
lookup [] (node s k n st p w r) = r
lookup (text segment ∷ shapes) (node s k n st p w r) =
    at_child (lookup shapes) (find_static segment st)
lookup (any_one ∷ shapes) (node s k n st p w r) = at_child (lookup shapes) p
lookup (any_rest ∷ shapes) (node s k n st p w r) = at_child (lookup shapes) w

lookup-new_node : (q : List Shape) (k : NodeKind) (s : List ℕ) → lookup q (new_node k s) ≡ none
unfolding lookup
lookup-new_node [] k s = refl
lookup-new_node (text t ∷ q) k s = refl
lookup-new_node (any_one ∷ q) k s = refl
lookup-new_node (any_rest ∷ q) k s = refl

pub segment_of-insert_segments :
    (segs : List (List ℕ)) (r : Route) (c : Node)
    → segment_of (insert_segments segs r c) ≡ segment_of c
unfolding insert_segments
segment_of-insert_segments [] r (node s k n st p w o) = refl
segment_of-insert_segments (seg ∷ segs) r (node s k n st p w o) = by_kind (kind_of seg)
  where
    by_kind :
        (kind : NodeKind)
        → segment_of (descend (insert_segments segs r) kind seg (node s k n st p w o)) ≡ s
    by_kind static = refl
    by_kind param = refl
    by_kind wildcard = refl

abbrev pub map_child : (Node → Node) → Child → Child
map_child f no_child = no_child
map_child f (child c) = child (f c)

module _ (f : Node → Node) (keeps : (c : Node) → segment_of (f c) ≡ segment_of c)
    (seg : List ℕ) where
  find_static-replace_static :
      (t : List ℕ) (st : Nodes)
      → find_static t (replace_static f seg st)
        ≡ (if bytes_eq seg t then map_child f (find_static seg st) else find_static t st)
  unfolding find_static replace_static
  find_static-replace_static t nil = ground arith
  find_static-replace_static t (cons c rest) = ground (
    arith,
    keeps c,
    bytes_eq_iff (segment_of c) seg,
    bytes_eq_iff seg t,
    bytes_eq_iff (segment_of c) t,
    find_static-replace_static t rest,
  )

  -- After an update of the child for one segment the others are the same.
  find_static-update_static :
      (t : List ℕ) (st : Nodes)
      → find_static t (update_static f seg st) ≡ (
          if bytes_eq seg t
          then child (f (or_new static seg (find_static seg st)))
          else find_static t st)
  unfolding update_static find_static
  find_static-update_static t st = by_child (find_static seg st) refl
    where
      by_child :
          (found : Child)
          → find_static seg st ≡ found
          → find_static t (elim found [
            | no_child ↦ cons (f (new_node static seg)) st
            | child c ↦ replace_static f seg st
          ])
            ≡ (if bytes_eq seg t then child (f (or_new static seg found)) else find_static t st)
      by_child no_child e = ground (arith, keeps (new_node static seg))
      by_child (child c) e = ground (arith, find_static-replace_static t st, e)

pub lookup-or_new :
    (q : List Shape) (k : NodeKind) (seg : List ℕ) (c : Child)
    → lookup q (or_new k seg c) ≡ at_child (lookup q) c
lookup-or_new q k seg no_child = lookup-new_node q k seg
lookup-or_new q k seg (child c) = refl

-- One step down, when the rest of the insertion is as it should be.
module _ (f : Node → Node) (keeps : (c : Node) → segment_of (f c) ≡ segment_of c)
    (shapes : List Shape) (r : Route)
    (below : (q : List Shape) (c : Node)
      → lookup q (f c) ≡ (if same_shapes shapes q then some r else lookup q c)) where
  lookup_below :
      (q : List Shape) (k : NodeKind) (seg : List ℕ) (c : Child)
      → lookup q (f (or_new k seg c))
        ≡ (if same_shapes shapes q then some r else at_child (lookup q) c)
  lookup_below q k seg c =
      below q (or_new k seg c)
      ∙ ap (λ o. if same_shapes shapes q then some r else o) (lookup-or_new q k seg c)

  lookup-descend :
      (kind : NodeKind) (seg : List ℕ) (q : List Shape) (c : Node)
      → lookup q (descend f kind seg c)
        ≡ (if same_shapes (shape_in kind seg ∷ shapes) q then some r else lookup q c)
  unfolding lookup descend same_shapes
  lookup-descend static seg [] (node s k n st p w o) = refl
  lookup-descend static seg (text t ∷ q) (node s k n st p w o) = ground (
    arith,
    find_static-update_static f keeps seg t st,
    lookup_below q static seg (find_static seg st),
    bytes_eq_iff seg t,
  )
  lookup-descend static seg (any_one ∷ q) (node s k n st p w o) = refl
  lookup-descend static seg (any_rest ∷ q) (node s k n st p w o) = refl
  lookup-descend param seg [] (node s k n st p w o) = refl
  lookup-descend param seg (text t ∷ q) (node s k n st p w o) = refl
  lookup-descend param seg (any_one ∷ q) (node s k n st p w o) = lookup_below q param seg p
  lookup-descend param seg (any_rest ∷ q) (node s k n st p w o) = refl
  lookup-descend wildcard seg [] (node s k n st p w o) = refl
  lookup-descend wildcard seg (text t ∷ q) (node s k n st p w o) = refl
  lookup-descend wildcard seg (any_one ∷ q) (node s k n st p w o) = refl
  lookup-descend wildcard seg (any_rest ∷ q) (node s k n st p w o) = lookup_below q wildcard seg w

-- An insertion gives the route to its own shape and leaves every other shape as it was.
pub lookup-insert_segments :
    (segs : List (List ℕ)) (r : Route) (q : List Shape) (c : Node)
    → lookup q (insert_segments segs r c)
      ≡ (if same_shapes (map shape_of segs) q then some r else lookup q c)
unfolding lookup insert_segments same_shapes
lookup-insert_segments [] r [] (node s k n st p w o) = refl
lookup-insert_segments [] r (text t ∷ q) (node s k n st p w o) = refl
lookup-insert_segments [] r (any_one ∷ q) (node s k n st p w o) = refl
lookup-insert_segments [] r (any_rest ∷ q) (node s k n st p w o) = refl
lookup-insert_segments (seg ∷ segs) r q c =
    lookup-descend (insert_segments segs r) (segment_of-insert_segments segs r) (map shape_of segs)
      r (λ p d. lookup-insert_segments segs r p d) (kind_of seg) seg q c
