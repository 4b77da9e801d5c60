-- ===== src/Router.antt =====
-- src/router.zig: the routing trees. A tree is a value here: `insertRoute` returns the new tree.
pub mod Params
pub mod Match
pub mod Table
pub mod Tidy
pub mod Resolve
pub mod Query
pub mod QueryTrip
pub mod Register
pub mod Find
pub mod Refine
pub mod Answers
pub mod Bounds
mod Examples
use dusty.Base.{
  ℕ, zero, suc, ◌+◌, ◌≤◌, Bool, true, false, List, [], ◌∷◌, Option, none, some, ◌==◌, leb,
  if◌then◌else◌, length, drop, bytes_eq, split_scalar,
}

pub data NodeKind : Type 0 where
  static param wildcard : NodeKind

-- An action and middlewares, by number.
pub record Route : Type 0 where
  pub action : ℕ
  pub middlewares : List ℕ

-- `Nodes` is the list that `static_children` and `next_sibling` make, `Child` a node or null.
mutual
  pub data Node : Type 0 where
    node :
        (segment : List ℕ) (kind : NodeKind) (param_name : Option (List ℕ))
        (static_children : Nodes)
        → (param_child wildcard_child : Child) (route : Option Route) → Node

  pub data Nodes : Type 0 where
    nil : Nodes
    cons : Node → Nodes → Nodes

  pub data Child : Type 0 where
    no_child : Child
    child : Node → Child

abbrev pub segment_of : Node → List ℕ
segment_of (node s k n st p w r) = s

abbrev pub route_of : Node → Option Route
route_of (node s k n st p w r) = r

-- `c.param_name.?`
abbrev pub name_of : Node → List ℕ
name_of (node s k (some n) st p w r) = n
name_of (node s k none st p w r) = []

abbrev pub kind_of : List ℕ → NodeKind
kind_of [] = static
kind_of (b ∷ bs) = if b == b'*' then wildcard else if b == b':' then param else static

abbrev pub name_in : NodeKind → List ℕ → Option (List ℕ)
name_in static segment = none
name_in param segment = some (drop 1 segment)
name_in wildcard segment = some (drop 1 segment)

abbrev pub new_node : NodeKind → List ℕ → Node
new_node kind segment = node segment kind (name_in kind segment) nil no_child no_child none

-- `findChild` among the static children.
pub find_static : List ℕ → Nodes → Child
find_static segment nil = no_child
find_static segment (cons c rest) =
    if bytes_eq (segment_of c) segment then child c else find_static segment rest

-- The child that `findChild` finds is changed in place.
replace_static : (Node → Node) → List ℕ → Nodes → Nodes
replace_static f segment nil = nil
replace_static f segment (cons c rest) =
    let others = replace_static f segment rest in
    if bytes_eq (segment_of c) segment then cons (f c) rest else cons c others

abbrev pub or_new : NodeKind → List ℕ → Child → Node
or_new kind segment no_child = new_node kind segment
or_new kind segment (child c) = c

-- A new static child goes in front of the others.
update_static : (Node → Node) → List ℕ → Nodes → Nodes
unfolding find_static replace_static
update_static f segment children = elim (find_static segment children) [
  | no_child ↦ cons (f (new_node static segment)) children
  | child c ↦ replace_static f segment children
]

descend : (Node → Node) → NodeKind → List ℕ → Node → Node
unfolding update_static
descend f static segment (node s k n st p w r) = node s k n (update_static f segment st) p w r
descend f param segment (node s k n st p w r) =
    node s k n st (child (f (or_new param segment p))) w r
descend f wildcard segment (node s k n st p w r) =
    node s k n st p (child (f (or_new wildcard segment w))) r

-- The loop over the segments of the path, from a node on.
unfoldable pub insert_segments : List (List ℕ) → Route → Node → Node
unfolding descend
insert_segments [] r (node s k n st p w o) = node s k n st p w (some r)
insert_segments (segment ∷ rest) r current =
    descend (insert_segments rest r) (kind_of segment) segment current

-- The parts of a path that are not empty.
non_empty : List (List ℕ) → List (List ℕ)
non_empty [] = []
non_empty ([] ∷ parts) = non_empty parts
non_empty ((b ∷ bs) ∷ parts) = (b ∷ bs) ∷ non_empty parts

unfoldable pub path_segments : List ℕ → List (List ℕ)
unfolding non_empty split_scalar
path_segments path = non_empty (split_scalar b'/' path)

-- The root of a method's tree.
abbrev pub root : Node
root = new_node static []

unfoldable pub insert_route : List ℕ → Route → Child → Child
unfolding insert_segments path_segments
insert_route path r tree = child (insert_segments (path_segments path) r (or_new static [] tree))
