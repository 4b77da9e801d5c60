-- ===== src/Router/Tidy.antt =====
-- The shape of the trees that insertion builds: no two static children with one segment, and a
-- route on every wildcard child.
use dusty.Base.{
  ℕ, ◌≡◌, refl, ap, sym, ◌∙◌, subst, Bool, true, false, List, [], ◌∷◌, Option, none, some, arith,
  bytes_eq, Bool-cases, inl, inr,
}
use dusty.Router.{
  Node, node, Nodes, nil, cons, Child, no_child, child, NodeKind, static, param, wildcard, Route,
  segment_of, route_of, kind_of, new_node, or_new, find_static, replace_static, update_static,
  descend, insert_segments,
}
use dusty.Router.Table.{segment_of-insert_segments}

abbrev pub IsNew : List ℕ → Nodes → Type 0
IsNew segment nil = Unit {0}
IsNew segment (cons c rest) = (bytes_eq (segment_of c) segment ≡ false) × IsNew segment rest

abbrev pub HasRoute : Option Route → Type 0
HasRoute none = ⊥
HasRoute (some r) = Unit {0}

abbrev pub WildRoute : Child → Type 0
WildRoute no_child = Unit {0}
WildRoute (child c) = HasRoute (route_of c)

unfoldable mutual
  pub IsTidy : Node → Type 0
  IsTidy (node s k n st p w r) = AllTidy st × TidyChild p × WildRoute w

  pub AllTidy : Nodes → Type 0
  AllTidy nil = Unit {0}
  AllTidy (cons c rest) = IsTidy c × IsNew (segment_of c) rest × AllTidy rest

  pub TidyChild : Child → Type 0
  TidyChild no_child = Unit {0}
  TidyChild (child c) = IsTidy c

-- A wildcard ends its path.
abbrev wildcard_ends : NodeKind → List (List ℕ) → Bool
wildcard_ends wildcard (s ∷ rest) = false
wildcard_ends _ rest = true

abbrev pub EndsTidily : List (List ℕ) → Type 0
EndsTidily [] = Unit {0}
EndsTidily (segment ∷ rest) = (wildcard_ends (kind_of segment) rest ≡ true) × EndsTidily rest

pub TidyChild-find_static :
    (segment : List ℕ) (st : Nodes) → AllTidy st → TidyChild (find_static segment st)
unfolding IsTidy find_static
TidyChild-find_static segment nil a = tt
TidyChild-find_static segment (cons c rest) a =
    elim (Bool-cases (bytes_eq (segment_of c) segment)) [
      | inl h ↦ rw h a.0
      | inr h ↦ rw h (TidyChild-find_static segment rest a.2)
    ]

pub IsNew-find_static :
    (segment : List ℕ) (st : Nodes) → find_static segment st ≡ no_child → IsNew segment st
unfolding find_static
IsNew-find_static segment nil h = tt
IsNew-find_static segment (cons c rest) h = elim (Bool-cases (bytes_eq (segment_of c) segment)) [
  | inl e ↦ absurd (ground (arith, e, h))
  | inr e ↦ (e, IsNew-find_static segment rest (ground (arith, e, h)))
]

IsTidy-new_node : (k : NodeKind) (s : List ℕ) → IsTidy (new_node k s)
unfolding IsTidy
IsTidy-new_node k s = (tt, tt, tt)

pub IsTidy-or_new : (k : NodeKind) (s : List ℕ) (c : Child) → TidyChild c → IsTidy (or_new k s c)
unfolding IsTidy
IsTidy-or_new k s no_child t = IsTidy-new_node k s
IsTidy-or_new k s (child c) t = t

module _ (f : Node → Node) (keeps : (c : Node) → segment_of (f c) ≡ segment_of c)
    (tidy : (c : Node) → IsTidy c → IsTidy (f c)) (seg : List ℕ) where
  IsNew-replace_static : (t : List ℕ) (st : Nodes) → IsNew t st → IsNew t (replace_static f seg st)
  unfolding replace_static
  IsNew-replace_static t nil h = tt
  IsNew-replace_static t (cons c rest) h = elim (Bool-cases (bytes_eq (segment_of c) seg)) [
    | inl e ↦ rw e (ap (λ s. bytes_eq s t) (keeps c) ∙ h.0, h.1)
    | inr e ↦ rw e (h.0, IsNew-replace_static t rest h.1)
  ]

  AllTidy-replace_static : (st : Nodes) → AllTidy st → AllTidy (replace_static f seg st)
  unfolding IsTidy replace_static
  AllTidy-replace_static nil a = tt
  AllTidy-replace_static (cons c rest) a = elim (Bool-cases (bytes_eq (segment_of c) seg)) [
    | inl e ↦ rw e (tidy c a.0, subst (λ s. IsNew s rest) (sym (keeps c)) a.1, a.2)
    | inr e ↦
        rw e (a.0, IsNew-replace_static (segment_of c) rest a.1, AllTidy-replace_static rest a.2)
  ]

  AllTidy-update_static : (st : Nodes) → AllTidy st → AllTidy (update_static f seg st)
  unfolding update_static IsTidy
  AllTidy-update_static st a = by_child (find_static seg st) refl
    where
      by_child :
          (found : Child)
          → find_static seg st ≡ found
          → AllTidy (elim found [
            | no_child ↦ cons (f (new_node static seg)) st
            | child c ↦ replace_static f seg st
          ])
      by_child no_child e = (
        tidy (new_node static seg) (IsTidy-new_node static seg),
        subst (λ s. IsNew s st) (sym (keeps (new_node static seg))) (IsNew-find_static seg st e),
        a,
      )
      by_child (child c) e = AllTidy-replace_static st a

-- What a wildcard child is, when nothing follows it in the path.
ends_there : (rest : List (List ℕ)) → wildcard_ends wildcard rest ≡ true → rest ≡ []
ends_there [] h = refl
ends_there (s ∷ rest) h = absurd (ground (arith, h))

HasRoute-insert_segments : (r : Route) (c : Node) → HasRoute (route_of (insert_segments [] r c))
unfolding insert_segments
HasRoute-insert_segments r (node s k n st p w o) = tt

IsTidy-descend :
    (segs : List (List ℕ)) (r : Route) (kind : NodeKind) (seg : List ℕ) (c : Node)
    → wildcard_ends kind segs ≡ true
    → ((d : Node) → IsTidy d → IsTidy (insert_segments segs r d))
    → IsTidy c
    → IsTidy (descend (insert_segments segs r) kind seg c)
unfolding descend IsTidy
IsTidy-descend segs r static seg (node s k n st p w o) h below t = (
  AllTidy-update_static (insert_segments segs r) (segment_of-insert_segments segs r) below seg st
      t.0,
  t.1,
  t.2,
)
IsTidy-descend segs r param seg (node s k n st p w o) h below t =
    (t.0, below (or_new param seg p) (IsTidy-or_new param seg p t.1), t.2)
IsTidy-descend segs r wildcard seg (node s k n st p w o) h below t = (
  t.0,
  t.1,
  subst (λ ss. HasRoute (route_of (insert_segments ss r (or_new wildcard seg w))))
      (sym (ends_there segs h)) (HasRoute-insert_segments r (or_new wildcard seg w)),
)

pub IsTidy-insert_segments :
    (segs : List (List ℕ)) (r : Route) (c : Node)
    → EndsTidily segs
    → IsTidy c
    → IsTidy (insert_segments segs r c)
unfolding insert_segments IsTidy
IsTidy-insert_segments [] r (node s k n st p w o) e t = t
IsTidy-insert_segments (seg ∷ segs) r c e t =
    IsTidy-descend segs r (kind_of seg) seg c e.0 (λ d. IsTidy-insert_segments segs r d e.1) t
