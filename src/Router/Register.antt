-- ===== src/Router/Register.antt =====
-- src/router.zig: registration of handlers, on the router and on its groups. The trees are a
-- function of the method's number, and a registration gives a router with one tree more or changed.
use dusty.Base.{ℕ, List, [], ◌∷◌, ◌++◌, ◌==◌, if◌then◌else◌}
use dusty.Router.{Child, insert_route}

pub record Router : Type 0 where
  pub trees : ℕ → Child
  pub middlewares : List ℕ

-- The numbers of llhttp, in the order of `all_methods`.
abbrev pub get_method : ℕ
get_method = 1

abbrev pub head_method : ℕ
head_method = 2

abbrev pub all_methods : List ℕ
all_methods = 1 ∷ 3 ∷ 4 ∷ 0 ∷ 2 ∷ 28 ∷ 6 ∷ []

-- `insertRoute` on the tree of a method.
unfoldable pub insert : List ℕ → ℕ → ℕ → List ℕ → Router → Router
unfolding insert_route
insert path method handler middlewares router = record router {
  trees = λ m.
      if m == method
      then insert_route path (record { action = handler; middlewares = middlewares })
          (router.trees m)
      else router.trees m;
}

-- The loop of `any`.
unfoldable pub insert_all : List ℕ → List ℕ → ℕ → List ℕ → Router → Router
unfolding insert
insert_all [] path handler middlewares router = router
insert_all (m ∷ ms) path handler middlewares router =
    insert_all ms path handler middlewares (insert path m handler middlewares router)

-- `get`, `head`, `post`, `put`, `delete`, `patch` and `options`.
unfoldable pub on : ℕ → List ℕ → ℕ → Router → Router
unfolding insert
on method path handler router = insert path method handler (router.middlewares) router

unfoldable pub any : List ℕ → ℕ → Router → Router
unfolding insert_all
any path handler router = insert_all all_methods path handler (router.middlewares) router

pub record Group : Type 0 where
  pub prefix : List ℕ
  pub group_middlewares : List ℕ

-- `mergeMiddlewares`
abbrev pub merge_middlewares : List ℕ → List ℕ → List ℕ
merge_middlewares [] group = group
merge_middlewares (m ∷ ms) [] = m ∷ ms
merge_middlewares (m ∷ ms) (g ∷ gs) = (m ∷ ms) ++ (g ∷ gs)

abbrev pub concat_path : Group → List ℕ → List ℕ
concat_path group path = group.prefix ++ path

-- `Group.register`, and the seven functions that call it.
unfoldable pub register : Group → ℕ → List ℕ → ℕ → Router → Router
unfolding insert
register group method path handler router =
    insert (concat_path group path) method handler
      (merge_middlewares (router.middlewares) (group.group_middlewares)) router

-- `Group.any`
unfoldable pub register_all : Group → List ℕ → List ℕ → ℕ → Router → Router
unfolding register
register_all group [] path handler router = router
register_all group (m ∷ ms) path handler router =
    register_all group ms path handler (register group m path handler router)
