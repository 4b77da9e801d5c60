-- ===== src/Client/Pool/Recent.antt =====
-- src/client.zig, `ConnectionPool.acquire`: which connection it takes, and which it closes.
use dusty.Base.{
  ℕ, ◌+◌, ◌-◌, ◌≡◌, refl, ap, sym, ◌∙◌, subst, Bool, true, false, not, ◌||◌, ◌&&◌, List, [], ◌∷◌,
  ◌++◌, All, Option, none, some, arith, ◌==◌, leb, if◌then◌else◌, Bool-cases, inl, inr, if_true,
  if_false,
}
use dusty.Client.{Connection, Target, matches}
use dusty.Client.Pool.{
  ConnectionPool, Search, is_expired, search, acquire, release, appended, taken,
}

unfoldable pub keep_if : (Connection → Bool) → List Connection → List Connection
keep_if test [] = []
keep_if test (conn ∷ conns) =
    let rest = keep_if test conns in if test conn then conn ∷ rest else rest

abbrev pub is_fresh : Target → ℕ → Connection → Bool
is_fresh target now conn = matches conn target && not (is_expired now conn)

abbrev pub listed : Option Connection → List Connection
listed none = []
listed (some conn) = conn ∷ []

-- What follows the connection that was found, nothing without one.
abbrev IsRest : Target → ℕ → Option Connection → List Connection → Type 0
IsRest target now none back = back ≡ []
IsRest target now (some conn) back = is_fresh target now conn ≡ true

-- The list up to the first fresh match, it, and the rest.
abbrev pub IsSearch : Target → ℕ → List Connection → Search → Type 0
IsSearch target now conns (found, kept, expired) =
    (front : List Connection) × (back : List Connection) × (conns ≡ front ++ (listed found ++ back))
    × All (λ c. is_fresh target now c ≡ false) front
    × IsRest target now found back
    × (kept ≡ keep_if (λ c. not (matches c target)) front ++ back)
    × (expired ≡ keep_if (λ c. matches c target) front)

search-IsSearch :
    (target : Target) (now : ℕ) (conns : List Connection)
    → IsSearch target now conns (search target now conns)
unfolding search keep_if
search-IsSearch target now [] = ([], [], refl, tt, refl, refl, refl)
search-IsSearch target now (conn ∷ conns) =
    let (front, back, same, stale, rest, kept, expired) = search-IsSearch target now conns in
    elim (Bool-cases (matches conn target)) [
      | inr e ↦ subst (IsSearch target now (conn ∷ conns)) (sym (if_false _ _ _ e)) (
        conn ∷ front,
        back,
        ap (λ t. conn ∷ t) same,
        (ground (arith, e), stale),
        rest,
        rw e (ap (λ t. conn ∷ t) kept),
        rw e expired,
      )
      | inl e ↦ elim (Bool-cases (is_expired now conn)) [
        | inl f ↦
            subst (IsSearch target now (conn ∷ conns)) (sym (if_true _ _ _ e ∙ if_true _ _ _ f)) (
              conn ∷ front,
              back,
              ap (λ t. conn ∷ t) same,
              (ground (arith, e, f), stale),
              rest,
              rw e kept,
              rw e (ap (λ t. conn ∷ t) expired),
            )
        | inr f ↦
            subst (IsSearch target now (conn ∷ conns)) (sym (if_true _ _ _ e ∙ if_false _ _ _ f))
              ([], conns, refl, tt, ground (arith, e, f), refl, refl)
      ]
    ]

-- `acquire` takes the most recently used idle connection that matches and has not expired, if there
-- is one. It closes exactly the matching ones used after that, which have all expired, without one
-- the matching ones of the whole list, and leaves all others idle in their order.
pub acquire-IsSearch :
    (target : Target) (now : ℕ) (pool : ConnectionPool)
    → IsSearch target now
        (pool.idle)
        ((acquire target now pool).0, (acquire target now pool).1.idle, (acquire target now pool).2)
unfolding acquire
acquire-IsSearch target now pool = search-IsSearch target now (pool.idle)

release-room :
    (conn : Connection) (pool : ConnectionPool)
    → conn.closing ≡ false
    → leb (pool.max_idle) (pool.idle_len) ≡ false
    → release true conn pool ≡ appended conn pool (pool.idle, [])
unfolding release
release-room conn pool unclosed room =
    if_false (conn.closing || pool.max_idle == 0) _ _ (ground (arith, unclosed, room))
    ∙ ap (appended (record conn { closing = false }) pool) (if_false _ _ _ room)
    ∙ ap (λ b. appended (record conn { closing = b }) pool (pool.idle, [])) (sym unclosed)

search-is_fresh :
    (target : Target) (now : ℕ) (conn : Connection) (conns : List Connection)
    → is_fresh target now conn ≡ true
    → search target now (conn ∷ conns) ≡ (some conn, conns, [])
unfolding search
search-is_fresh target now conn conns fresh =
    if_true (matches conn target) _ _ (ground (arith, fresh))
    ∙ if_false (is_expired now conn) _ _ (ground (arith, fresh))

-- A connection that is released to a pool with room, and not closing, is the one that the next
-- `acquire` for the same target takes before it expires, and the pool is as it was: no other
-- connection is taken or closed.
pub acquire-release :
    (target : Target) (now : ℕ) (conn : Connection) (pool : ConnectionPool)
    → conn.closing ≡ false
    → leb (pool.max_idle) (pool.idle_len) ≡ false
    → is_fresh target now conn ≡ true
    → acquire target now ((release true conn pool).0) ≡ (some conn, pool, [])
unfolding acquire
acquire-release target now conn pool unclosed room fresh =
    let back : pool.idle_len - 0 + 1 - (1 + 0) ≡ pool.idle_len = omega arith in
    ap (λ x. acquire target now (x.0)) (release-room conn pool unclosed room)
    ∙ ap (taken ((appended conn pool (pool.idle, [])).0))
        (search-is_fresh target now conn (pool.idle) fresh)
    ∙ ap (λ n. (some conn, record pool { idle_len = n }, [])) back
