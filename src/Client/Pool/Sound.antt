-- ===== src/Client/Pool/Sound.antt =====
-- src/client.zig, `ConnectionPool`: what holds after any steps.
use dusty.Base.{
  ℕ, ◌+◌, ◌≤◌, ◌<◌, ◌≡◌, refl, ap, sym, ◌∙◌, subst, Bool, false, not, ◌||◌, List, [], ◌∷◌, ◌++◌,
  All, Option, none, some, arith, ◌==◌, leb, length, Bool-cases, inl, inr, if_true, if_false,
}
use dusty.Client.{Connection, Target, init, init_by, matches}
use dusty.Client.Pool.{
  ConnectionPool, Search, is_expired, search, acquire, release, appended, pop_first, before_first,
  counted,
}
use dusty.Client.Pool.Recent.{listed}
use dusty.Client.Pool.Steps.{
  World, start, Step, acquired, opened, used, released, shut, Steps, none_taken, one_more, times,
  IsPool, IsSound,
}

abbrev AllOpen : List Connection → Type 0
AllOpen = All (λ conn. conn.closing ≡ false)

times-append : (id : ℕ) (xs ys : List Connection) → times id (xs ++ ys) ≡ times id xs + times id ys
unfolding times
times-append id [] ys = omega arith
times-append id (x ∷ xs) ys = ground (arith, times-append id xs ys)

-- A connection between others is counted once.
times-middle :
    (id : ℕ) (front : List Connection) (conn : Connection) (back : List Connection)
    → times id (front ++ conn ∷ back) ≡ times id (conn ∷ []) + times id (front ++ back)
unfolding times
times-middle id [] conn back = ground arith
times-middle id (x ∷ front) conn back = ground (arith, times-middle id front conn back)

-- A search loses nothing.
abbrev IsParted : List Connection → Search → Type 0
IsParted conns (found, kept, expired) =
    ((id : ℕ) → times id (listed found) + times id kept + times id expired ≡ times id conns)
    × (counted found + length kept + length expired ≡ length conns)
    × (AllOpen conns → AllOpen kept)

search-IsParted :
    (target : Target) (now : ℕ) (conns : List Connection) → IsParted conns (search target now conns)
unfolding search times
search-IsParted target now [] = (λ id. refl, refl, λ h. h)
search-IsParted target now (conn ∷ conns) =
    let (same, long, still) = search-IsParted target now conns in
    elim (Bool-cases (matches conn target)) [
      | inr e ↦
          subst (IsParted (conn ∷ conns)) (sym (if_false _ _ _ e))
            (λ id. ground (arith, same id), omega (arith, long), λ h. (h.0, still (h.1)))
      | inl e ↦ elim (Bool-cases (is_expired now conn)) [
        | inl f ↦
            subst (IsParted (conn ∷ conns)) (sym (if_true _ _ _ e ∙ if_true _ _ _ f))
              (λ id. ground (arith, same id), omega (arith, long), λ h. still (h.1))
        | inr f ↦
            subst (IsParted (conn ∷ conns)) (sym (if_true _ _ _ e ∙ if_false _ _ _ f))
              (λ id. ground arith, omega arith, λ h. h.1)
      ]
    ]

-- What `acquire` takes out of a pool, and what is left.
abbrev IsTaken : ConnectionPool → Option Connection × ConnectionPool × List Connection → Type 0
IsTaken pool (found, after, expired) =
    IsPool after
    × ((id : ℕ)
        → times id (listed found) + times id (after.idle) + times id expired ≡ times id (pool.idle))

IsTaken-acquire :
    (target : Target) (now : ℕ) (pool : ConnectionPool)
    → IsPool pool
    → IsTaken pool (acquire target now pool)
unfolding acquire
IsTaken-acquire target now pool (counted_all, small, unclosed) =
    let (same, long, still) = search-IsParted target now (pool.idle) in
    ((omega (arith, counted_all, long), omega (arith, small), still unclosed), same)

-- `popFirst` takes one, if there is one.
abbrev IsPopped : List Connection → List Connection × List Connection → Type 0
IsPopped conns (rest, old) =
    ((id : ℕ) → times id rest + times id old ≡ times id conns)
    × (length rest + length old ≡ length conns)
    × (AllOpen conns → AllOpen rest)

IsPopped-before_first :
    (conn : Connection) (conns : List Connection) (p : List Connection × List Connection)
    → IsPopped conns p
    → IsPopped (conn ∷ conns) (before_first conn p)
unfolding times
IsPopped-before_first conn conns (rest, []) (same, long, still) =
    (λ id. ground (arith, same id), omega (arith, long), λ h. still (h.1))
IsPopped-before_first conn conns (rest, c ∷ cs) (same, long, still) =
    (λ id. ground (arith, same id), omega (arith, long), λ h. (h.0, still (h.1)))

IsPopped-pop_first : (conns : List Connection) → IsPopped conns (pop_first conns)
unfolding pop_first times
IsPopped-pop_first [] = (λ id. refl, refl, λ h. h)
IsPopped-pop_first (conn ∷ conns) =
    IsPopped-before_first conn conns (pop_first conns) (IsPopped-pop_first conns)

before_first-shorter :
    (conn : Connection) (conns : List Connection) (p : List Connection × List Connection)
    → IsPopped conns p
    → length ((before_first conn p).0) ≤ length conns
before_first-shorter conn conns (rest, []) (same, long, still) = omega (arith, long)
before_first-shorter conn conns (rest, c ∷ cs) (same, long, still) = omega (arith, long)

pop_first-shorter :
    (conns : List Connection) (max_idle : ℕ)
    → (max_idle == 0) ≡ false
    → length conns ≤ max_idle
    → length ((pop_first conns).0) < max_idle
unfolding pop_first
pop_first-shorter [] max_idle h g = ground (arith, h)
pop_first-shorter (conn ∷ conns) max_idle h g =
    let shorter = before_first-shorter conn conns (pop_first conns) (IsPopped-pop_first conns) in
    omega (arith, shorter, g)

-- What `release` leaves in a pool and what it closes, with the connection that it is given.
abbrev IsReleased : Connection → ConnectionPool → ConnectionPool × List Connection → Type 0
IsReleased conn pool (after, gone) =
    IsPool after
    × ((id : ℕ)
        → times id (after.idle) + times id gone ≡ times id (conn ∷ []) + times id (pool.idle))

IsReleased-appended :
    (conn : Connection) (pool : ConnectionPool) (p : List Connection × List Connection)
    → IsPool pool
    → IsPopped (pool.idle) p
    → length (p.0) < pool.max_idle
    → IsReleased conn pool (appended (record conn { closing = false }) pool p)
unfolding times
IsReleased-appended conn pool (rest, old) (counted_all, small, unclosed) (same, long, still) room =
    (
      (
        omega (arith, counted_all, long),
        omega (arith, counted_all, long, room),
        (refl, still unclosed),
      ),
      λ id. ground (arith, same id),
    )

IsReleased-release :
    (reset_ok : Bool) (conn : Connection) (pool : ConnectionPool)
    → IsPool pool
    → IsReleased conn pool (release reset_ok conn pool)
unfolding release times
IsReleased-release reset_ok conn pool (counted_all, small, unclosed) =
    let closed_now : IsReleased conn pool (pool, conn ∷ []) =
      ((counted_all, small, unclosed), λ id. omega arith) in
    elim (Bool-cases (conn.closing || pool.max_idle == 0)) [
      | inl e ↦ subst (IsReleased conn pool) (sym (if_true _ _ _ e)) closed_now
      | inr e ↦ elim (Bool-cases reset_ok) [
        | inr f ↦
            subst (IsReleased conn pool) (sym (if_false _ _ _ e ∙ if_true _ _ _ (ap not f)))
              closed_now
        | inl f ↦
            let (same, long, still) = IsPopped-pop_first (pool.idle) in
            subst (IsReleased conn pool) (sym (if_false _ _ _ e ∙ if_false _ _ _ (ap not f)))
              (elim (Bool-cases (leb (pool.max_idle) (pool.idle_len))) [
                | inl g ↦
                    subst
                      (λ p.
                        IsReleased conn pool (appended (record conn { closing = false }) pool p))
                      (sym (if_true _ _ _ g))
                      (IsReleased-appended conn pool (pop_first (pool.idle))
                        (counted_all, small, unclosed) (same, long, still)
                        (pop_first-shorter (pool.idle) (pool.max_idle) (ground (arith, e))
                          (ground (arith, counted_all, small))))
                | inr g ↦
                    subst
                      (λ p.
                        IsReleased conn pool (appended (record conn { closing = false }) pool p))
                      (sym (if_false _ _ _ g))
                      (IsReleased-appended conn pool (pool.idle, []) (counted_all, small, unclosed)
                        (λ id. omega arith, omega arith, λ h. h) (ground (arith, g, counted_all)))
              ])
      ]
    ]

id-init_by :
    (id : ℕ) (target : Target) (socket : Option (List ℕ)) (conn : Connection)
    → init_by id target socket ≡ some conn
    → conn.id ≡ id
id-init_by id target none conn h = ground (arith, h)
id-init_by id target (some path) conn h = ground (arith, h)

id-init : (id : ℕ) (target : Target) (conn : Connection) → init id target ≡ some conn → conn.id ≡ id
unfolding init
id-init id target conn h = id-init_by id target (target.socket) conn h

IsSound-Step : {a b : World} → Step a b → IsSound a → IsSound b
unfolding times
IsSound-Step (acquired {w = w} {conn = conn} {pool = pool} {expired = expired} target now h)
      (pooled, owned) =
    let (after, same) = subst (IsTaken (w.pool)) h (IsTaken-acquire target now (w.pool) pooled) in
    (
      after,
      λ id.
          let appended_count = times-append id expired (w.closed) in
          ground (arith, same id, owned id, appended_count),
    )
IsSound-Step (opened {w = w} {conn = conn} {pool = pool} {expired = expired} target now h new)
      (pooled, owned) =
    let (after, same) = subst (IsTaken (w.pool)) h (IsTaken-acquire target now (w.pool) pooled) in
    let is = id-init (w.next_id) target conn new in
    (
      after,
      λ id.
          let appended_count = times-append id expired (w.closed) in
          ground (arith, same id, owned id, appended_count, is),
    )
IsSound-Step (used {w = w} front back conn changed h e) (pooled, owned) = (
  pooled,
  λ id.
      let was = ap (times id) h ∙ times-middle id front conn back in
      let will = times-middle id front changed back in ground (arith, was, will, owned id, e),
)
IsSound-Step (released {w = w} {pool = pool} {gone = gone} front back conn reset_ok h e)
      (pooled, owned) =
    let (after, same) =
      subst (IsReleased conn (w.pool)) e (IsReleased-release reset_ok conn (w.pool) pooled) in
    (
      after,
      λ id.
          let was = ap (times id) h ∙ times-middle id front conn back in
          let appended_count = times-append id gone (w.closed) in
          ground (arith, was, same id, owned id, appended_count),
    )
IsSound-Step (shut {w = w} front back conn h) (pooled, owned) = (
  pooled,
  λ id.
      let was = ap (times id) h ∙ times-middle id front conn back in ground (arith, was, owned id),
)

IsSound-start : (max_idle : ℕ) → IsSound (start max_idle)
unfolding times
IsSound-start max_idle = ((refl, omega arith, tt), λ id. ground arith)

-- Whatever tasks do with the connections of a client, in any order, from an empty pool: the pool
-- counts its idle connections, has at most the configured number of them and none that is closing,
-- and each connection that was ever opened is idle, held by one task or closed, exactly one of
-- these and once: no two tasks get the same connection, none is lost, and none is closed twice or
-- while it is in use.
pub IsSound-Steps : (max_idle : ℕ) (w : World) → Steps (start max_idle) w → IsSound w
IsSound-Steps max_idle w steps = after steps (IsSound-start max_idle)
  where
    after : {a b : World} → Steps a b → IsSound a → IsSound b
    after none_taken h = h
    after (one_more steps step) h = IsSound-Step step (after steps h)
