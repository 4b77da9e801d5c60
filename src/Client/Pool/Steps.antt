-- ===== src/Client/Pool/Steps.antt =====
-- src/client.zig, `ConnectionPool`: what any tasks that open, take, use, give back and close
-- connections can lead to. Each task's part is a step, in any order.
use dusty.Base.{
  ℕ, suc, ◌+◌, ◌≤◌, ◌≡◌, Bool, false, List, [], ◌∷◌, ◌++◌, All, none, some, ◌==◌, ltb,
  if◌then◌else◌, length,
}
use dusty.Client.{Connection, Target, init}
use dusty.Client.Pool.{ConnectionPool, empty_pool, acquire, release}

-- The pool, the connections that tasks hold, those that are closed, and the next connection's id.
pub record World : Type 0 where
  pub pool : ConnectionPool
  pub in_use : List Connection
  pub closed : List Connection
  pub next_id : ℕ

abbrev pub start : ℕ → World
start max_idle = record { pool = empty_pool max_idle; in_use = []; closed = []; next_id = 0 }

-- `acquireConnection` from the pool, and with a new connection; what a request does to the
-- connection that it holds; `release`; and a `deinit` outside the pool.
pub data Step : World → World → Type 0 where
  acquired :
      {w : World} {conn : Connection} {pool : ConnectionPool} {expired : List Connection}
      (target : Target) (now : ℕ)
      → acquire target now (w.pool) ≡ (some conn, pool, expired)
      → Step w (record w { pool = pool; in_use = conn ∷ w.in_use; closed = expired ++ w.closed })
  opened :
      {w : World} {conn : Connection} {pool : ConnectionPool} {expired : List Connection}
      (target : Target) (now : ℕ)
      → acquire target now (w.pool) ≡ (none, pool, expired)
      → init (w.next_id) target ≡ some conn
      → Step w (record {
        pool = pool;
        in_use = conn ∷ w.in_use;
        closed = expired ++ w.closed;
        next_id = suc (w.next_id);
      })
  used :
      {w : World} (front back : List Connection) (conn changed : Connection)
      → w.in_use ≡ front ++ conn ∷ back
      → changed.id ≡ conn.id
      → Step w (record w { in_use = front ++ changed ∷ back })
  released :
      {w : World} {pool : ConnectionPool} {gone : List Connection} (front back : List Connection)
      (conn : Connection) (reset_ok : Bool)
      → w.in_use ≡ front ++ conn ∷ back
      → release reset_ok conn (w.pool) ≡ (pool, gone)
      → Step w (record w { pool = pool; in_use = front ++ back; closed = gone ++ w.closed })
  shut :
      {w : World} (front back : List Connection) (conn : Connection)
      → w.in_use ≡ front ++ conn ∷ back
      → Step w (record w { in_use = front ++ back; closed = conn ∷ w.closed })

pub data Steps : World → World → Type 0 where
  none_taken : {w : World} → Steps w w
  one_more : {a b c : World} → Steps a b → Step b c → Steps a c

-- How often a connection stands in a list.
unfoldable pub times : ℕ → List Connection → ℕ
times id [] = 0
times id (conn ∷ conns) = if conn.id == id then suc (times id conns) else times id conns

abbrev pub owners : ℕ → World → ℕ
unfolding times
owners id w = times id (w.pool.idle) + times id (w.in_use) + times id (w.closed)

-- A pool that counts its connections, has no more than its bound, and none that is closing.
abbrev pub IsPool : ConnectionPool → Type 0
IsPool pool =
    (pool.idle_len ≡ length (pool.idle))
    × (pool.idle_len ≤ pool.max_idle)
    × All (λ conn. conn.closing ≡ false) (pool.idle)

abbrev pub IsSound : World → Type 0
IsSound w = IsPool (w.pool) × ((id : ℕ) → owners id w ≡ (if ltb id (w.next_id) then 1 else 0))
