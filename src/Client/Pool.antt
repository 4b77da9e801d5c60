-- ===== src/Client/Pool.antt =====
-- src/client.zig, `ConnectionPool`: the idle connections. `idle` has them from the last, which was
-- used most recently, to the first. A critical section of `mutex` is one step, with the connections
-- that it leaves to be closed.
pub mod Recent
pub mod Steps
pub mod Sound
use dusty.Base.{
  ℕ, suc, ◌+◌, ◌-◌, Bool, true, false, not, ◌||◌, List, [], ◌∷◌, Option, none, some, ◌==◌, leb,
  if◌then◌else◌, length,
}
use dusty.Client.{Connection, Target, matches}

pub record ConnectionPool : Type 0 where
  pub idle : List Connection
  pub idle_len : ℕ
  pub max_idle : ℕ

abbrev pub empty_pool : ℕ → ConnectionPool
empty_pool max_idle = record { idle = []; idle_len = 0; max_idle = max_idle }

abbrev pub is_expired : ℕ → Connection → Bool
is_expired now conn = elim (conn.idle_deadline) [ none ↦ false | some deadline ↦ leb deadline now ]

-- What a search found, what stays idle, and what had expired.
abbrev pub Search : Type 0
Search = Option Connection × List Connection × List Connection

-- The loop of `acquire`.
unfoldable pub search : Target → ℕ → List Connection → Search
unfolding matches
search target now [] = (none, [], [])
search target now (conn ∷ conns) =
    let (found, kept, expired) = search target now conns in
    if matches conn target
    then (if is_expired now conn then (found, kept, conn ∷ expired) else (some conn, conns, []))
    else (found, conn ∷ kept, expired)

abbrev pub counted : Option Connection → ℕ
counted none = 0
counted (some conn) = 1

-- The connection, the pool, and what is closed.
abbrev pub taken : ConnectionPool → Search → Option Connection × ConnectionPool × List Connection
taken pool (found, kept, expired) = (
  found,
  record pool { idle = kept; idle_len = pool.idle_len - (counted found + length expired) },
  expired,
)

unfoldable pub acquire :
    Target → ℕ → ConnectionPool → Option Connection × ConnectionPool × List Connection
unfolding search
acquire target now pool = taken pool (search target now (pool.idle))

-- `popFirst`: what is left, and the first.
abbrev pub before_first :
    Connection → List Connection × List Connection → List Connection × List Connection
before_first conn (rest, []) = (rest, conn ∷ [])
before_first conn (rest, c ∷ cs) = (conn ∷ rest, c ∷ cs)

unfoldable pub pop_first : List Connection → List Connection × List Connection
pop_first [] = ([], [])
pop_first (conn ∷ conns) = before_first conn (pop_first conns)

abbrev pub appended :
    Connection
    → ConnectionPool
    → List Connection × List Connection
    → ConnectionPool × List Connection
appended conn pool (kept, old) =
    (record pool { idle = conn ∷ kept; idle_len = pool.idle_len - length old + 1 }, old)

-- `reset_ok` is whether `Connection.reset` returns without an error; it clears `closing`.
unfoldable pub release : Bool → Connection → ConnectionPool → ConnectionPool × List Connection
unfolding pop_first
release reset_ok conn pool =
    if conn.closing || pool.max_idle == 0
    then (pool, conn ∷ [])
    else if not reset_ok
    then (pool, conn ∷ [])
    else appended (record conn { closing = false }) pool
        (if leb (pool.max_idle) (pool.idle_len) then pop_first (pool.idle) else (pool.idle, []))
