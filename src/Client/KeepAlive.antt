-- ===== src/Client/KeepAlive.antt =====
-- src/parser.zig, `parseKeepAliveHeader`, and src/client.zig, `Connection.release`: how long a
-- connection is used. `parse_int` is std.fmt.parseInt to an u32.
pub mod Limit
use dusty.Base.{
  ℕ, suc, ◌+◌, ◌*◌, min, Bool, true, false, not, ◌||◌, List, [], ◌∷◌, Option, none, some, ◌==◌, leb,
  if◌then◌else◌, length, drop, split_scalar, codes,
}
use dusty.Cookie.{starts_with}
use dusty.Client.{Connection, KeepAliveParams}
use dusty.Client.Pool.{ConnectionPool, release}

abbrev is_blank : ℕ → Bool
is_blank b = b == b' ' || b == 9

-- `std.mem.trim` of spaces and tabs.
unfoldable pub trim_front : List ℕ → List ℕ
trim_front [] = []
trim_front (b ∷ bs) = let rest = trim_front bs in if is_blank b then rest else b ∷ bs

abbrev pub unless_blank : ℕ → List ℕ → List ℕ
unless_blank b [] = if is_blank b then [] else b ∷ []
unless_blank b (c ∷ rest) = b ∷ c ∷ rest

unfoldable pub trim_back : List ℕ → List ℕ
trim_back [] = []
trim_back (b ∷ bs) = unless_blank b (trim_back bs)

-- What the parser knows of the response: whether its body is complete, whether the connection is to
-- be kept, and its Keep-Alive header.
pub record Answer : Type 0 where
  pub body_complete : Bool
  pub should_keep_alive : Bool
  pub keep_alive_header : Option (List ℕ)

-- `request_count` is an u16 and the addition saturates.
abbrev pub request_counted : Connection → Connection
request_counted conn = record conn { request_count = min (conn.request_count + 1) 65535 }

abbrev pub deadline : ℕ → Option ℕ → Option ℕ → Option ℕ
deadline now none before = before
deadline now (some timeout) before = some (now + 1000000 * timeout)

abbrev pub reached : Option ℕ → ℕ → Bool
reached none count = false
reached (some max) count = leb max count

-- The connection with the parameters of its keep-alive.
abbrev pub keeping : ℕ → KeepAliveParams → Connection → Connection
keeping now params conn = record conn {
  keep_alive = params;
  idle_deadline = deadline now (params.timeout) (conn.idle_deadline);
  closing = conn.closing || reached (params.max) (conn.request_count);
}

abbrev pub heard : Answer → Connection → Connection
heard answer conn =
    request_counted (record conn { closing = conn.closing || not (answer.body_complete) })

module _ (parse_int : List ℕ → Option ℕ) where
  abbrev pub read_part : List ℕ → KeepAliveParams → KeepAliveParams
  unfolding starts_with
  read_part trimmed params =
      if starts_with trimmed (codes "timeout=")
      then record params { timeout = parse_int (drop 8 trimmed) }
      else if starts_with trimmed (codes "max=")
      then record params { max = parse_int (drop 4 trimmed) }
      else params

  unfoldable pub read_parts : List (List ℕ) → KeepAliveParams → KeepAliveParams
  unfolding read_part trim_front trim_back
  read_parts [] params = params
  read_parts (part ∷ parts) params =
      read_parts parts (read_part (trim_back (trim_front part)) params)

  unfoldable pub parse_keep_alive_header : List ℕ → KeepAliveParams
  unfolding read_parts split_scalar
  parse_keep_alive_header value =
      read_parts (split_scalar b',' value) (record { timeout = none; max = none })

  abbrev pub params_of : Option (List ℕ) → Connection → KeepAliveParams
  unfolding parse_keep_alive_header
  params_of none conn = conn.keep_alive
  params_of (some value) conn = parse_keep_alive_header value

  abbrev pub first_params : Answer → Connection → KeepAliveParams
  unfolding params_of
  first_params answer conn =
      if conn.request_count == 1 then params_of (answer.keep_alive_header) conn else conn.keep_alive

  -- `Connection.release` as far as its call of the pool's `release`, at a time in nanoseconds.
  unfoldable pub note_answer : ℕ → Answer → Connection → Connection
  unfolding first_params
  note_answer now answer before =
      if not (answer.should_keep_alive)
      then record (heard answer before) { closing = true }
      else keeping now (first_params answer (heard answer before)) (heard answer before)

  unfoldable pub release_connection :
      Bool → ℕ → Answer → Connection → ConnectionPool → ConnectionPool × List Connection
  unfolding note_answer release
  release_connection reset_ok now answer conn pool =
      release reset_ok (note_answer now answer conn) pool
