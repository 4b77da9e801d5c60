-- ===== src/Client.antt =====
-- src/client.zig: the connections of the client. The stream, the buffers and TLS are not part of a
-- connection here, and its parser is in the answer to a request where it decides something.
pub mod Pool
pub mod KeepAlive
pub mod Exchange
pub mod Redirect
pub mod Write
mod Examples
use dusty.Base.{
  ℕ, suc, Bool, true, false, ◌&&◌, List, [], ◌∷◌, Option, none, some, ◌==◌, leb, if◌then◌else◌,
  length, take, bytes_eq, eql_ignore_case, codes,
}

pub data Protocol : Type 0 where
  http https : Protocol

abbrev pub default_port : Protocol → ℕ
default_port http = 80
default_port https = 443

-- None is error.UnsupportedScheme.
unfoldable pub from_scheme : List ℕ → Option Protocol
unfolding bytes_eq
from_scheme scheme =
    if bytes_eq scheme (codes "http")
    then some http
    else if bytes_eq scheme (codes "ws")
    then some http
    else if bytes_eq scheme (codes "https")
    then some https
    else if bytes_eq scheme (codes "wss")
    then some https
    else none

abbrev pub same_protocol : Protocol → Protocol → Bool
same_protocol http http = true
same_protocol https https = true
same_protocol _ _ = false

-- `max` and `timeout` are of a Keep-Alive header.
pub record KeepAliveParams : Type 0 where
  pub timeout : Option ℕ
  pub max : Option ℕ

-- `id` tells the connections of a client apart, as their addresses do. `host` is `host_buffer` up to
-- `host_len`, and `unix_path` likewise.
pub record Connection : Type 0 where
  pub id : ℕ
  pub protocol : Protocol
  pub host : List ℕ
  pub port : ℕ
  pub unix_path : List ℕ
  pub closing : Bool
  pub request_count : ℕ
  pub keep_alive : KeepAliveParams
  pub idle_deadline : Option ℕ

-- What a connection is asked for.
pub record Target : Type 0 where
  pub to_host : List ℕ
  pub to_port : ℕ
  pub by : Protocol
  pub socket : Option (List ℕ)

abbrev unix_path_max : ℕ
unix_path_max = 108

abbrev new_fields : ℕ → Target → List ℕ → Connection
new_fields id target path = record {
  id = id;
  protocol = target.by;
  host = take 255 (target.to_host);
  port = target.to_port;
  unix_path = path;
  closing = false;
  request_count = 0;
  keep_alive = record { timeout = none; max = none };
  idle_deadline = none;
}

abbrev pub init_by : ℕ → Target → Option (List ℕ) → Option Connection
init_by id target none = some (new_fields id target [])
init_by id target (some path) =
    if leb (length path) unix_path_max then some (new_fields id target path) else none

-- The fields that `Connection.init` sets, none on error.NameTooLong.
unfoldable pub init : ℕ → Target → Option Connection
init id target = init_by id target (target.socket)

abbrev path_matches : List ℕ → List ℕ → Bool
path_matches [] path = false
path_matches (b ∷ bs) path = bytes_eq (b ∷ bs) path

abbrev is_empty : List ℕ → Bool
is_empty [] = true
is_empty (b ∷ bs) = false

unfoldable pub matches : Connection → Target → Bool
unfolding bytes_eq eql_ignore_case
matches conn target = elim (target.socket) [
  | some path ↦ same_protocol (conn.protocol) (target.by) && path_matches (conn.unix_path) path
  | none ↦
      if is_empty (conn.unix_path)
      then same_protocol (conn.protocol) (target.by)
        && (conn.port == target.to_port && eql_ignore_case (conn.host) (target.to_host))
      else false
]
