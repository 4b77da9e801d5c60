-- ===== src/WebSocket.antt =====
-- src/websocket.zig: the state of a connection, the frames on the wire and the messages.
pub mod Reader
pub mod Codec
pub mod Receive
pub mod Wire
pub mod Stepwise
pub mod Ends
pub mod Growth
pub mod Lasting
pub mod Closing
pub mod Fragments
pub mod Exchange
pub mod Handshake
pub mod Trip
mod Examples
pub mod FrameTrip
use dusty.Base.{ℕ, Bool, true, false, List, [], ◌∷◌, Option, none, some, ◌==◌, if◌then◌else◌}

-- `MessageType`, an `enum(u4)` that also holds the opcodes with no name.
pub data MessageType : Type 0 where
  continuation text binary close ping pong : MessageType
  unknown : ℕ → MessageType

-- `@intFromEnum`
unfoldable pub to_u4 : MessageType → ℕ
to_u4 continuation = 0x0
to_u4 text = 0x1
to_u4 binary = 0x2
to_u4 close = 0x8
to_u4 ping = 0x9
to_u4 pong = 0xa
to_u4 (unknown n) = n

-- `@enumFromInt`
unfoldable pub from_u4 : ℕ → MessageType
from_u4 n =
    if n == 0x0
    then continuation
    else if n == 0x1
    then text
    else if n == 0x2
    then binary
    else if n == 0x8
    then close
    else if n == 0x9
    then ping
    else if n == 0xa
    then pong
    else unknown n

pub data Error : Type 0 where
  reserved_flags large_control_frame invalid_opcode unexpected_continuation : Error
  nested_fragment invalid_utf8 message_too_large unmasked_client_frame : Error
  masked_server_frame end_of_stream write_failed : Error

pub record Frame : Type 0 where
  pub fin : Bool
  pub opcode : MessageType
  pub payload : List ℕ

-- A close code is its number: `CloseCode` holds every `u16`.
pub record Message : Type 0 where
  pub type : MessageType
  pub body : List ℕ
  pub close_code : Option ℕ

-- The four bytes of a masking key.
pub record Key : Type 0 where
  pub k0 : ℕ
  pub k1 : ℕ
  pub k2 : ℕ
  pub k3 : ℕ

-- What the file takes from elsewhere: the writer, which takes bytes behind those already written
-- or fails; the generator of masking keys, by the number of keys drawn; the check of UTF-8.
pub record World : Type 0 where
  pub writes : List ℕ → List ℕ → Bool
  pub flushes : List ℕ → Bool
  pub key : ℕ → Key
  pub utf8_valid : List ℕ → Bool

-- `input` is what the reader has not yet handed out, `output` what the writer has taken, and
-- `drawn` the number of masking keys drawn.
pub record WebSocket : Type 0 where
  pub is_client : Bool
  pub max_message_size : ℕ
  pub closed : Bool
  pub auto_responded : Bool
  pub fragmented_type : Option MessageType
  pub fragmented_data : List ℕ
  pub input : List ℕ
  pub output : List ℕ
  pub drawn : ℕ

pub data Result {ℓ} (A : Type ℓ) : Type ℓ where
  ok : A → Result A
  err : Error → Result A
  out_of_fuel : Result A
