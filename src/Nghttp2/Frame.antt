-- ===== src/Nghttp2/Frame.antt =====
-- src/nghttp2/lib/nghttp2_frame.c and the frame types of nghttp2.h. An `int32_t` field is kept as
-- its bit pattern, a number below 2 ^ 32. A pointer and its length are one list.
pub mod Header
pub mod Pack
pub mod Unpack
pub mod HeaderTrip
pub mod Sent
pub mod Trip
pub mod SettingsTrip
pub mod PriorityTrip
pub mod ExtensionTrip
pub mod OriginTrip
mod Examples
use dusty.Base.{ℕ, ◌+◌, ◌*◌, List, [], ◌∷◌, length, replicate, Option, none, some}

pub record FrameHd : Type 0 where
  pub length : ℕ
  pub stream_id : ℕ
  pub type : ℕ
  pub flags : ℕ
  pub reserved : ℕ

pub record PrioritySpec : Type 0 where
  pub stream_id : ℕ
  pub weight : ℕ
  pub exclusive : ℕ

pub record Priority : Type 0 where
  pub hd : FrameHd
  pub pri_spec : PrioritySpec

pub record RstStream : Type 0 where
  pub hd : FrameHd
  pub error_code : ℕ

pub record SettingsEntry : Type 0 where
  pub settings_id : ℕ
  pub value : ℕ

pub record Settings : Type 0 where
  pub hd : FrameHd
  pub iv : List SettingsEntry

pub record Ping : Type 0 where
  pub hd : FrameHd
  pub opaque_data : List ℕ

pub record Goaway : Type 0 where
  pub hd : FrameHd
  pub last_stream_id : ℕ
  pub error_code : ℕ
  pub opaque_data : List ℕ
  pub reserved : ℕ

pub record WindowUpdate : Type 0 where
  pub hd : FrameHd
  pub window_size_increment : ℕ
  pub reserved : ℕ

-- nghttp2_extension, with the payload of each kind in place of the pointer to it.
pub record Altsvc : Type 0 where
  pub hd : FrameHd
  pub origin : List ℕ
  pub field_value : List ℕ

pub record Origin : Type 0 where
  pub hd : FrameHd
  pub ov : List (List ℕ)

pub record PriorityUpdate : Type 0 where
  pub hd : FrameHd
  pub stream_id : ℕ
  pub field_value : List ℕ

abbrev pub flag_none : ℕ
flag_none = 0

abbrev pub flag_end_headers : ℕ
flag_end_headers = 0x04

abbrev pub flag_padded : ℕ
flag_padded = 0x08

abbrev pub flag_priority : ℕ
flag_priority = 0x20

abbrev pub frame_hdlen : ℕ
frame_hdlen = 9

abbrev pub priority_speclen : ℕ
priority_speclen = 5

abbrev pub settings_entry_length : ℕ
settings_entry_length = 6

unfoldable pub frame_hd_init : ℕ → ℕ → ℕ → ℕ → FrameHd
frame_hd_init length type flags stream_id = record {
  length = length;
  stream_id = stream_id;
  type = type;
  flags = flags;
  reserved = 0;
}

unfoldable pub frame_priority_init : ℕ → PrioritySpec → Priority
unfolding frame_hd_init
frame_priority_init stream_id pri_spec = record {
  hd = frame_hd_init priority_speclen 0x02 flag_none stream_id;
  pri_spec = pri_spec;
}

unfoldable pub frame_rst_stream_init : ℕ → ℕ → RstStream
unfolding frame_hd_init
frame_rst_stream_init stream_id error_code = record {
  hd = frame_hd_init 4 0x03 flag_none stream_id;
  error_code = error_code;
}

unfoldable pub frame_settings_init : ℕ → List SettingsEntry → Settings
unfolding frame_hd_init
frame_settings_init flags iv = record {
  hd = frame_hd_init (length iv * settings_entry_length) 0x04 flags 0;
  iv = iv;
}

-- `opaque_data` is NULL or points to eight bytes.
unfoldable pub frame_ping_init : ℕ → Option (List ℕ) → Ping
unfolding frame_hd_init
frame_ping_init flags none = record {
  hd = frame_hd_init 8 0x06 flags 0;
  opaque_data = replicate 8 0;
}
frame_ping_init flags (some opaque_data) = record {
  hd = frame_hd_init 8 0x06 flags 0;
  opaque_data = opaque_data;
}

unfoldable pub frame_goaway_init : ℕ → ℕ → List ℕ → Goaway
unfolding frame_hd_init
frame_goaway_init last_stream_id error_code opaque_data = record {
  hd = frame_hd_init (8 + length opaque_data) 0x07 flag_none 0;
  last_stream_id = last_stream_id;
  error_code = error_code;
  opaque_data = opaque_data;
  reserved = 0;
}

unfoldable pub frame_window_update_init : ℕ → ℕ → ℕ → WindowUpdate
unfolding frame_hd_init
frame_window_update_init flags stream_id window_size_increment = record {
  hd = frame_hd_init 4 0x08 flags stream_id;
  window_size_increment = window_size_increment;
  reserved = 0;
}

unfoldable pub frame_altsvc_init : ℕ → List ℕ → List ℕ → Altsvc
unfolding frame_hd_init
frame_altsvc_init stream_id origin field_value = record {
  hd = frame_hd_init (2 + length origin + length field_value) 0x0a flag_none stream_id;
  origin = origin;
  field_value = field_value;
}

-- The loop that adds up the payload's length.
unfoldable pub origin_payloadlen : List (List ℕ) → ℕ
origin_payloadlen [] = 0
origin_payloadlen (o ∷ ov) = 2 + length o + origin_payloadlen ov

unfoldable pub frame_origin_init : List (List ℕ) → Origin
unfolding frame_hd_init
frame_origin_init ov = record {
  hd = frame_hd_init (origin_payloadlen ov) 0x0c flag_none 0;
  ov = ov;
}

unfoldable pub frame_priority_update_init : ℕ → List ℕ → PriorityUpdate
unfolding frame_hd_init
frame_priority_update_init stream_id field_value = record {
  hd = frame_hd_init (4 + length field_value) 0x10 flag_none 0;
  stream_id = stream_id;
  field_value = field_value;
}
