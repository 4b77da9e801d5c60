-- ===== src/Nghttp2/Frame/Examples.antt =====
-- Frames at concrete values.
use dusty.Base.{ℕ, ◌≤◌, refl, List, [], ◌∷◌, arith, replicate, true}
use dusty.Nghttp2.Run.{Mem}
use dusty.Nghttp2.Buf.{Buf}
use dusty.Nghttp2.Bufs.{Bufs, bufs_add}
use dusty.Nghttp2.Bufs.Add.{Appends, bufs_add-Appends}
use dusty.Nghttp2.Frame.{
  PrioritySpec, SettingsEntry, frame_settings_init, frame_goaway_init, frame_origin_init,
  frame_priority_init, origin_payloadlen,
}
use dusty.Nghttp2.Frame.Pack.{
  frame_pack_settings, frame_pack_goaway, frame_pack_origin, frame_pack_priority,
}
use dusty.Nghttp2.Frame.Unpack.{
  frame_unpack_goaway_payload2, frame_unpack_origin_payload, frame_unpack_priority_payload,
}
use dusty.Nghttp2.Frame.Sent.{IsReady}
use dusty.Nghttp2.Frame.Trip.{Travels}
use dusty.Nghttp2.Frame.SettingsTrip.{unpack_settings, settings_trip, goaway_trip}
use dusty.Nghttp2.Frame.PriorityTrip.{priority_trip}
use dusty.Nghttp2.Frame.OriginTrip.{origin_trip}

abbrev granting : Mem
granting = record { malloc = λ n. true; realloc = λ n. true }

abbrev chunk : Buf
chunk = record { mem = replicate 40 0; pos = 10; last = 10; mark = 0 }

abbrev chain : Bufs
chain = record {
  filled = [];
  cur = chunk;
  later = [];
  chunk_length = 14;
  max_chunk = 3;
  chunk_used = 1;
  chunk_keep = 1;
  offset = 10;
}

chain-IsReady : (n : ℕ) → n ≤ 30 → IsReady chain n
chain-IsReady n h = record {
  first = refl;
  empty = refl;
  header_room = omega arith;
  payload_room = omega arith;
}

-- A chain whose first chunk has two bytes of room.
abbrev short_chain : Bufs
short_chain = record chain { cur = record chunk { mem = replicate 12 0 } }

abbrev eight : List ℕ
eight = 1 ∷ 2 ∷ 3 ∷ 4 ∷ 5 ∷ 6 ∷ 7 ∷ 8 ∷ []

abbrev entries : List SettingsEntry
entries = record { settings_id = 3; value = 100 } ∷ record { settings_id = 4; value = 65535 } ∷ []

abbrev spec : PrioritySpec
spec = record { stream_id = 5; weight = 200; exclusive = 1 }

bufs_add-Appends_example : Appends [] eight (bufs_add granting short_chain eight)
bufs_add-Appends_example = bufs_add-Appends granting short_chain eight (record {
  current = record { ordered = omega arith; inside = omega arith };
  behind = tt;
  used = omega arith;
  fits = omega arith;
})

settings_trip_example :
    Travels
      (frame_pack_settings chain (frame_settings_init 0 entries))
      (frame_settings_init 0 entries).hd
      (unpack_settings granting)
      (frame_settings_init 0 entries)
settings_trip_example =
    settings_trip chain granting 0 entries (chain-IsReady _ (omega arith)) (omega arith)
      (omega arith) refl

goaway_trip_example :
    Travels
      (frame_pack_goaway granting chain (frame_goaway_init 3 2 eight))
      (frame_goaway_init 3 2 eight).hd
      (frame_unpack_goaway_payload2 0 granting)
      (frame_goaway_init 3 2 eight)
goaway_trip_example =
    goaway_trip chain granting granting 3 2 eight (chain-IsReady _ (omega arith)) (omega arith)
      (omega arith) (omega arith) refl

priority_trip_example :
    Travels
      (frame_pack_priority chain (frame_priority_init 9 spec))
      (frame_priority_init 9 spec).hd
      frame_unpack_priority_payload
      (frame_priority_init 9 spec)
priority_trip_example =
    priority_trip chain 9 spec (chain-IsReady _ (omega arith)) (omega arith) (record {
      stream_31 = omega arith;
      weight_low = omega arith;
      weight_high = omega arith;
      one_bit = omega arith;
    })

abbrev origins : List (List ℕ)
origins = (97 ∷ 98 ∷ []) ∷ (99 ∷ []) ∷ []

origin_trip_example :
    Travels
      (frame_pack_origin chain (frame_origin_init origins))
      (frame_origin_init origins).hd
      (frame_unpack_origin_payload granting)
      (frame_origin_init origins)
unfolding origin_payloadlen
origin_trip_example =
    origin_trip chain granting origins (chain-IsReady _ (omega arith)) (omega arith) (omega arith)
      (λ n. refl)
