-- ===== src/Nghttp2/Extpri/Examples.antt =====
-- Priorities at concrete values.
use dusty.Base.{◌≡◌, arith}
use dusty.Nghttp2.Extpri.{Extpri, extpri_to_uint8, extpri_from_uint8, extpri_trip}

abbrev incremental : Extpri
incremental = record { urgency = 3; inc = 1 }

extpri_trip_example :
    (extpri_from_uint8 (extpri_to_uint8 incremental) ≡ incremental)
    × (extpri_to_uint8 (extpri_from_uint8 0x85) ≡ 0x85)
extpri_trip_example = extpri_trip incremental 0x85 (omega arith) (omega arith) (omega arith)
