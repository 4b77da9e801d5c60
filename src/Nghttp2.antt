-- ===== src/Nghttp2.antt =====
-- The nghttp2 sources under src/nghttp2/lib: one child module for each file that is modelled.
pub mod Run
pub mod Wire
pub mod Buf
pub mod Bufs
pub mod Ratelim
pub mod Weight
pub mod Downcase
pub mod Extpri
pub mod Frame
