-- ===== src/Vui.antt =====
-- src/rss_vui.c: the range and colour declarations of a sequence parameter set.
pub mod Walk
pub mod H264
pub mod H265
pub mod Local
pub mod Escape
pub mod Edit
pub mod Writes
pub mod Settled
pub mod Twice
pub mod Committed
pub mod Fields
pub mod Golomb
