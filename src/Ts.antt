-- ===== src/Ts.antt =====
-- The MPEG-TS muxer of src/rss_ts.c.
pub mod Crc
pub mod CrcLaws
pub mod Packets
pub mod Mux
pub mod Receiver
pub mod Sections
pub mod Demux
pub mod Stream
