-- ===== src/Pipeline.antt =====
-- The parts put together: configure, encode (src/ALEncode.c), serialise, deserialise
-- (src/ALSerialization.c) and decode (src/ALDecode.c).
pub mod Partition
pub mod Archive
mod Examples
