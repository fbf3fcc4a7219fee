-- ===== src/Pes.antt =====
-- include/mpegts_pes.hpp and src/mpegts_pes.cpp: packetized elementary streams.
pub mod Timestamp
pub mod Header
pub mod Packet
pub mod Accumulator
pub mod Manager
pub mod Stamps
pub mod Format
pub mod Bounds
pub mod Reports
