-- ===== src/Pcr.antt =====
-- include/mpegts_pcr.hpp and src/mpegts_pcr.cpp: program clock references.
pub mod Clock
pub mod Tracker
pub mod Manager
pub mod Fields
pub mod History
