-- ===== src/Psi.antt =====
-- include/mpegts_psi.hpp and src/mpegts_psi.cpp: program specific information.
pub mod Crc
pub mod Section
pub mod Pat
pub mod Pmt
pub mod Accumulator
pub mod Check
pub mod Polynomial
pub mod HeaderFormat
pub mod PatFormat
pub mod PmtFormat
pub mod Bounds
pub mod Assembly
pub mod Pieces
pub mod Reassembly
