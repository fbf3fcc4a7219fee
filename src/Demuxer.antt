-- ===== src/Demuxer.antt =====
-- include/mpegts_demuxer.hpp and src/mpegts_demuxer.cpp: the demultiplexer.
pub mod State
pub mod Iteration
pub mod Collect
pub mod Tables
pub mod Sync
pub mod Feed
pub mod Queries
pub mod Manage
pub mod Tiles
pub mod Stored
pub mod Invariant
pub mod CollectSteps
pub mod TableSteps
pub mod FeedSteps
pub mod Candidates
pub mod Nearest
pub mod SyncSteps
pub mod Payloads
pub mod BackToBack
pub mod FeedSafety
pub mod Clearing
pub mod Clocks
