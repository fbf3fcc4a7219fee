-- ===== src/Lib.antt =====
-- The MPEG transport stream demultiplexer of this repository: src/ and include/, namespace mpegts.
--
-- The program. A client feeds bytes to `MPEGTSDemuxer::feedData`. The bytes go to a raw buffer of at
-- most 100 packets; the demultiplexer searches it for synchronization, parses its packets of 188
-- bytes, collects the program tables and the clock references, and adds the payload and the private
-- data of each packet to the iteration that is open for its PID. A finished iteration goes to the
-- storage, from where the `get…` methods read it. The PES parser and accumulator stand beside this:
-- the demultiplexer does not call them.
--
-- The files, with the source that each models:
--   Types             include/mpegts_types.hpp: constants, records, PID predicates
--   Packet            src/mpegts_packet.cpp: TSPacket::parse, parseHeader, parseAdaptationField
--   Storage           src/mpegts_storage.cpp: StreamIterations, DemuxerStreamStorage;
--                     proofs in Lookup
--   Psi               src/mpegts_psi.cpp: Crc (calculateCRC32, verifyCRC32), Section
--                     (parseSectionHeader), Pat (parsePAT), Pmt (parsePMT), Accumulator
--                     (PSIAccumulator); proofs in Check, Polynomial (the
--                     CRC without a table), HeaderFormat, PatFormat, PmtFormat, Bounds,
--                     Assembly, Pieces, Reassembly
--   Pes               src/mpegts_pes.cpp: Timestamp, Header (parseHeader), Packet (parsePacket),
--                     Accumulator (PESAccumulator), Manager (PESManager); proofs in Stamps,
--                     Format, Bounds, Reports
--   Pcr               src/mpegts_pcr.cpp: Clock (PCR, extractPCR, pcrDifference), Tracker
--                     (PCRTracker), Manager (PCRManager); proofs in Fields, History
--   Demuxer           src/mpegts_demuxer.cpp: State (the members of MPEGTSDemuxer), Sync
--                     (tryFindValidIteration), Feed (feedData, processBuffer), Iteration and Collect
--                     (addPacketToStorage, finalizeIteration), Tables (processPSIPacket,
--                     processPCR), Queries, Manage; the other files hold proofs
--   Prelude           lists, tests, integers, maps, checked reads of memory, exclusive or
--   Tests             concrete data
--
-- How the code is read. The bytes at a pointer are the list of the bytes from there to the end of
-- the memory that the code may read, and a read behind it gives `none`: a definition that ends in
-- Option returns `none` exactly where the code would touch memory that is not its own, or use an
-- invalid iterator. A null pointer is `none` of Option (List ℕ). A method takes its object and
-- returns it with its result, as a pair. Failed parses leave in the output what the code has written
-- to it so far. Numbers are natural numbers; where an unsigned operation of the code can wrap around
-- the definition says so, and signed differences are integers. A std::map is an association list in
-- ascending order of its keys. The pointers from segments into the data of their iteration are
-- offsets into that data.
--
-- The loops. `process_packets` runs on fuel, the length of the buffer plus one, and each packet
-- takes 188 bytes of it. `find_candidates` runs on fuel and moves on by at least a byte a step;
-- `scan` counts the start positions down. The loops of parsePAT and parsePMT run on fuel, the number
-- of bytes given plus one, and each entry takes four bytes or more. Where the fuel ran out the result would be
-- `none`, so that a theorem that a function returns shows too that there is enough of it.
--
-- Not modelled: `double` is an interface (Prelude/Double), since the language has no floating
-- point; the order in which the hash map of the program map tables is listed (ascending here); the
-- wraparound of the counts of packets, which are natural numbers; exhaustion of memory;
-- `handleDiscontinuity`, which is empty; tests, examples and scripts.
pub mod Prelude
pub mod Types
pub mod Packet
pub mod Storage
pub mod Psi
pub mod Pes
pub mod Pcr
pub mod Demuxer
pub mod Tests
