-- ===== src/Tests/Streams.antt =====
-- The theorems on the demultiplexer at a stream of three packets.
use minimal_mpegts_std_impl.Prelude.{
  ◌↔◌, ◌≢◌, none, ℕ, ◌<◌, ◌≡◌, refl, true, false, some, List, [], ◌∷◌, ◌++◌, arith, IsBytes, length,
  All-append, Returns, take,
}
use minimal_mpegts_std_impl.Prelude.Assoc.{lookup, insert_set, in_set}
use minimal_mpegts_std_impl.Types.{
  ProgramTable, IterationData, payload_normal, payload_private, new_iteration, is_system_pid,
}
use minimal_mpegts_std_impl.Storage.{new_stream, get_stream, get_iteration, find_iteration}
use minimal_mpegts_std_impl.Demuxer.Queries.{get_all_payloads}
use minimal_mpegts_std_impl.Demuxer.Payloads.{copied, get_all_payloads-copied}
use minimal_mpegts_std_impl.Packet.{TsPacket, new_packet}
use minimal_mpegts_std_impl.Demuxer.State.{Demuxer, new_demuxer}
use minimal_mpegts_std_impl.Demuxer.Sync.{try_find_valid_iteration}
use minimal_mpegts_std_impl.Demuxer.SyncSteps.{Searched, try_find_valid_iteration_returns}
use minimal_mpegts_std_impl.Demuxer.Collect.{add_packet_to_storage, is_collected}
use minimal_mpegts_std_impl.Demuxer.Tables.{process_psi_packet}
use minimal_mpegts_std_impl.Demuxer.Manage.{
  clear_all, set_programs_table, insert_programs, insert_pids,
}
use minimal_mpegts_std_impl.Demuxer.Tiles.{IsUsable}
use minimal_mpegts_std_impl.Demuxer.Feed.{buffer_data, feed_data}
use minimal_mpegts_std_impl.Demuxer.Invariant.{IsGood, Keeps}
use minimal_mpegts_std_impl.Demuxer.CollectSteps.{add_packet_to_storage_returns}
use minimal_mpegts_std_impl.Demuxer.TableSteps.{process_psi_packet_returns}
use minimal_mpegts_std_impl.Demuxer.FeedSafety.{
  IsReady, IsDrained, feed_data_returns, new_demuxer-IsReady, feed_all, feed_all_returns,
}
use minimal_mpegts_std_impl.Demuxer.Clearing.{Collided, clear_all_faults, identifiers_collide}
use minimal_mpegts_std_impl.Tests.{int_double, plain_header, plain_packet, plain_packet-IsBytes}

abbrev fresh : Demuxer int_double
fresh = new_demuxer int_double

-- Three packets of one PID in sequence.
abbrev pub stream : List ℕ
stream = plain_packet 0 ++ (plain_packet 1 ++ plain_packet 2)

pub stream-IsBytes : IsBytes stream
stream-IsBytes =
    All-append (λ b. b < 256) (plain_packet 0) (plain_packet 1 ++ plain_packet 2)
      (plain_packet-IsBytes 0 (omega arith))
      (All-append (λ b. b < 256) (plain_packet 1) (plain_packet 2)
        (plain_packet-IsBytes 1 (omega arith)) (plain_packet-IsBytes 2 (omega arith)))

pub length-stream : length stream ≡ 564
length-stream = refl

feed_data_returns_example : Returns (feed_data int_double fresh (some stream) 564) (λ d'.
    IsReady int_double d'
    × (0 < 564 → IsDrained int_double d')
    × (0 < 564
        → d'.is_synchronized ≡ false
        → d'.raw_buffer ≡ buffer_data fresh.raw_buffer (take 564 stream)))
feed_data_returns_example =
    feed_data_returns int_double fresh stream 564 (new_demuxer-IsReady int_double) stream-IsBytes
      (omega (arith, length-stream))

feed_all_returns_example :
    Returns (feed_all int_double fresh (plain_packet 0 ∷ stream ∷ [])) (IsReady int_double)
feed_all_returns_example =
    feed_all_returns int_double fresh (plain_packet 0 ∷ stream ∷ [])
      (new_demuxer-IsReady int_double) (plain_packet-IsBytes 0 (omega arith), (stream-IsBytes, tt))

try_find_valid_iteration_returns_example :
    Returns (try_find_valid_iteration stream 3) (Searched stream 3)
try_find_valid_iteration_returns_example = try_find_valid_iteration_returns stream 3 stream-IsBytes

-- A packet of the program association table with three bytes of payload.
abbrev table_packet : TsPacket
table_packet = record new_packet {
  header = record (plain_header 0) { pid = 0 };
  has_payload = true;
  payload_data = some (0 ∷ 0 ∷ 0xB0 ∷ []);
  payload_size = 3;
  valid = true;
}

table_packet-IsGood : IsGood table_packet
table_packet-IsGood = record {
  usable = record { private = refl; payload = λ x. omega arith };
  point =
      λ x. (0 ∷ 0 ∷ 0xB0 ∷ [], refl, (omega arith, (omega arith, (omega arith, tt))), omega arith);
}

process_psi_packet_returns_example :
    Returns (process_psi_packet int_double fresh table_packet) (Keeps int_double fresh)
process_psi_packet_returns_example =
    process_psi_packet_returns int_double fresh table_packet table_packet-IsGood
      (new_demuxer-IsReady int_double).inv

-- A packet of PID 256 with two bytes of payload.
abbrev payload_packet : TsPacket
payload_packet = record new_packet {
  header = plain_header 0;
  has_payload = true;
  payload_data = some (1 ∷ 2 ∷ []);
  payload_size = 2;
  valid = true;
}

payload_packet-IsUsable : IsUsable payload_packet
payload_packet-IsUsable = record { private = refl; payload = λ x. omega arith }

add_packet_to_storage_returns_example :
    Returns (add_packet_to_storage int_double fresh payload_packet) (Keeps int_double fresh)
add_packet_to_storage_returns_example =
    add_packet_to_storage_returns int_double fresh payload_packet payload_packet-IsUsable
      (new_demuxer-IsReady int_double).inv

-- PID 300 has its first iteration open.
abbrev one_open : Demuxer int_double
one_open = record fresh {
  current_iterations = (300, new_iteration) ∷ [];
  current_iteration_ids = (300, 1) ∷ [];
}

-- A table with the stream 256.
abbrev one_program : ProgramTable
one_program = record { programs = (1, 256 ∷ []) ∷ [] }

identifiers_collide_example :
    Returns
      (add_packet_to_storage int_double
        (set_programs_table int_double one_open one_program)
        payload_packet)
      (Collided int_double 300 new_iteration payload_packet)
unfolding lookup is_collected set_programs_table insert_programs insert_pids insert_set in_set
    is_system_pid
identifiers_collide_example =
    identifiers_collide int_double one_open one_program 300 new_iteration payload_packet refl refl
      (omega arith) refl refl payload_packet-IsUsable

-- A demultiplexer with an open iteration.
abbrev collecting : Demuxer int_double
collecting = record fresh { current_iterations = (300, new_iteration) ∷ [] }

clear_all_faults_example :
    (clear_all int_double collecting ≡ none) ↔ (collecting.current_iterations ≢ [])
clear_all_faults_example = clear_all_faults int_double collecting

-- A stored iteration of five bytes: one of private data, then four of payload.
abbrev five_bytes : IterationData
five_bytes = record new_iteration {
  payload_data = 9 ∷ 1 ∷ 2 ∷ 3 ∷ 4 ∷ [];
  payloads =
      record { type = payload_private; pointer = some 0; length = 1; offset_in_stream = 0 }
      ∷ record { type = payload_normal; pointer = some 1; length = 4; offset_in_stream = 1 }
      ∷ [];
}

abbrev holding : Demuxer int_double
holding = record fresh {
  storage = record {
    streams = (300, record (new_stream 300) { iterations = (7, five_bytes) ∷ [] }) ∷ [];
    next_iteration_id = 8;
  };
}

get_all_payloads-copied_example :
    copied (get_all_payloads int_double holding 300 7) ≡ 9 ∷ 1 ∷ 2 ∷ 3 ∷ 4 ∷ []
unfolding get_stream lookup get_iteration find_iteration
get_all_payloads-copied_example =
    get_all_payloads-copied int_double holding 300 7 five_bytes refl
      ((refl, omega arith, (refl, omega arith, refl)), (refl, (refl, tt)))
