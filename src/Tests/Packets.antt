-- ===== src/Tests/Packets.antt =====
-- The theorems on packets and on the iterations that they extend, at concrete ones.
use minimal_mpegts_std_impl.Prelude.{
  ℕ, ◌≢◌, ◌≡◌, refl, true, false, none, some, [], ◌∷◌, ◌++◌, arith, length, Returns,
}
use minimal_mpegts_std_impl.Types.{IterationData, payload_normal, new_iteration}
use minimal_mpegts_std_impl.Packet.{TsPacket, new_packet, parse}
use minimal_mpegts_std_impl.Packet.Safety.{ParseOk, parse_ok}
use minimal_mpegts_std_impl.Packet.Format.{
  header_bytes, private_bytes, private_field, parse-payload_packet, parse-private_packet,
}
use minimal_mpegts_std_impl.Demuxer.Iteration.{extend_iteration}
use minimal_mpegts_std_impl.Demuxer.Tiles.{IsUsable, Extended, extend_iteration_returns}
use minimal_mpegts_std_impl.Demuxer.Stored.{IsStored, fix_pointers-IsStored}
use minimal_mpegts_std_impl.Storage.{
  Stream, new_stream, fix_pointers, add_iteration, get_iteration, remove_iteration, find_iteration,
}
use minimal_mpegts_std_impl.Storage.Lookup.{remove_iteration-add_iteration, get_iteration-other}
use minimal_mpegts_std_impl.Tests.{
  filler, length-filler, plain_header, private_header, plain_header-IsHeader,
  private_header-IsHeader, plain_packet, plain_packet-IsBytes, length-plain_packet,
}

parse_ok_example : Returns (parse new_packet (some (plain_packet 5))) (ParseOk (plain_packet 5))
parse_ok_example =
    parse_ok (plain_packet 5) (omega (arith, length-plain_packet 5))
      (plain_packet-IsBytes 5 (omega arith))

parse-payload_packet_example :
    parse new_packet (some (header_bytes (plain_header 5) ++ (filler 184 ++ filler 3)))
    ≡ some (
      true,
      record new_packet {
        header = plain_header 5;
        has_payload = true;
        payload_data = some (filler 184 ++ filler 3);
        payload_size = 184;
        valid = true;
      },
    )
parse-payload_packet_example =
    parse-payload_packet (plain_header 5) (filler 184) (filler 3)
      (plain_header-IsHeader 5 (omega arith)) refl (length-filler 184)

parse-private_packet_example :
    parse new_packet (
      some (
        header_bytes private_header
        ++ private_bytes true false false true (9 ∷ []) (filler 180 ++ [])))
    ≡ some (
      true,
      record {
        header = private_header;
        adaptation_field = private_field true false false true (9 ∷ []) (filler 180 ++ []);
        payload_data = some (filler 180 ++ []);
        payload_size = length (filler 180);
        has_adaptation = true;
        has_payload = true;
        valid = true;
      },
    )
parse-private_packet_example =
    parse-private_packet true false false true private_header (9 ∷ []) (filler 180) []
      private_header-IsHeader refl (omega (arith, length-filler 180))

-- An iteration of three bytes in one segment, and a packet of two more bytes.
abbrev three_bytes : IterationData
three_bytes = record new_iteration {
  payload_data = 1 ∷ 2 ∷ 3 ∷ [];
  payloads =
      record { type = payload_normal; pointer = none; length = 3; offset_in_stream = 0 } ∷ [];
}

abbrev two_bytes : TsPacket
two_bytes = record new_packet {
  header = plain_header 4;
  has_payload = true;
  payload_data = some (4 ∷ 5 ∷ 6 ∷ []);
  payload_size = 2;
  valid = true;
}

two_bytes-IsUsable : IsUsable two_bytes
two_bytes-IsUsable = record { private = refl; payload = λ x. omega arith }

extend_iteration_returns_example :
    Returns
      (extend_iteration three_bytes (some 2) two_bytes)
      (Extended three_bytes (some 2) two_bytes)
extend_iteration_returns_example =
    extend_iteration_returns three_bytes (some 2) two_bytes (refl, omega arith, refl)
      two_bytes-IsUsable

fix_pointers-IsStored_example : IsStored (fix_pointers three_bytes)
fix_pointers-IsStored_example = fix_pointers-IsStored three_bytes (refl, omega arith, refl)

-- A stream that holds one iteration, under the identifier 1.
abbrev one_stored : Stream
one_stored = record (new_stream 256) { iterations = (1, new_iteration) ∷ [] }

remove_iteration-add_iteration_example :
    (get_iteration (add_iteration one_stored 2 three_bytes) 2 ≡ some (fix_pointers three_bytes))
    × ((remove_iteration (add_iteration one_stored 2 three_bytes) 2).iterations
        ≡ one_stored.iterations)
unfolding get_iteration find_iteration
remove_iteration-add_iteration_example =
    remove_iteration-add_iteration one_stored 2 three_bytes refl

get_iteration-other_example :
    ((j : ℕ)
      → j ≢ 1
      → (get_iteration (add_iteration one_stored 1 three_bytes) j ≡ get_iteration one_stored j)
        × (get_iteration (remove_iteration one_stored 1) j ≡ get_iteration one_stored j))
    × ((x : IterationData)
        → get_iteration one_stored 1 ≡ some x
        → get_iteration (add_iteration one_stored 1 three_bytes) 1 ≡ some x)
get_iteration-other_example = get_iteration-other one_stored 1 three_bytes
