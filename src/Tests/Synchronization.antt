-- ===== src/Tests/Synchronization.antt =====
-- The theorem on packets that stand back to back, at three packets.
use minimal_mpegts_std_impl.Prelude.{ℕ, some, true, List, [], ◌∷◌, ◌++◌}
use minimal_mpegts_std_impl.Packet.{TsPacket, new_packet}
use minimal_mpegts_std_impl.Demuxer.BackToBack.{BackToBack}
use minimal_mpegts_std_impl.Tests.{filler, plain_header, plain_packet}

-- What `plain_packet n` parses to, with `rest` behind it.
abbrev plain : ℕ → List ℕ → TsPacket
plain n rest = record new_packet {
  header = plain_header n;
  has_payload = true;
  payload_data = some (filler 184 ++ rest);
  payload_size = 184;
  valid = true;
}

abbrev opening : TsPacket
opening = plain 0 (plain_packet 1 ++ plain_packet 2)

abbrev further : List TsPacket
further = plain 1 (plain_packet 2) ∷ plain 2 [] ∷ []
