-- ===== src/Pes/Packet.antt =====
-- A whole PES packet, parsed from memory.
use minimal_mpegts_std_impl.Prelude.{
  ℕ, ◌-◌, ltb, if◌then◌else◌, Bool, true, false, Option, some, List, [], ◌>>=◌, read_span, drop,
}
use minimal_mpegts_std_impl.Pes.Header.{PesHeader, new_pes_header, get_header_size, parse_header}

pub record PesPacket : Type 0 where
  pub header : PesHeader
  pub payload : List ℕ
  pub complete : Bool

abbrev pub new_pes_packet : PesPacket
new_pes_packet = record { header = new_pes_header; payload = []; complete = false }

-- The part behind the header; `n - header_size` does not wrap behind the test.
unfoldable pub parse_payload : List ℕ → ℕ → PesPacket → Option (Bool × PesPacket)
parse_payload p n k = if ltb n (get_header_size k.header) then some (false, k) else do
  bytes ← read_span (drop (get_header_size k.header) p) (n - get_header_size k.header)
  some (true, record k { payload = bytes; complete = true })

-- `PESParser::parsePacket`.
unfoldable pub parse_packet : List ℕ → ℕ → PesPacket → Option (Bool × PesPacket)
parse_packet p n k = do
  (accepted, h) ← parse_header (some p) n k.header
  let k' = record k { header = h }
  if accepted then parse_payload p n k' else some (false, k')

-- `PESPacket::clear`.
abbrev pub clear_packet : PesPacket → PesPacket
clear_packet k = record { header = new_pes_header; payload = []; complete = false }
