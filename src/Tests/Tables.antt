-- ===== src/Tests/Tables.antt =====
-- The theorems on sections, tables and PES packets, at concrete bytes.
use minimal_mpegts_std_impl.Prelude.{
  ◌==◌, ◌++◌, ℕ, ◌≡◌, refl, true, some, List, [], ◌∷◌, arith, IsBytes, Returns,
}
use minimal_mpegts_std_impl.Psi.Crc.{verify_crc32}
use minimal_mpegts_std_impl.Psi.Check.{bytes32}
use minimal_mpegts_std_impl.Psi.Polynomial.{polynomial_checksum, verify_crc32-polynomial_checksum}
use minimal_mpegts_std_impl.Psi.Pat.{new_pat, parse_pat}
use minimal_mpegts_std_impl.Psi.Pmt.{new_pmt, parse_pmt}
use minimal_mpegts_std_impl.Psi.Accumulator.{new_accumulator, add_data}
use minimal_mpegts_std_impl.Psi.Bounds.{parse_pat_returns, parse_pmt_returns}
use minimal_mpegts_std_impl.Psi.Assembly.{Added, add_data_returns}
use minimal_mpegts_std_impl.Pes.Packet.{new_pes_packet, parse_packet}
use minimal_mpegts_std_impl.Pes.Bounds.{PacketIn, parse_packet_returns}

-- A PAT section of one program, with its CRC.
abbrev pat_section : List ℕ
pat_section =
    0x00 ∷ 0xB0 ∷ 0x0D ∷ 0x00 ∷ 0x01 ∷ 0xC1 ∷ 0x00 ∷ 0x00 ∷ 0x00 ∷ 0x01 ∷ 0xF0 ∷ 0x00 ∷ 0x2A ∷ 0xB1
    ∷ 0x04 ∷ 0xB2 ∷ []

pat_section-IsBytes : IsBytes pat_section
pat_section-IsBytes = omega arith

parse_pat_returns_example : Returns (parse_pat pat_section 16 new_pat) (λ _. Unit)
parse_pat_returns_example =
    parse_pat_returns pat_section 16 (omega arith) new_pat pat_section-IsBytes

-- A PMT section of one H.264 stream, with its CRC.
abbrev pmt_section : List ℕ
pmt_section =
    0x02 ∷ 0xB0 ∷ 0x12 ∷ 0x00 ∷ 0x01 ∷ 0xC1 ∷ 0x00 ∷ 0x00 ∷ 0xE1 ∷ 0x00 ∷ 0xF0 ∷ 0x00 ∷ 0x1B ∷ 0xE1
    ∷ 0x00 ∷ 0xF0 ∷ 0x00 ∷ 0x15 ∷ 0xBD ∷ 0x4D ∷ 0x56 ∷ []

pmt_section-IsBytes : IsBytes pmt_section
pmt_section-IsBytes = omega arith

parse_pmt_returns_example : Returns (parse_pmt pmt_section 21 new_pmt) (λ _. Unit)
parse_pmt_returns_example =
    parse_pmt_returns pmt_section 21 (omega arith) new_pmt pmt_section-IsBytes

add_data_returns_example : Returns (add_data new_accumulator (0 ∷ pat_section) 17 true) Added
add_data_returns_example =
    add_data_returns new_accumulator (0 ∷ pat_section) 17 true (omega arith) (omega arith) tt

-- A PES packet of a video stream with no optional fields and one byte of payload.
abbrev pes_bytes : List ℕ
pes_bytes = 0 ∷ 0 ∷ 1 ∷ 0xE0 ∷ 0 ∷ 4 ∷ 0x80 ∷ 0 ∷ 0 ∷ 0x42 ∷ []

parse_packet_returns_example :
    Returns (parse_packet pes_bytes 10 new_pes_packet) (PacketIn pes_bytes 10 (omega arith))
parse_packet_returns_example = parse_packet_returns pes_bytes 10 (omega arith) new_pes_packet

verify_crc32-polynomial_checksum_example :
    verify_crc32 ((7 ∷ 8 ∷ []) ++ (bytes32 0x1170F7BF ++ (9 ∷ []))) 6
    ≡ some (polynomial_checksum (7 ∷ 8 ∷ []) == 0x1170F7BF)
verify_crc32-polynomial_checksum_example =
    verify_crc32-polynomial_checksum (7 ∷ 8 ∷ []) 0x1170F7BF (9 ∷ []) (omega arith) (omega arith)

-- The sum of these two bytes, so that the section is accepted.
polynomial_checksum_test : polynomial_checksum (7 ∷ 8 ∷ []) ≡ 0x1170F7BF
polynomial_checksum_test = refl
