-- ===== src/Tests/Formats.antt =====
-- The theorems on the bytes of program association and program map sections and of a PES packet, and
-- on the pieces of a section.
use minimal_mpegts_std_impl.Prelude.{
  ℕ, ◌≡◌, refl, true, some, List, [], ◌∷◌, ◌++◌, arith, ◌>>=◌, length, Returns,
}
use minimal_mpegts_std_impl.Psi.Section.{PsiSectionHeader, new_section_header}
use minimal_mpegts_std_impl.Psi.Pat.{PatEntry, new_pat, parse_pat}
use minimal_mpegts_std_impl.Psi.Pmt.{Pmt, new_pmt, parse_pmt}
use minimal_mpegts_std_impl.Psi.Polynomial.{polynomial_checksum}
use minimal_mpegts_std_impl.Psi.PmtFormat.{IsPmt, pmt_bytes, parse_pmt-pmt_bytes}
use minimal_mpegts_std_impl.Psi.Accumulator.{PsiAccumulator, new_accumulator, add_data, get_section}
use minimal_mpegts_std_impl.Psi.Pieces.{IsSection}
use minimal_mpegts_std_impl.Psi.Reassembly.{start_payload, feed_pieces, feed_pieces-start_payload}
use minimal_mpegts_std_impl.Pes.Header.{lacks_optional_fields}
use minimal_mpegts_std_impl.Pes.Packet.{new_pes_packet, parse_packet}
use minimal_mpegts_std_impl.Pes.Format.{stamped_header, stamped_bytes, parse_packet-stamped_bytes}
use minimal_mpegts_std_impl.Psi.Check.{bytes32, checksum}
use minimal_mpegts_std_impl.Psi.PatFormat.{IsPatHeader, pat_bytes, parse_pat-pat_bytes}

abbrev one_program : List PatEntry
one_program = record { program_number = 1; pid = 0x1000 } ∷ []

abbrev pat_header : PsiSectionHeader
pat_header = record new_section_header {
  section_syntax_indicator = true;
  section_length = 13;
  table_id_extension = 7;
  version_number = 3;
  current_next_indicator = true;
}

pat_header-IsPatHeader : IsPatHeader pat_header one_program
pat_header-IsPatHeader = record {
  table = refl;
  long_form = refl;
  announces = refl;
  length_bits = omega arith;
  extension_bits = omega arith;
  version_bits = omega arith;
  number_bits = omega arith;
  last_bits = omega arith;
}

parse_pat-pat_bytes_example :
    parse_pat
      (pat_bytes pat_header one_program
        ++ (bytes32 (checksum (pat_bytes pat_header one_program)) ++ (0xFF ∷ [])))
      17
      new_pat
    ≡ some (
      true,
      record {
        header = pat_header;
        transport_stream_id = 7;
        programs = one_program;
        crc32 = checksum (pat_bytes pat_header one_program);
      },
    )
parse_pat-pat_bytes_example =
    parse_pat-pat_bytes pat_header one_program (0xFF ∷ []) 17 pat_header-IsPatHeader
      ((omega arith, omega arith), tt) (omega arith)

-- A program map with two bytes of program descriptors, a video stream with three bytes of its own
-- and an audio stream.
abbrev unsummed_map : Pmt
unsummed_map = record {
  header = record new_section_header {
    table_id = 2;
    section_syntax_indicator = true;
    section_length = 28;
    table_id_extension = 1;
    version_number = 3;
    current_next_indicator = true;
  };
  program_number = 1;
  pcr_pid = 256;
  program_info_length = 2;
  program_descriptors = 5 ∷ 0 ∷ [];
  streams =
      record {
        stream_type = 0x1B;
        elementary_pid = 257;
        es_info_length = 3;
        descriptors = 40 ∷ 1 ∷ 9 ∷ [];
      }
      ∷ record { stream_type = 0x0F; elementary_pid = 258; es_info_length = 0; descriptors = [] }
      ∷ [];
  crc32 = 0;
}

abbrev program_map : Pmt
program_map = record unsummed_map { crc32 = polynomial_checksum (pmt_bytes unsummed_map) }

program_map-IsPmt : IsPmt program_map
program_map-IsPmt = record {
  table = refl;
  long_form = refl;
  announces = refl;
  length_bits = omega arith;
  extension_bits = omega arith;
  version_bits = omega arith;
  program = refl;
  pid_bits = omega arith;
  info_length = refl;
  info_bits = omega arith;
  all_streams = (
    record { pid_bits = omega arith; info_length = refl; length_bits = omega arith },
    (record { pid_bits = omega arith; info_length = refl; length_bits = omega arith }, tt),
  );
  bytes = omega arith;
  crc = refl;
}

parse_pmt-pmt_bytes_example :
    parse_pmt (pmt_bytes program_map ++ (bytes32 program_map.crc32 ++ (0xFF ∷ []))) 32 new_pmt
    ≡ some (true, program_map)
parse_pmt-pmt_bytes_example =
    parse_pmt-pmt_bytes program_map (0xFF ∷ []) 32 program_map-IsPmt (omega arith)

-- A section of five bytes in two pieces, behind a pointer that skips one byte; the accumulator has
-- some other bytes when it comes.
abbrev short_section : List ℕ
short_section = 0x42 ∷ 0xF0 ∷ 2 ∷ 7 ∷ 8 ∷ []

short_section-IsSection : IsSection short_section
short_section-IsSection = record { has_length = omega arith; announced = refl }

abbrev midway : PsiAccumulator
midway = record new_accumulator { buffer = 1 ∷ 2 ∷ []; synced = true }

feed_pieces-start_payload_example :
    Returns
      (add_data midway
          (start_payload (9 ∷ []) (0x42 ∷ 0xF0 ∷ []))
          (length (start_payload (9 ∷ []) (0x42 ∷ 0xF0 ∷ [])))
          true
        >>= λ r. feed_pieces r.0 r.1 ((2 ∷ 7 ∷ 8 ∷ []) ∷ []))
      (λ r.
        (r.0 ≡ true)
        × (r.2 ≡ [])
        × (get_section r.1 [] ≡ some (length short_section, short_section, new_accumulator)))
feed_pieces-start_payload_example =
    feed_pieces-start_payload midway short_section (9 ∷ []) (0x42 ∷ 0xF0 ∷ [])
      ((2 ∷ 7 ∷ 8 ∷ []) ∷ []) [] short_section-IsSection (omega arith) (omega arith, tt) refl

parse_packet-stamped_bytes_example :
    parse_packet
      (stamped_bytes 0xE0 17 0x1FEDCBA98 0x0FEDCBA98 2
        ((0xFF ∷ 0xFF ∷ []) ++ ((5 ∷ 6 ∷ []) ++ (7 ∷ []))))
      23
      new_pes_packet
    ≡ some (
      true,
      record {
        header = stamped_header 0xE0 17 0x1FEDCBA98 0x0FEDCBA98 2;
        payload = 5 ∷ 6 ∷ [];
        complete = true;
      },
    )
unfolding lacks_optional_fields
parse_packet-stamped_bytes_example =
    parse_packet-stamped_bytes 0xE0 17 0x1FEDCBA98 0x0FEDCBA98 (0xFF ∷ 0xFF ∷ []) (5 ∷ 6 ∷ [])
      (7 ∷ []) refl (omega arith) (omega arith)
