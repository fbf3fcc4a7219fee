-- ===== src/Psi/Section.antt =====
-- The header that every PSI section starts with.
use minimal_mpegts_std_impl.Prelude.{
  ℕ, ltb, if◌then◌else◌, Bool, false, Option, some, List, ◌>>=◌, read, shr, low_bits, join, bit,
}

abbrev pub table_id_pat : ℕ
table_id_pat = 0x00

abbrev pub table_id_pmt : ℕ
table_id_pmt = 0x02

pub record PsiSectionHeader : Type 0 where
  pub table_id : ℕ
  pub section_syntax_indicator : Bool
  pub section_length : ℕ
  pub table_id_extension : ℕ
  pub version_number : ℕ
  pub current_next_indicator : Bool
  pub section_number : ℕ
  pub last_section_number : ℕ

abbrev pub new_section_header : PsiSectionHeader
new_section_header = record {
  table_id = 0;
  section_syntax_indicator = false;
  section_length = 0;
  table_id_extension = 0;
  version_number = 0;
  current_next_indicator = false;
  section_number = 0;
  last_section_number = 0;
}

-- The 12-bit length in bytes 1 and 2 of a section.
abbrev pub section_length_of : ℕ → ℕ → ℕ
section_length_of b1 b2 = join (low_bits b1 4) 8 b2

-- Bytes 3 to 7, which only the long form has.
unfoldable pub parse_long_form : List ℕ → ℕ → PsiSectionHeader → Option (ℕ × PsiSectionHeader)
parse_long_form p n h = if ltb n 8 then some (0, h) else do
  b3 ← read p 3
  b4 ← read p 4
  b5 ← read p 5
  b6 ← read p 6
  b7 ← read p 7
  some (
    8,
    record h {
      table_id_extension = join b3 8 b4;
      version_number = low_bits (shr b5 1) 5;
      current_next_indicator = bit b5 0;
      section_number = b6;
      last_section_number = b7;
    },
  )

-- `parseSectionHeader`: the number of bytes taken, 0 on an error, and the header as far as it is
-- filled in.
unfoldable pub parse_section_header : List ℕ → ℕ → PsiSectionHeader → Option (ℕ × PsiSectionHeader)
parse_section_header p n h = if ltb n 3 then some (0, h) else do
  b0 ← read p 0
  b1 ← read p 1
  b2 ← read p 2
  let h' = record h {
    table_id = b0;
    section_syntax_indicator = bit b1 7;
    section_length = section_length_of b1 b2;
  }
  if bit b1 7 then parse_long_form p n h' else some (3, h')
