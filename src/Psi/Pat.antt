-- ===== src/Psi/Pat.antt =====
-- The program association table.
use minimal_mpegts_std_impl.Prelude.{
  ℕ, zero, suc, ◌+◌, ◌-◌, ◌%◌, ◌^◌, ◌==◌, ltb, leb, if◌then◌else◌, Bool, true, false, not, ◌&&◌,
  Option, none, some, List, [], ◌∷◌, ◌++◌, ◌>>=◌, read, low_bits, join,
}
use minimal_mpegts_std_impl.Psi.Crc.{verify_crc32, read32}
use minimal_mpegts_std_impl.Psi.Section.{
  PsiSectionHeader, new_section_header, parse_section_header, table_id_pat,
}

pub record PatEntry : Type 0 where
  pub program_number : ℕ
  pub pid : ℕ

pub record Pat : Type 0 where
  pub header : PsiSectionHeader
  pub transport_stream_id : ℕ
  pub programs : List PatEntry
  pub crc32 : ℕ

abbrev pub new_pat : Pat
new_pat = record { header = new_section_header; transport_stream_id = 0; programs = []; crc32 = 0 }

-- `3 + section_length - 4` on `size_t`.
abbrev pub entries_end_of : ℕ → ℕ
entries_end_of section_length = (3 + section_length + 2 ^ 64 - 4) % 2 ^ 64

-- The four bytes of one entry.
unfoldable pub read_entry : List ℕ → ℕ → Option PatEntry
read_entry p offset = do
  b0 ← read p offset
  b1 ← read p (offset + 1)
  b2 ← read p (offset + 2)
  b3 ← read p (offset + 3)
  some (record { program_number = join b0 8 b1; pid = join (low_bits b2 5) 8 b3 })

-- The loop over the entries, on fuel; `none` where the fuel runs out too.
unfoldable pub pat_entries : ℕ → List ℕ → ℕ → ℕ → List PatEntry → Option (List PatEntry)
pat_entries zero p entries_end offset programs = none
pat_entries (suc fuel) p entries_end offset programs =
    let rest = (do
      e ← read_entry p offset
      pat_entries fuel p entries_end (offset + 4) (programs ++ e ∷ [])) in
    if leb (offset + 4) entries_end then rest else some programs

-- The part behind the checks.
unfoldable pub parse_pat_body : List ℕ → ℕ → ℕ → Pat → Option (Bool × Pat)
parse_pat_body p n header_size pat = do
  let entries_end = entries_end_of pat.header.section_length
  programs ← pat_entries (n + 1) p entries_end header_size pat.programs
  crc ← read32 p entries_end
  some (
    true,
    record pat {
      transport_stream_id = pat.header.table_id_extension;
      programs = programs;
      crc32 = crc;
    },
  )

-- `PSIParser::parsePAT`.
unfoldable pub parse_pat : List ℕ → ℕ → Pat → Option (Bool × Pat)
parse_pat p n pat = if ltb n 8 then some (false, pat) else do
  (header_size, h) ← parse_section_header p n pat.header
  let pat' = record pat { header = h }
  if header_size == 0
      then some (false, pat')
      else if not (h.table_id == table_id_pat)
      then some (false, pat')
      else if ltb n (3 + h.section_length)
      then some (false, pat')
      else do
        sound ← verify_crc32 p (3 + h.section_length)
        if sound then parse_pat_body p n header_size pat' else some (false, pat')

unfoldable pub find_pmt_pid : ℕ → List PatEntry → ℕ
find_pmt_pid n [] = 0
find_pmt_pid n (e ∷ r) =
    if (e.program_number == n) && not (e.program_number == 0) then e.pid else find_pmt_pid n r

-- `PAT::getPMTPID`.
unfoldable pub get_pmt_pid : Pat → ℕ → ℕ
unfolding find_pmt_pid
get_pmt_pid pat n = find_pmt_pid n pat.programs

unfoldable pub program_numbers : List PatEntry → List ℕ
program_numbers [] = []
program_numbers (e ∷ r) =
    let rest = program_numbers r in
    if not (e.program_number == 0) then e.program_number ∷ rest else rest

-- `PAT::getProgramNumbers`.
unfoldable pub get_program_numbers : Pat → List ℕ
unfolding program_numbers
get_program_numbers pat = program_numbers pat.programs
