-- ===== src/Psi/PatFormat.antt =====
-- The bytes of a program association section, and `parsePAT` on them.
use minimal_mpegts_std_impl.Prelude.{
  ◌∙◌, ℕ, zero, suc, ◌+◌, ◌-◌, ◌*◌, ◌/◌, ◌%◌, ◌^◌, ◌≤◌, ◌<◌, ◌≡◌, ◌==◌, refl, sym, ap, true, false,
  some, List, [], ◌∷◌, ◌++◌, arith, length, length-append, All, ltb, leb,
}
use mathlib.Core.List.{append-nil, append_assoc}
use minimal_mpegts_std_impl.Psi.Crc.{read32, verify_crc32}
use minimal_mpegts_std_impl.Psi.Section.{
  PsiSectionHeader, new_section_header, parse_section_header, table_id_pat,
}
use minimal_mpegts_std_impl.Psi.HeaderFormat.{current_bit, parse_section_header-long_form_bytes}
use minimal_mpegts_std_impl.Psi.Pat.{
  PatEntry, new_pat, parse_pat, parse_pat_body, pat_entries, read_entry,
}
use minimal_mpegts_std_impl.Psi.Check.{
  bytes32, checksum, crc_loop-lt, read32-bytes32, verify_crc32-bytes32, read-append,
}

-- Four bytes for each program: its number, three reserved bits and the PID of its map.
abbrev pub entry_bytes : List PatEntry → List ℕ
entry_bytes [] = []
entry_bytes (e ∷ es) =
    (e.program_number / 256)
    ∷ (e.program_number % 256)
    ∷ (0xE0 + e.pid / 256)
    ∷ (e.pid % 256)
    ∷ entry_bytes es

abbrev pub IsEntry : PatEntry → Type 0
IsEntry e = (e.program_number < 65536) × (e.pid < 8192)

length-entry_bytes : (es : List PatEntry) → length (entry_bytes es) ≡ 4 * length es
length-entry_bytes [] = omega arith
length-entry_bytes (e ∷ es) = omega (arith, length-entry_bytes es)

-- Reading the first entry behind `pre`.
read_entry-entry_bytes :
    (pre : List ℕ) (e : PatEntry) (rest : List ℕ)
    → IsEntry e
    → read_entry (pre ++ (entry_bytes (e ∷ []) ++ rest)) (length pre) ≡ some e
unfolding read_entry
read_entry-entry_bytes pre e rest h =
    let z : length pre + 0 ≡ length pre = omega arith in
    let e0 = rw z at (read-append pre (entry_bytes (e ∷ []) ++ rest) 0) in
    let e1 = read-append pre (entry_bytes (e ∷ []) ++ rest) 1 in
    let e2 = read-append pre (entry_bytes (e ∷ []) ++ rest) 2 in
    let e3 = read-append pre (entry_bytes (e ∷ []) ++ rest) 3 in rw (e0, e1, e2, e3) (ground arith)

pat_entries-entry_bytes :
    (fuel : ℕ) (pre : List ℕ) (es : List PatEntry) (rest : List ℕ) (acc : List PatEntry)
    → All IsEntry es
    → length es < fuel
    → pat_entries fuel
        (pre ++ (entry_bytes es ++ rest))
        (length pre + 4 * length es)
        (length pre)
        acc
      ≡ some (acc ++ es)
unfolding pat_entries
pat_entries-entry_bytes zero pre es rest acc h f = absurd (omega arith)
pat_entries-entry_bytes (suc fuel) pre [] rest acc h f =
    let b : leb (length pre + 4) (length pre + 4 * 0) ≡ false = ground arith in
    rw b (ap some (sym (append-nil acc)))
pat_entries-entry_bytes (suc fuel) pre (e ∷ es) rest acc h f =
    let b : leb (length pre + 4) (length pre + 4 * length (e ∷ es)) ≡ true = ground arith in
    let r = read_entry-entry_bytes pre e (entry_bytes es ++ rest) h.0 in
    let ih =
      pat_entries-entry_bytes fuel (pre ++ entry_bytes (e ∷ [])) es rest (acc ++ e ∷ []) h.1
        (omega arith) in
    let l : length (pre ++ entry_bytes (e ∷ [])) ≡ length pre + 4 =
      length-append pre (entry_bytes (e ∷ [])) in
    let n : length pre + 4 + 4 * length es ≡ length pre + 4 * suc (length es) = omega arith in
    rw (b, r)
      (rw
        (
          append_assoc pre (entry_bytes (e ∷ [])) (entry_bytes es ++ rest),
          l,
          n,
          append_assoc acc (e ∷ []) es,
        )
        at ih)

-- A long-form header that announces the programs `es` and a checksum.
pub record IsPatHeader (h : PsiSectionHeader) (es : List PatEntry) : Type 0 where
  pub table : h.table_id ≡ table_id_pat
  pub long_form : h.section_syntax_indicator ≡ true
  pub announces : h.section_length ≡ 9 + 4 * length es
  pub length_bits : h.section_length < 4096
  pub extension_bits : h.table_id_extension < 65536
  pub version_bits : h.version_number < 32
  pub number_bits : h.section_number < 256
  pub last_bits : h.last_section_number < 256

abbrev pub pat_header_bytes : PsiSectionHeader → List ℕ
pat_header_bytes h =
    0x00
    ∷ (0xB0 + h.section_length / 256)
    ∷ (h.section_length % 256)
    ∷ (h.table_id_extension / 256)
    ∷ (h.table_id_extension % 256)
    ∷ (0xC0 + h.version_number * 2 + current_bit h.current_next_indicator)
    ∷ h.section_number
    ∷ h.last_section_number
    ∷ []

-- The section up to its checksum.
abbrev pub pat_bytes : PsiSectionHeader → List PatEntry → List ℕ
pat_bytes h es = pat_header_bytes h ++ entry_bytes es

parse_section_header-pat_header_bytes :
    (h : PsiSectionHeader) (es : List PatEntry) (rest : List ℕ) (n : ℕ)
    → IsPatHeader h es
    → 8 ≤ n
    → parse_section_header (pat_header_bytes h ++ rest) n new_section_header ≡ some (8, h)
parse_section_header-pat_header_bytes h es rest n v l =
    parse_section_header-long_form_bytes table_id_pat h rest n v.long_form v.length_bits
      v.extension_bits v.version_bits l
    ∙ ap (λ (i : ℕ). some (8, record h { table_id = i })) (sym v.table)

entries_end_lem : (n k : ℕ) → n ≡ 8 + 4 * k → n < 4096 → (n + 4 + 2 ^ 64 - 4) % 2 ^ 64 ≡ 8 + 4 * k
entries_end_lem n k e l = ground arith

-- `parsePAT` on the bytes of a section, with its checksum behind them and anything behind that, gives
-- the header, the stream identifier, the programs in order and the checksum back.
pub parse_pat-pat_bytes :
    (h : PsiSectionHeader) (es : List PatEntry) (rest : List ℕ) (n : ℕ)
    → IsPatHeader h es
    → All IsEntry es
    → length (pat_bytes h es) + 4 ≤ n
    → parse_pat (pat_bytes h es ++ (bytes32 (checksum (pat_bytes h es)) ++ rest)) n new_pat
      ≡ some (
        true,
        record {
          header = h;
          transport_stream_id = h.table_id_extension;
          programs = es;
          crc32 = checksum (pat_bytes h es);
        },
      )
unfolding parse_pat parse_pat_body
parse_pat-pat_bytes h es rest n v all l =
    let b = pat_bytes h es in
    let crc = checksum b in
    let p = b ++ (bytes32 crc ++ rest) in
    let lb : length b ≡ 8 + 4 * length es = omega (arith, length-entry_bytes es) in
    let eight : ltb n 8 ≡ false = ground arith in
    let hd =
      parse_section_header-pat_header_bytes h es (entry_bytes es ++ (bytes32 crc ++ rest)) n v
        (omega arith) in
    let is_pat : (h.table_id == table_id_pat) ≡ true = let t = v.table in ground arith in
    let inside : ltb n (3 + h.section_length) ≡ false = let a = v.announces in ground arith in
    let total : 3 + h.section_length ≡ length b + 4 = let a = v.announces in omega (arith, lb) in
    let small : crc < 2 ^ 32 = crc_loop-lt b 0xFFFFFFFF (omega arith) in
    let same : (crc == crc) ≡ true = ground arith in
    let sound : verify_crc32 p (length b + 4) ≡ some (crc == crc) =
      verify_crc32-bytes32 b crc rest small in
    let room : length b < 4096 =
      let i = v.announces in let j = v.length_bits in omega (arith, lb) in
    let stop = entries_end_lem (length b) (length es) lb room in
    let programs : pat_entries (n + 1) p (8 + 4 * length es) 8 [] ≡ some es =
      pat_entries-entry_bytes (n + 1) (pat_header_bytes h) es (bytes32 crc ++ rest) [] all
        (omega arith) in
    let last : read32 p (8 + 4 * length es) ≡ some crc =
      rw lb at (read32-bytes32 b crc rest small) in
    rw (eight, hd, is_pat, inside, total, sound, same, stop, programs, last) refl
