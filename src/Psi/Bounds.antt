-- ===== src/Psi/Bounds.antt =====
-- The section parsers stay inside the section: on `n` bytes of memory they read no further, their
-- loops end, and no `size_t` difference wraps.
use minimal_mpegts_std_impl.Prelude.{
  ℕ, zero, suc, ◌+◌, ◌-◌, ◌≤◌, ◌<◌, ◌≡◌, refl, Bool, true, Option, none, some, List, arith, Returns,
  Returns->>=, Returns-if, ◌>>=◌, read, byte, read-byte, byte-lt, IsBytes, length, length-drop,
  drop, read_span, read_span-take, read_span_returns, Bool-cases, inl, inr, ◌==◌, ltb, leb, not,
  if◌then◌else◌,
}
use minimal_mpegts_std_impl.Psi.Crc.{verify_crc32, calculate_crc32, read32}
use minimal_mpegts_std_impl.Psi.Section.{
  PsiSectionHeader, parse_section_header, parse_long_form, table_id_pat, table_id_pmt,
  section_length_of,
}
use minimal_mpegts_std_impl.Psi.Pat.{
  Pat, PatEntry, parse_pat, parse_pat_body, pat_entries, read_entry, entries_end_of,
}
use minimal_mpegts_std_impl.Psi.Pmt.{
  Pmt, PmtStreamInfo, parse_pmt, parse_pmt_body, pmt_streams, read_stream, parse_pmt_streams,
}

pub read32_returns : (p : List ℕ) (i : ℕ) → i + 4 ≤ length p → Returns (read32 p i) (λ _. Unit)
read32_returns p i h =
    ground (arith, read-byte p i, read-byte p (i + 1), read-byte p (i + 2), read-byte p (i + 3))

pub verify_crc32_returns :
    (p : List ℕ) (n : ℕ) → n ≤ length p → Returns (verify_crc32 p n) (λ b. b ≡ true → 4 ≤ n)
unfolding verify_crc32 calculate_crc32
verify_crc32_returns p n h = ground (arith, read32_returns p (n - 4), read_span-take p (n - 4))

-- What the callers need of a section header that was read.
abbrev pub HeaderRead : ℕ × PsiSectionHeader → Type 0
HeaderRead r = (r.0 ≤ 8) × (0 < r.0 → r.1.section_length < 4096)

pub parse_section_header_returns :
    (p : List ℕ) (n : ℕ) (h : PsiSectionHeader)
    → n ≤ length p
    → IsBytes p
    → Returns (parse_section_header p n h) HeaderRead
unfolding parse_section_header parse_long_form
parse_section_header_returns p n h l bytes = ground (
  arith,
  read-byte p 0,
  read-byte p 1,
  read-byte p 2,
  read-byte p 3,
  read-byte p 4,
  read-byte p 5,
  read-byte p 6,
  read-byte p 7,
  byte-lt p 2 bytes,
)

read_entry_returns : (p : List ℕ) (i : ℕ) → i + 4 ≤ length p → Returns (read_entry p i) (λ _. Unit)
unfolding read_entry
read_entry_returns p i h =
    ground (arith, read-byte p i, read-byte p (i + 1), read-byte p (i + 2), read-byte p (i + 3))

pat_entries_returns :
    (fuel : ℕ) (p : List ℕ) (entries_end offset : ℕ) (programs : List PatEntry)
    → entries_end ≤ length p
    → entries_end - offset < fuel
    → Returns (pat_entries fuel p entries_end offset programs) (λ _. Unit)
unfolding pat_entries
pat_entries_returns zero p entries_end offset programs l f = absurd (omega arith)
pat_entries_returns (suc fuel) p entries_end offset programs l f =
    elim (Bool-cases (leb (offset + 4) entries_end)) [
      | inl more ↦
          rw (more, pat_entries)
            (Returns->>= _ _ (read_entry p offset) _ (read_entry_returns p offset (ground arith))
              λ e _. pat_entries_returns fuel p entries_end (offset + 4) _ l (ground arith))
      | inr done ↦ rw (done, pat_entries) tt
    ]

pub entries_end_lem : (n : ℕ) → 4 ≤ 3 + n → n < 4096 → entries_end_of n + 4 ≡ 3 + n
entries_end_lem n h l = omega arith

module _ (p : List ℕ) (n : ℕ) (room : n ≤ length p) where
  parse_pat_body_returns :
      (header_size : ℕ) (pat : Pat)
      → 4 ≤ 3 + pat.header.section_length
      → 3 + pat.header.section_length ≤ n
      → pat.header.section_length < 4096
      → Returns (parse_pat_body p n header_size pat) (λ _. Unit)
  unfolding parse_pat_body
  parse_pat_body_returns header_size pat lo hi small =
      let e : entries_end_of pat.header.section_length + 4 ≡ 3 + pat.header.section_length =
        entries_end_lem _ lo small in
      Returns->>= (λ _. Unit) _
        (pat_entries (n + 1) p (entries_end_of pat.header.section_length) header_size pat.programs)
        _ (pat_entries_returns (n + 1) p _ header_size pat.programs (omega arith) (omega arith))
        λ programs _.
          Returns->>= (λ _. Unit) _ (read32 p (entries_end_of pat.header.section_length)) _
            (read32_returns p _ (omega arith)) (λ crc _. tt)

  -- The part of a table parser behind its section header: `body` runs only on a section whose
  -- length has been checked against the memory and whose CRC has been read.
  checked_returns {ℓ} :
      {A : Type ℓ} (h : PsiSectionHeader) (failed : Option (Bool × A)) (body : Option (Bool × A))
      → Returns failed (λ _. Unit)
      → h.section_length < 4096
      → (4 ≤ 3 + h.section_length → 3 + h.section_length ≤ n → Returns body (λ _. Unit))
      → Returns
          (if ltb n (3 + h.section_length)
            then failed
            else verify_crc32 p (3 + h.section_length) >>= λ sound. if sound then body else failed)
          (λ _. Unit)
  checked_returns h failed body f small ok =
      Returns-if _ (ltb n (3 + h.section_length)) _ _ (λ _. f)
        λ fits.
          Returns->>= _ _ (verify_crc32 p (3 + h.section_length)) _
            (verify_crc32_returns p (3 + h.section_length) (ground arith))
            λ sound enough. Returns-if _ sound _ _ (λ e. ok (enough e) (ground arith)) (λ _. f)

  -- On any bytes `parsePAT` returns: it reads nothing behind the first `n` of them, and its loop ends.
  pub parse_pat_returns : (pat : Pat) → IsBytes p → Returns (parse_pat p n pat) (λ _. Unit)
  unfolding parse_pat
  parse_pat_returns pat bytes =
      Returns-if _ (ltb n 8) _ _ (λ _. tt)
        λ long.
          Returns->>= HeaderRead _ (parse_section_header p n pat.header) _
            (parse_section_header_returns p n pat.header room bytes)
            λ r hr.
              Returns-if _ (r.0 == 0) _ _ (λ _. tt)
                λ taken.
                  Returns-if _ (not (r.1.table_id == table_id_pat)) _ _ (λ _. tt)
                    λ _.
                      checked_returns r.1 _ _ tt (hr.1 (ground arith))
                        λ lo hi. parse_pat_body_returns r.0 _ lo hi (hr.1 (ground arith))

read_stream_returns :
    (p : List ℕ) (streams_end i : ℕ)
    → streams_end ≤ length p
    → i + 5 ≤ streams_end
    → Returns
        (read_stream p streams_end i)
        (λ r. (q : PmtStreamInfo × ℕ) → r ≡ some q → i + 5 ≤ q.1)
unfolding read_stream
read_stream_returns p streams_end i l h = ground (
  arith,
  read-byte p i,
  read-byte p (i + 1),
  read-byte p (i + 2),
  read-byte p (i + 3),
  read-byte p (i + 4),
  length-drop (i + 5) p,
  read_span-take (drop (i + 5) p) (section_length_of (byte p (i + 3)) (byte p (i + 4))),
)

-- One round of the loop over the streams, and the rounds behind it.
pmt_streams_returns :
    (fuel : ℕ) (p : List ℕ) (streams_end i : ℕ) (streams : List PmtStreamInfo)
    → streams_end ≤ length p
    → streams_end - i < fuel
    → Returns (pmt_streams fuel p streams_end i streams) (λ _. Unit)
unfolding pmt_streams
pmt_streams_returns zero p streams_end i streams l f = absurd (omega arith)
pmt_streams_returns (suc fuel) p streams_end i streams l f =
    Returns-if _ (leb (i + 5) streams_end) _ _
      (λ more.
        Returns->>= _ _ (read_stream p streams_end i) _
          (read_stream_returns p streams_end i l (ground arith))
          (elim [
            | none ↦ λ _. tt
            | some (s, i') ↦ λ ahead.
                pmt_streams_returns fuel p streams_end i' _ l (ground (arith, ahead (s, i') refl))
          ]))
      (λ _. tt)

module _ (p : List ℕ) (n : ℕ) (room : n ≤ length p) where
  parse_pmt_streams_returns :
      (i : ℕ) (pmt : Pmt)
      → 4 ≤ 3 + pmt.header.section_length
      → 3 + pmt.header.section_length ≤ n
      → pmt.header.section_length < 4096
      → Returns (parse_pmt_streams p n i pmt) (λ _. Unit)
  unfolding parse_pmt_streams
  parse_pmt_streams_returns i pmt lo hi small =
      let e : entries_end_of pmt.header.section_length + 4 ≡ 3 + pmt.header.section_length =
        entries_end_lem _ lo small in
      Returns->>= (λ _. Unit) _
        (pmt_streams (n + 1) p (entries_end_of pmt.header.section_length) i pmt.streams) _
        (pmt_streams_returns (n + 1) p _ i pmt.streams (omega arith) (omega arith))
        λ r _.
          Returns-if _ r.0 _ _
            (λ _.
              Returns->>= (λ _. Unit) _ (read32 p (entries_end_of pmt.header.section_length)) _
                (read32_returns p _ (omega arith)) (λ crc _. tt))
            (λ _. tt)

  parse_pmt_body_returns :
      (i : ℕ) (pmt : Pmt)
      → i + 4 ≤ n
      → 4 ≤ 3 + pmt.header.section_length
      → 3 + pmt.header.section_length ≤ n
      → pmt.header.section_length < 4096
      → Returns (parse_pmt_body p n i pmt) (λ _. Unit)
  unfolding parse_pmt_body
  parse_pmt_body_returns i pmt four lo hi small =
      let e0 : read p i ≡ some (byte p i) = read-byte p i (omega arith) in
      let e1 : read p (i + 1) ≡ some (byte p (i + 1)) = read-byte p (i + 1) (omega arith) in
      let e2 : read p (i + 2) ≡ some (byte p (i + 2)) = read-byte p (i + 2) (omega arith) in
      let e3 : read p (i + 3) ≡ some (byte p (i + 3)) = read-byte p (i + 3) (omega arith) in
      rw (e0, e1, e2, e3, parse_pmt_body)
        (Returns-if _ (ltb 0 (section_length_of (byte p (i + 2)) (byte p (i + 3)))) _ _
          (λ _.
            Returns-if _ (ltb n (i + 4 + section_length_of (byte p (i + 2)) (byte p (i + 3)))) _ _
              (λ _. tt)
              λ fits.
                Returns->>= _ _
                  (read_span (drop (i + 4) p) (section_length_of (byte p (i + 2)) (byte p (i + 3))))
                  _ (read_span_returns _ _ (ground (arith, length-drop (i + 4) p)))
                  λ d _. parse_pmt_streams_returns _ _ lo hi small)
          (λ _. parse_pmt_streams_returns _ _ lo hi small))

  -- On any bytes `parsePMT` returns: it reads nothing behind the first `n` of them, and its loop ends.
  pub parse_pmt_returns : (pmt : Pmt) → IsBytes p → Returns (parse_pmt p n pmt) (λ _. Unit)
  unfolding parse_pmt
  parse_pmt_returns pmt bytes =
      Returns-if _ (ltb n 12) _ _ (λ _. tt)
        λ long.
          Returns->>= HeaderRead _ (parse_section_header p n pmt.header) _
            (parse_section_header_returns p n pmt.header room bytes)
            λ r hr.
              Returns-if _ (r.0 == 0) _ _ (λ _. tt)
                λ taken.
                  Returns-if _ (not (r.1.table_id == table_id_pmt)) _ _ (λ _. tt)
                    λ _. checked_returns p n room r.1 _ _ tt (hr.1 (ground arith)) λ lo hi.
                      parse_pmt_body_returns r.0 _ (ground arith) lo hi (hr.1 (ground arith))
