-- ===== src/Psi/PmtFormat.antt =====
-- The bytes of a program map section, and `parsePMT` on them.
use minimal_mpegts_std_impl.Prelude.{
  ◌∙◌, ℕ, zero, suc, ◌+◌, ◌-◌, ◌/◌, ◌%◌, ◌^◌, ◌≤◌, ◌<◌, ◌≡◌, ◌==◌, refl, sym, ap, ap₂, true, false,
  some, List, [], ◌∷◌, ◌++◌, arith, length, length-append, All, ltb, leb, drop, read_span,
  read_span-take, take-append, IsBytes, Bool-cases, inl, inr,
}
use mathlib.Core.List.{append-nil, append_assoc}
use minimal_mpegts_std_impl.Psi.Crc.{verify_crc32}
use minimal_mpegts_std_impl.Psi.Section.{
  PsiSectionHeader, section_length_of, new_section_header, parse_section_header, table_id_pmt,
}
use minimal_mpegts_std_impl.Psi.Pmt.{
  PmtStreamInfo, Pmt, new_pmt, join_pid, read_stream, pmt_streams, parse_pmt_streams,
  parse_pmt_body, parse_pmt,
}
use minimal_mpegts_std_impl.Psi.HeaderFormat.{long_form_bytes, parse_section_header-long_form_bytes}
use minimal_mpegts_std_impl.Psi.Check.{bytes32, read32-bytes32, read-append}
use minimal_mpegts_std_impl.Psi.Polynomial.{
  polynomial_checksum, polynomial_checksum-lt, verify_crc32-polynomial_checksum,
}

-- Three reserved bits and a PID, then four reserved bits and the length of the descriptors.
abbrev pub pid_and_length : ℕ → ℕ → List ℕ
pid_and_length pid n = (0xE0 + pid / 256) ∷ (pid % 256) ∷ (0xF0 + n / 256) ∷ (n % 256) ∷ []

abbrev pub stream_bytes : List PmtStreamInfo → List ℕ
stream_bytes [] = []
stream_bytes (s ∷ ss) =
    (s.stream_type ∷ (pid_and_length s.elementary_pid (length s.descriptors) ++ s.descriptors))
    ++ stream_bytes ss

pub record IsStream (s : PmtStreamInfo) : Type 0 where
  pub pid_bits : s.elementary_pid < 8192
  pub info_length : s.es_info_length ≡ length s.descriptors
  pub length_bits : length s.descriptors < 4096

-- The section up to its checksum.
abbrev pub pmt_bytes : Pmt → List ℕ
pmt_bytes pmt =
    (table_id_pmt ∷ long_form_bytes pmt.header)
    ++ ((pid_and_length pmt.pcr_pid (length pmt.program_descriptors) ++ pmt.program_descriptors)
        ++ stream_bytes pmt.streams)

-- A program map table that a section can carry.
pub record IsPmt (pmt : Pmt) : Type 0 where
  pub table : pmt.header.table_id ≡ table_id_pmt
  pub long_form : pmt.header.section_syntax_indicator ≡ true
  pub announces : pmt.header.section_length + 3 ≡ length (pmt_bytes pmt) + 4
  pub length_bits : pmt.header.section_length < 4096
  pub extension_bits : pmt.header.table_id_extension < 65536
  pub version_bits : pmt.header.version_number < 32
  pub program : pmt.program_number ≡ pmt.header.table_id_extension
  pub pid_bits : pmt.pcr_pid < 8192
  pub info_length : pmt.program_info_length ≡ length pmt.program_descriptors
  pub info_bits : length pmt.program_descriptors < 4096
  pub all_streams : All IsStream pmt.streams
  pub bytes : IsBytes (pmt_bytes pmt)
  pub crc : pmt.crc32 ≡ polynomial_checksum (pmt_bytes pmt)

pid_and_length_lem :
    (pid n : ℕ)
    → pid < 8192
    → n < 4096
    → (join_pid (0xE0 + pid / 256) (pid % 256) ≡ pid)
      × (section_length_of (0xF0 + n / 256) (n % 256) ≡ n)
pid_and_length_lem pid n h l = (ground arith, ground arith)

drop_behind : (xs ys : List ℕ) (i : ℕ) → drop (length xs + i) (xs ++ ys) ≡ drop i ys
drop_behind [] ys i = let e : 0 + i ≡ i = omega arith in rw e refl
drop_behind (x ∷ xs) ys i =
    let e : suc (length xs) + i ≡ suc (length xs + i) = omega arith in rw e (drop_behind xs ys i)

read_span-append : (xs ys : List ℕ) → read_span (xs ++ ys) (length xs) ≡ some xs
read_span-append xs ys =
    read_span-take (xs ++ ys) (length xs) (omega (arith, length-append xs ys))
    ∙ ap some (take-append xs ys)

length_zero : (d : List ℕ) → length d ≡ 0 → d ≡ []
length_zero [] h = refl
length_zero (x ∷ d) h = absurd (omega arith)

abbrev stream_info : ℕ → ℕ → List ℕ → PmtStreamInfo
stream_info t pid d = record {
  stream_type = t;
  elementary_pid = pid;
  es_info_length = length d;
  descriptors = d;
}

-- Reading the first stream behind `pre`.
read_stream-fields :
    (pre : List ℕ) (t pid : ℕ) (d rest : List ℕ) (stop : ℕ)
    → pid < 8192
    → length d < 4096
    → length pre + 5 + length d ≤ stop
    → read_stream (pre ++ (t ∷ (pid_and_length pid (length d) ++ (d ++ rest)))) stop (length pre)
      ≡ some (some (stream_info t pid d, length pre + 5 + length d))
unfolding read_stream
read_stream-fields pre t pid d rest stop hp hd inside =
    let q = t ∷ (pid_and_length pid (length d) ++ (d ++ rest)) in
    let z : length pre + 0 ≡ length pre = omega arith in
    let e0 = rw z at (read-append pre q 0) in
    let e1 = read-append pre q 1 in
    let e2 = read-append pre q 2 in
    let e3 = read-append pre q 3 in
    let e4 = read-append pre q 4 in
    let (x, y) = pid_and_length_lem pid (length d) hp hd in
    let d0 : drop (length pre + 5) (pre ++ q) ≡ d ++ rest = drop_behind pre q 5 in
    let room : ltb stop (length pre + 5 + length d) ≡ false = ground arith in
    elim (Bool-cases (ltb 0 (length d))) [
      | inl has ↦ rw (e0, e1, e2, e3, e4, x, y, has, room, d0, read_span-append d rest) refl
      | inr empty ↦
          let n : d ≡ [] = length_zero d (ground arith) in
          let len : length pre + 5 ≡ length pre + 5 + length d = ground arith in
          rw (e0, e1, e2, e3, e4, x, y, empty)
            (ap₂
              (λ (d' : List ℕ) (k : ℕ).
                some (some (record (stream_info t pid d) { descriptors = d' }, k)))
              (sym n) len)
    ]

-- The loop over the streams behind `pre`.
pmt_streams-stream_bytes :
    (fuel : ℕ) (pre : List ℕ) (ss : List PmtStreamInfo) (rest : List ℕ) (acc : List PmtStreamInfo)
    → All IsStream ss
    → length ss < fuel
    → pmt_streams fuel
        (pre ++ (stream_bytes ss ++ rest))
        (length pre + length (stream_bytes ss))
        (length pre)
        acc
      ≡ some (true, acc ++ ss)
unfolding pmt_streams
pmt_streams-stream_bytes zero pre ss rest acc h f = absurd (omega arith)
pmt_streams-stream_bytes (suc fuel) pre [] rest acc h f =
    let b : leb (length pre + 5) (length pre + 0) ≡ false = ground arith in
    rw b (ap (λ (l : List PmtStreamInfo). some (true, l)) (sym (append-nil acc)))
pmt_streams-stream_bytes (suc fuel) pre (s ∷ ss) rest acc h f =
    let d = s.descriptors in
    let one = s.stream_type ∷ (pid_and_length s.elementary_pid (length d) ++ d) in
    let l1 : length (stream_bytes (s ∷ ss)) ≡ 5 + length d + length (stream_bytes ss) =
      omega (arith, length-append d (stream_bytes ss)) in
    let stop = length pre + length (stream_bytes (s ∷ ss)) in
    let b : leb (length pre + 5) stop ≡ true = ground (arith, l1) in
    let same : stream_info s.stream_type s.elementary_pid d ≡ s =
      ap (λ (n : ℕ). record s { es_info_length = n }) (sym h.0.info_length) in
    let r = rw same at (
      read_stream-fields pre s.stream_type s.elementary_pid d (stream_bytes ss ++ rest) stop
        h.0.pid_bits h.0.length_bits (omega (arith, l1))) in
    let ih = pmt_streams-stream_bytes fuel (pre ++ one) ss rest (acc ++ s ∷ []) h.1 (omega arith) in
    let l : length (pre ++ one) ≡ length pre + 5 + length d =
      omega (arith, length-append pre one) in
    let n : length pre + 5 + length d + length (stream_bytes ss) ≡ stop = omega (arith, l1) in
    let a = append_assoc d (stream_bytes ss) rest in
    rw (a, b, r)
      (rw a (
        rw (append_assoc pre one (stream_bytes ss ++ rest), l, n, append_assoc acc (s ∷ []) ss) at
          ih))

streams_end_lem : (n k : ℕ) → n + 3 ≡ k + 4 → n < 4096 → (3 + n + 2 ^ 64 - 4) % 2 ^ 64 ≡ k
streams_end_lem n k e l = ground arith

-- From the streams on, behind the bytes `pre`.
parse_pmt_streams-stream_bytes :
    (pre : List ℕ) (ss : List PmtStreamInfo) (crc : ℕ) (rest : List ℕ) (n : ℕ) (pmt : Pmt)
    → All IsStream ss
    → crc < 2 ^ 32
    → length ss ≤ n
    → pmt.streams ≡ []
    → pmt.header.section_length + 3 ≡ length pre + length (stream_bytes ss) + 4
    → pmt.header.section_length < 4096
    → parse_pmt_streams (pre ++ (stream_bytes ss ++ (bytes32 crc ++ rest))) n (length pre) pmt
      ≡ some (true, record pmt { streams = ss; crc32 = crc })
unfolding parse_pmt_streams
parse_pmt_streams-stream_bytes pre ss crc rest n pmt h small fuel none total room =
    let stop =
      streams_end_lem pmt.header.section_length (length pre + length (stream_bytes ss)) total
        room in
    let loop = pmt_streams-stream_bytes (n + 1) pre ss (bytes32 crc ++ rest) [] h (omega arith) in
    let last =
      rw
        (
          length-append pre (stream_bytes ss),
          append_assoc pre (stream_bytes ss) (bytes32 crc ++ rest),
        )
        at (read32-bytes32 (pre ++ stream_bytes ss) crc rest small) in
    rw (stop, none, loop, last) refl

length-stream_bytes : (ss : List PmtStreamInfo) → length ss ≤ length (stream_bytes ss)
length-stream_bytes [] = omega arith
length-stream_bytes (s ∷ ss) =
    omega (arith, length-stream_bytes ss, length-append s.descriptors (stream_bytes ss))

module _ (h : PsiSectionHeader) (pcr : ℕ) (d : List ℕ) (ss : List PmtStreamInfo) (crc : ℕ) where
  -- The table that the bytes carry.
  abbrev table_of : Pmt
  table_of = record {
    header = h;
    program_number = h.table_id_extension;
    pcr_pid = pcr;
    program_info_length = length d;
    program_descriptors = d;
    streams = ss;
    crc32 = crc;
  }

  parse_pmt_body-table_of :
      (pre rest : List ℕ) (n : ℕ)
      → pcr < 8192
      → length d < 4096
      → All IsStream ss
      → crc < 2 ^ 32
      → length pre + 4 + length d + length (stream_bytes ss) ≤ n
      → h.section_length + 3 ≡ length pre + 4 + length d + length (stream_bytes ss) + 4
      → h.section_length < 4096
      → parse_pmt_body
          (pre
            ++ (pid_and_length pcr (length d) ++ (d ++ (stream_bytes ss ++ (bytes32 crc ++ rest)))))
          n
          (length pre)
          (record new_pmt { header = h })
        ≡ some (true, table_of)
  unfolding parse_pmt_body
  parse_pmt_body-table_of pre rest n hp hd hs hc fits total room =
      let x = stream_bytes ss ++ (bytes32 crc ++ rest) in
      let q = pid_and_length pcr (length d) ++ (d ++ x) in
      let start = pid_and_length pcr (length d) ++ d in
      let z : length pre + 0 ≡ length pre = omega arith in
      let e0 = rw z at (read-append pre q 0) in
      let e1 = read-append pre q 1 in
      let e2 = read-append pre q 2 in
      let e3 = read-append pre q 3 in
      let (y, w) = pid_and_length_lem pcr (length d) hp hd in
      let d0 : drop (length pre + 4) (pre ++ q) ≡ d ++ x = drop_behind pre q 4 in
      let inside : ltb n (length pre + 4 + length d) ≡ false = ground arith in
      let l : length (pre ++ start) ≡ length pre + 4 + length d =
        omega (arith, length-append pre start) in
      let few : length ss ≤ n = omega (arith, length-stream_bytes ss) in
      let streams =
        rw (append_assoc pre start x, l) at
          (parse_pmt_streams-stream_bytes (pre ++ start) ss crc rest n
            (record table_of { streams = []; crc32 = 0 }) hs hc few refl (omega (arith, l)) room) in
      elim (Bool-cases (ltb 0 (length d))) [
        | inl has ↦ rw (e0, e1, e2, e3, y, w, has, inside, d0, read_span-append d x) streams
        | inr empty ↦
            let none : [] ≡ d = sym (length_zero d (ground arith)) in
            let len : length pre + 4 ≡ length pre + 4 + length d = ground arith in
            rw (e0, e1, e2, e3, y, w, empty)
              (ap₂
                  (λ (d' : List ℕ) (k : ℕ).
                    parse_pmt_streams (pre ++ q) n k
                      (record table_of { program_descriptors = d'; streams = []; crc32 = 0 }))
                  none len
                ∙ streams)
      ]

-- `parsePMT` on the bytes of a section that carries the table `pmt`, with its CRC-32 behind them and
-- anything behind that, gives `pmt` back: header, PCR PID, descriptors and streams in order.
pub parse_pmt-pmt_bytes :
    (pmt : Pmt) (rest : List ℕ) (n : ℕ)
    → IsPmt pmt
    → length (pmt_bytes pmt) + 4 ≤ n
    → parse_pmt (pmt_bytes pmt ++ (bytes32 pmt.crc32 ++ rest)) n new_pmt ≡ some (true, pmt)
unfolding parse_pmt
parse_pmt-pmt_bytes pmt rest n v l =
    let h = pmt.header in
    let b = pmt_bytes pmt in
    let crc = pmt.crc32 in
    let tail = bytes32 crc ++ rest in
    let p = b ++ tail in
    let d = pmt.program_descriptors in
    let ss = pmt.streams in
    let start = pid_and_length pmt.pcr_pid (length d) ++ d in
    let small : crc < 2 ^ 32 = rw v.crc (polynomial_checksum-lt b v.bytes) in
    let lb : length b ≡ 12 + length d + length (stream_bytes ss) =
      omega (arith, length-append d (stream_bytes ss)) in
    let few : ltb n 12 ≡ false = ground (arith, lb) in
    let hd : parse_section_header p n new_section_header ≡ some (8, h) =
      parse_section_header-long_form_bytes table_id_pmt h _ n v.long_form v.length_bits
        v.extension_bits v.version_bits (omega (arith, lb))
      ∙ ap (λ (i : ℕ). some (8, record h { table_id = i })) (sym v.table) in
    let is_pmt : (h.table_id == table_id_pmt) ≡ true = let t = v.table in ground arith in
    let inside : ltb n (3 + h.section_length) ≡ false = let a = v.announces in ground arith in
    let total : 3 + h.section_length ≡ length b + 4 = let a = v.announces in omega arith in
    let sound : verify_crc32 p (length b + 4) ≡ some true =
      verify_crc32-polynomial_checksum b crc rest v.bytes small
      ∙ ap some (let c = v.crc in ground arith) in
    let body =
      parse_pmt_body-table_of h pmt.pcr_pid d ss crc (table_id_pmt ∷ long_form_bytes h) rest n
        v.pid_bits v.info_bits v.all_streams small (omega (arith, lb))
        (let a = v.announces in omega (arith, lb)) v.length_bits in
    rw (few, hd, is_pmt, inside, total, sound, append_assoc d (stream_bytes ss) tail)
      (body
        ∙ ap₂ (λ (i k : ℕ). some (true, record pmt { program_number = i; program_info_length = k }))
            (sym v.program) (sym v.info_length))
