-- ===== src/Psi/Pmt.antt =====
-- The program map table. A stream type is the byte that `static_cast<StreamType>` keeps.
use Prim.Native.String.{String}
use minimal_mpegts_std_impl.Prelude.{
  ℕ, zero, suc, ◌+◌, ◌==◌, ltb, leb, if◌then◌else◌, Bool, true, false, not, Option, none, some,
  List, [], ◌∷◌, ◌++◌, ◌>>=◌, read, read_span, drop, low_bits, join,
}
use minimal_mpegts_std_impl.Psi.Crc.{verify_crc32, read32}
use minimal_mpegts_std_impl.Psi.Section.{
  PsiSectionHeader, new_section_header, parse_section_header, table_id_pmt, section_length_of,
}
use minimal_mpegts_std_impl.Psi.Pat.{entries_end_of}

pub record PmtStreamInfo : Type 0 where
  pub stream_type : ℕ
  pub elementary_pid : ℕ
  pub es_info_length : ℕ
  pub descriptors : List ℕ

pub record Pmt : Type 0 where
  pub header : PsiSectionHeader
  pub program_number : ℕ
  pub pcr_pid : ℕ
  pub program_info_length : ℕ
  pub program_descriptors : List ℕ
  pub streams : List PmtStreamInfo
  pub crc32 : ℕ

abbrev pub new_pmt : Pmt
new_pmt = record {
  header = new_section_header;
  program_number = 0;
  pcr_pid = 0;
  program_info_length = 0;
  program_descriptors = [];
  streams = [];
  crc32 = 0;
}

-- Two bytes as a 13-bit PID.
abbrev pub join_pid : ℕ → ℕ → ℕ
join_pid b0 b1 = join (low_bits b0 5) 8 b1

-- One round of the loop over the streams: the stream and the offset behind it; the inner `none` is
-- `return false`.
unfoldable pub read_stream : List ℕ → ℕ → ℕ → Option (Option (PmtStreamInfo × ℕ))
read_stream p streams_end offset = do
  b0 ← read p offset
  b1 ← read p (offset + 1)
  b2 ← read p (offset + 2)
  b3 ← read p (offset + 3)
  b4 ← read p (offset + 4)
  let n = section_length_of b3 b4
  if ltb 0 n
      then (if ltb streams_end (offset + 5 + n) then some none else do
        d ← read_span (drop (offset + 5) p) n
        some (
            some (
              record {
                stream_type = b0;
                elementary_pid = join_pid b1 b2;
                es_info_length = n;
                descriptors = d;
              },
              offset + 5 + n,
            )))
      else some (
          some (
            record {
              stream_type = b0;
              elementary_pid = join_pid b1 b2;
              es_info_length = n;
              descriptors = [];
            },
            offset + 5,
          ))

-- The loop over the streams, on fuel. The result is whether it ended without `return false`, and
-- the streams so far.
unfoldable pub pmt_streams :
    ℕ → List ℕ → ℕ → ℕ → List PmtStreamInfo → Option (Bool × List PmtStreamInfo)
pmt_streams zero p streams_end offset streams = none
pmt_streams (suc fuel) p streams_end offset streams =
    let round = read_stream p streams_end offset >>= λ r. elim r [
      | none ↦ some (false, streams)
      | some (s, offset') ↦ pmt_streams fuel p streams_end offset' (streams ++ s ∷ [])
    ] in
    if leb (offset + 5) streams_end then round else some (true, streams)

-- From the streams on.
unfoldable pub parse_pmt_streams : List ℕ → ℕ → ℕ → Pmt → Option (Bool × Pmt)
parse_pmt_streams p n offset pmt = do
  let streams_end = entries_end_of pmt.header.section_length
  (complete, streams) ← pmt_streams (n + 1) p streams_end offset pmt.streams
  if complete
      then (do
        crc ← read32 p streams_end
        some (true, record pmt { streams = streams; crc32 = crc }))
      else some (false, record pmt { streams = streams })

-- The part behind the checks: PCR PID, program descriptors, streams.
unfoldable pub parse_pmt_body : List ℕ → ℕ → ℕ → Pmt → Option (Bool × Pmt)
parse_pmt_body p n offset pmt = do
  b0 ← read p offset
  b1 ← read p (offset + 1)
  b2 ← read p (offset + 2)
  b3 ← read p (offset + 3)
  let info = section_length_of b2 b3
  let pmt' = record pmt {
    program_number = pmt.header.table_id_extension;
    pcr_pid = join_pid b0 b1;
    program_info_length = info;
  }
  if ltb 0 info
      then (if ltb n (offset + 4 + info) then some (false, pmt') else do
        d ← read_span (drop (offset + 4) p) info
        parse_pmt_streams p n (offset + 4 + info) (record pmt' { program_descriptors = d }))
      else parse_pmt_streams p n (offset + 4) pmt'

-- `PSIParser::parsePMT`.
unfoldable pub parse_pmt : List ℕ → ℕ → Pmt → Option (Bool × Pmt)
parse_pmt p n pmt = if ltb n 12 then some (false, pmt) else do
  (header_size, h) ← parse_section_header p n pmt.header
  let pmt' = record pmt { header = h }
  if header_size == 0
      then some (false, pmt')
      else if not (h.table_id == table_id_pmt)
      then some (false, pmt')
      else if ltb n (3 + h.section_length)
      then some (false, pmt')
      else do
        sound ← verify_crc32 p (3 + h.section_length)
        if sound then parse_pmt_body p n header_size pmt' else some (false, pmt')

unfoldable pub pids_by_type : ℕ → List PmtStreamInfo → List ℕ
pids_by_type t [] = []
pids_by_type t (s ∷ r) =
    let rest = pids_by_type t r in if s.stream_type == t then s.elementary_pid ∷ rest else rest

-- `PMT::getPIDsByType`.
unfoldable pub get_pids_by_type : Pmt → ℕ → List ℕ
unfolding pids_by_type
get_pids_by_type pmt t = pids_by_type t pmt.streams

unfoldable pub all_pids : List PmtStreamInfo → List ℕ
all_pids [] = []
all_pids (s ∷ r) = s.elementary_pid ∷ all_pids r

-- `PMT::getAllPIDs`.
unfoldable pub get_all_pids : Pmt → List ℕ
unfolding all_pids
get_all_pids pmt = all_pids pmt.streams

unfoldable pub find_stream_info : ℕ → List PmtStreamInfo → Option PmtStreamInfo
find_stream_info pid [] = none
find_stream_info pid (s ∷ r) = if s.elementary_pid == pid then some s else find_stream_info pid r

-- `PMT::getStreamInfo`.
unfoldable pub get_stream_info : Pmt → ℕ → Option PmtStreamInfo
unfolding find_stream_info
get_stream_info pmt pid = find_stream_info pid pmt.streams

-- `getStreamTypeName`.
unfoldable pub stream_type_name : ℕ → String
stream_type_name t =
    if t == 0x01
    then "MPEG-1 Video"
    else if t == 0x02
    then "MPEG-2 Video"
    else if t == 0x03
    then "MPEG-1 Audio"
    else if t == 0x04
    then "MPEG-2 Audio"
    else if t == 0x06
    then "Private Data"
    else if t == 0x0F
    then "AAC Audio"
    else if t == 0x10
    then "MPEG-4 Visual"
    else if t == 0x1B
    then "H.264/AVC Video"
    else if t == 0x24
    then "H.265/HEVC Video"
    else "Unknown"
