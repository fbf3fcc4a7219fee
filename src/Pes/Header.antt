-- ===== src/Pes/Header.antt =====
-- The PES packet header and its parser.
use minimal_mpegts_std_impl.Prelude.{
  ℕ, ◌+◌, ◌==◌, ltb, leb, if◌then◌else◌, Bool, true, false, not, ◌&&◌, ◌||◌, Option, none, some,
  List, ◌>>=◌, read, drop, shr, low_bits, join, bit,
}
use minimal_mpegts_std_impl.Pes.Timestamp.{Timestamp, extract_timestamp}

abbrev pub pes_start_code : ℕ
pes_start_code = 0x000001

abbrev pub stream_id_program_stream_map : ℕ
stream_id_program_stream_map = 0xBC

abbrev pub stream_id_private_stream_2 : ℕ
stream_id_private_stream_2 = 0xBF

abbrev pub stream_id_audio_stream_min : ℕ
stream_id_audio_stream_min = 0xC0

abbrev pub stream_id_audio_stream_max : ℕ
stream_id_audio_stream_max = 0xDF

abbrev pub stream_id_video_stream_min : ℕ
stream_id_video_stream_min = 0xE0

abbrev pub stream_id_video_stream_max : ℕ
stream_id_video_stream_max = 0xEF

abbrev pub stream_id_ecm_stream : ℕ
stream_id_ecm_stream = 0xF0

abbrev pub stream_id_emm_stream : ℕ
stream_id_emm_stream = 0xF1

abbrev pub stream_id_dsmcc_stream : ℕ
stream_id_dsmcc_stream = 0xF2

abbrev pub stream_id_h222_e_stream : ℕ
stream_id_h222_e_stream = 0xF8

abbrev pub stream_id_program_stream_directory : ℕ
stream_id_program_stream_directory = 0xFF

pub record PesHeader : Type 0 where
  pub start_code : ℕ
  pub stream_id : ℕ
  pub packet_length : ℕ
  pub has_optional_fields : Bool
  pub scrambling_control : ℕ
  pub priority : Bool
  pub data_alignment_indicator : Bool
  pub copyright : Bool
  pub original_or_copy : Bool
  pub pts_dts_flags : ℕ
  pub has_pts : Bool
  pub has_dts : Bool
  pub escr_flag : Bool
  pub es_rate_flag : Bool
  pub dsm_trick_mode_flag : Bool
  pub additional_copy_info_flag : Bool
  pub crc_flag : Bool
  pub extension_flag : Bool
  pub header_data_length : ℕ
  pub pts : Option Timestamp
  pub dts : Option Timestamp

abbrev pub new_pes_header : PesHeader
new_pes_header = record {
  start_code = 0;
  stream_id = 0;
  packet_length = 0;
  has_optional_fields = false;
  scrambling_control = 0;
  priority = false;
  data_alignment_indicator = false;
  copyright = false;
  original_or_copy = false;
  pts_dts_flags = 0;
  has_pts = false;
  has_dts = false;
  escr_flag = false;
  es_rate_flag = false;
  dsm_trick_mode_flag = false;
  additional_copy_info_flag = false;
  crc_flag = false;
  extension_flag = false;
  header_data_length = 0;
  pts = none;
  dts = none;
}

unfoldable pub is_video_stream : PesHeader → Bool
is_video_stream h =
    leb stream_id_video_stream_min h.stream_id && leb h.stream_id stream_id_video_stream_max

unfoldable pub is_audio_stream : PesHeader → Bool
is_audio_stream h =
    leb stream_id_audio_stream_min h.stream_id && leb h.stream_id stream_id_audio_stream_max

unfoldable pub get_header_size : PesHeader → ℕ
get_header_size h = if not h.has_optional_fields then 6 else 9 + h.header_data_length

-- `verifyStartCode` on a pointer that is not null; `&&` reads no further than it has to.
unfoldable pub verify_start_code : List ℕ → Option Bool
verify_start_code p = do
  b0 ← read p 0
  if b0 == 0x00
      then (do
        b1 ← read p 1
        if b1 == 0x00 then (do b2 ← read p 2; some (b2 == 0x01)) else some false)
      else some false

-- The stream IDs whose packets have no optional header fields.
unfoldable pub lacks_optional_fields : ℕ → Bool
lacks_optional_fields id =
    id == stream_id_program_stream_map
    || id == stream_id_private_stream_2
    || id == stream_id_ecm_stream
    || id == stream_id_emm_stream
    || id == stream_id_program_stream_directory
    || id == stream_id_dsmcc_stream
    || id == stream_id_h222_e_stream

-- Bytes 6 to 8.
abbrev pub set_optional : PesHeader → ℕ → ℕ → ℕ → PesHeader
set_optional h flags1 flags2 n = record h {
  scrambling_control = low_bits (shr flags1 4) 2;
  priority = bit flags1 3;
  data_alignment_indicator = bit flags1 2;
  copyright = bit flags1 1;
  original_or_copy = bit flags1 0;
  pts_dts_flags = low_bits (shr flags2 6) 2;
  has_pts = low_bits (shr flags2 6) 2 == 0x02 || low_bits (shr flags2 6) 2 == 0x03;
  has_dts = low_bits (shr flags2 6) 2 == 0x03;
  escr_flag = bit flags2 5;
  es_rate_flag = bit flags2 4;
  dsm_trick_mode_flag = bit flags2 3;
  additional_copy_info_flag = bit flags2 2;
  crc_flag = bit flags2 1;
  extension_flag = bit flags2 0;
  header_data_length = n;
}

-- The DTS, at `pos`.
unfoldable pub parse_dts : List ℕ → ℕ → ℕ → PesHeader → Option (Bool × PesHeader)
parse_dts p n pos h =
    if h.has_dts
    then (if ltb n (pos + 5)
        then some (false, h)
        else do t ← extract_timestamp (drop pos p); some (true, record h { dts = some t }))
    else some (true, h)

-- The PTS, at byte 9, and the DTS behind it.
unfoldable pub parse_stamps : List ℕ → ℕ → PesHeader → Option (Bool × PesHeader)
parse_stamps p n h =
    if h.has_pts
    then (if ltb n (9 + 5)
        then some (false, h)
        else do t ← extract_timestamp (drop 9 p); parse_dts p n (9 + 5) (record h { pts = some t }))
    else parse_dts p n 9 h

-- The optional fields, from byte 6 on.
unfoldable pub parse_optional : List ℕ → ℕ → PesHeader → Option (Bool × PesHeader)
parse_optional p n h = if ltb n 9 then some (false, h) else do
  flags1 ← read p 6
  flags2 ← read p 7
  hdl ← read p 8
  let h' = set_optional h flags1 flags2 hdl
  if ltb n (9 + hdl) then some (false, h') else parse_stamps p n h'

-- The part behind the start code.
unfoldable pub parse_fixed : List ℕ → ℕ → PesHeader → Option (Bool × PesHeader)
parse_fixed p n h = do
  id ← read p 3
  b4 ← read p 4
  b5 ← read p 5
  let h' = record h {
    start_code = pes_start_code;
    stream_id = id;
    packet_length = join b4 8 b5;
    has_optional_fields = not (lacks_optional_fields id);
  }
  if lacks_optional_fields id then some (true, h') else parse_optional p n h'

-- `PESParser::parseHeader`; the pointer `none` is nullptr.
unfoldable pub parse_header : Option (List ℕ) → ℕ → PesHeader → Option (Bool × PesHeader)
parse_header none n h = some (false, h)
parse_header (some p) n h =
    if ltb n 6
    then some (false, h)
    else do starts ← verify_start_code p; if starts then parse_fixed p n h else some (false, h)
