-- ===== src/Packet.antt =====
-- include/mpegts_packet.hpp and src/mpegts_packet.cpp: one transport stream packet.
-- A packet is parsed from memory that starts at it; a pointer that it keeps is the memory from
-- there on. An operation that may read out of bounds returns `none` when it does.
pub mod Safety
pub mod Format
use minimal_mpegts_std_impl.Prelude.{
  ℕ, ◌+◌, ◌-◌, ◌^◌, ◌==◌, ltb, leb, if◌then◌else◌, Bool, true, false, ◌&&◌, ◌||◌, Option, none,
  some, List, ◌>>=◌, read, drop, shr, low_bits, join, bit,
}
use minimal_mpegts_std_impl.Types.{
  packet_size, sync_byte_value, AdaptationFieldControl, reserved, payload_only, adaptation_only,
  adaptation_payload,
}

pub record TsPacketHeader : Type 0 where
  pub sync_byte : ℕ
  pub transport_error_indicator : Bool
  pub payload_unit_start : Bool
  pub transport_priority : Bool
  pub pid : ℕ
  pub scrambling_control : ℕ
  pub adaptation_control : AdaptationFieldControl
  pub continuity_counter : ℕ

pub record TsAdaptationField : Type 0 where
  pub length : ℕ
  pub discontinuity_indicator : Bool
  pub random_access_indicator : Bool
  pub es_priority_indicator : Bool
  pub pcr_flag : Bool
  pub opcr_flag : Bool
  pub splicing_point_flag : Bool
  pub transport_private_data_flag : Bool
  pub adaptation_extension_flag : Bool
  pub pcr_base : ℕ
  pub pcr_extension : ℕ
  pub private_data_length : ℕ
  pub private_data : Option (List ℕ)

pub record TsPacket : Type 0 where
  pub header : TsPacketHeader
  pub adaptation_field : TsAdaptationField
  pub payload_data : Option (List ℕ)
  pub payload_size : ℕ
  pub has_adaptation : Bool
  pub has_payload : Bool
  pub valid : Bool

abbrev pub new_header : TsPacketHeader
new_header = record {
  sync_byte = 0;
  transport_error_indicator = false;
  payload_unit_start = false;
  transport_priority = false;
  pid = 0;
  scrambling_control = 0;
  adaptation_control = reserved;
  continuity_counter = 0;
}

abbrev pub new_adaptation_field : TsAdaptationField
new_adaptation_field = record {
  length = 0;
  discontinuity_indicator = false;
  random_access_indicator = false;
  es_priority_indicator = false;
  pcr_flag = false;
  opcr_flag = false;
  splicing_point_flag = false;
  transport_private_data_flag = false;
  adaptation_extension_flag = false;
  pcr_base = 0;
  pcr_extension = 0;
  private_data_length = 0;
  private_data = none;
}

abbrev pub new_packet : TsPacket
new_packet = record {
  header = new_header;
  adaptation_field = new_adaptation_field;
  payload_data = none;
  payload_size = 0;
  has_adaptation = false;
  has_payload = false;
  valid = false;
}

-- `static_cast<AdaptationFieldControl>` of a 2-bit field.
unfoldable pub control_of_bits : ℕ → AdaptationFieldControl
control_of_bits b =
    if b == 0
    then reserved
    else if b == 1
    then payload_only
    else if b == 2
    then adaptation_only
    else adaptation_payload

abbrev pub is_reserved : AdaptationFieldControl → Bool
is_reserved reserved = true
is_reserved _ = false

-- `ADAPTATION_ONLY` or `ADAPTATION_PAYLOAD`.
abbrev pub announces_adaptation : AdaptationFieldControl → Bool
announces_adaptation adaptation_only = true
announces_adaptation adaptation_payload = true
announces_adaptation _ = false

-- `PAYLOAD_ONLY` or `ADAPTATION_PAYLOAD`.
abbrev pub announces_payload : AdaptationFieldControl → Bool
announces_payload payload_only = true
announces_payload adaptation_payload = true
announces_payload _ = false

-- Bytes 1 to 3 of the header.
abbrev pub header_of_bytes : TsPacketHeader → ℕ → ℕ → ℕ → TsPacketHeader
header_of_bytes h b1 b2 b3 = record h {
  transport_error_indicator = bit b1 7;
  payload_unit_start = bit b1 6;
  transport_priority = bit b1 5;
  pid = join (low_bits b1 5) 8 b2;
  scrambling_control = low_bits (shr b3 6) 2;
  adaptation_control = control_of_bits (low_bits (shr b3 4) 2);
  continuity_counter = low_bits b3 4;
}

abbrev pub header_ok : TsPacketHeader → Bool
header_ok h =
    if h.transport_error_indicator
    then false
    else if is_reserved h.adaptation_control
    then false
    else true

unfoldable pub parse_header : TsPacketHeader → List ℕ → Option (Bool × TsPacketHeader)
parse_header h p = do
  b0 ← read p 0
  let h0 = record h { sync_byte = b0 }
  if b0 == sync_byte_value
      then (do
        b1 ← read p 1
        b2 ← read p 2
        b3 ← read p 3
        let h' = header_of_bytes h0 b1 b2 b3
        some (header_ok h', h'))
      else some (false, h0)

abbrev pub set_flags : TsAdaptationField → ℕ → TsAdaptationField
set_flags af flags = record af {
  discontinuity_indicator = bit flags 7;
  random_access_indicator = bit flags 6;
  es_priority_indicator = bit flags 5;
  pcr_flag = bit flags 4;
  opcr_flag = bit flags 3;
  splicing_point_flag = bit flags 2;
  transport_private_data_flag = bit flags 1;
  adaptation_extension_flag = bit flags 0;
}

-- An optional field of `n` bytes: the position behind it, or `none` where it does not fit and the
-- parser returns false.
abbrev pub skip_field : Bool → ℕ → ℕ → ℕ → Option ℕ
skip_field true n field_end pos = if ltb field_end (pos + n) then none else some (pos + n)
skip_field false n field_end pos = some pos

-- PCR, OPCR and the splice countdown.
unfoldable pub skip_optional : TsAdaptationField → ℕ → ℕ → Option ℕ
skip_optional af field_end pos = do
  p1 ← skip_field af.pcr_flag 6 field_end pos
  p2 ← skip_field af.opcr_flag 6 field_end p1
  skip_field af.splicing_point_flag 1 field_end p2

-- The private data, at the position where the optional fields end.
unfoldable pub parse_private :
    TsAdaptationField → List ℕ → ℕ → ℕ → Option (Bool × TsAdaptationField)
parse_private af p field_end pos =
    if af.transport_private_data_flag
    then (if ltb field_end (pos + 1) then some (false, af) else do
      n ← read p pos
      let af' = record af { private_data_length = n }
      if ltb field_end (pos + 1 + n)
          then some (false, af')
          else some (true, record af' { private_data = some (drop (pos + 1) p) }))
    else some (true, af)

-- The part behind the length byte; `field_end` is `offset + 1 + length`.
unfoldable pub parse_flags : TsAdaptationField → List ℕ → ℕ → ℕ → Option (Bool × TsAdaptationField)
parse_flags af p field_end pos = do
  flags ← read p pos
  let af' = set_flags af flags
  elim (skip_optional af' field_end (pos + 1)) [
    | none ↦ some (false, af')
    | some pos' ↦ parse_private af' p field_end pos'
  ]

unfoldable pub parse_adaptation_field :
    TsAdaptationField → List ℕ → ℕ → Option (Bool × TsAdaptationField)
parse_adaptation_field af p offset = if leb packet_size offset then some (false, af) else do
  n ← read p offset
  let af' = record af { length = n }
  if n == 0
      then some (true, af')
      else if ltb packet_size (offset + 1 + n)
      then some (false, af')
      else parse_flags af' p (offset + 1 + n) (offset + 1)

-- The last step of `parse`: the payload from `offset` on.
abbrev pub set_payload : TsPacket → List ℕ → ℕ → TsPacket
set_payload k p offset =
    if announces_payload k.header.adaptation_control
    then record k {
      has_payload = true;
      payload_data = some (drop offset p);
      payload_size = packet_size - offset;
      valid = true;
    }
    else record k { valid = true }

-- The adaptation field and the payload of a packet whose header is accepted.
unfoldable pub parse_body : TsPacket → List ℕ → Option (Bool × TsPacket)
parse_body k p =
    if announces_adaptation k.header.adaptation_control
    then (do
      (accepted, af) ← parse_adaptation_field k.adaptation_field p 4
      let k' = record k { has_adaptation = true; adaptation_field = af }
      if accepted
          then some (true, set_payload k' p (4 + (1 + af.length)))
          else some (false, record k' { valid = false }))
    else some (true, set_payload k p 4)

-- `TSPacket::parse`; the argument `none` is nullptr.
unfoldable pub parse : TsPacket → Option (List ℕ) → Option (Bool × TsPacket)
parse k none = some (false, record k { valid = false })
parse k (some p) = do
  (accepted, h) ← parse_header k.header p
  let k' = record k { header = h }
  if accepted then parse_body k' p else some (false, record k' { valid = false })

abbrev pub get_adaptation_field : TsPacket → Option TsAdaptationField
get_adaptation_field k = if k.has_adaptation then some k.adaptation_field else none

abbrev pub get_private_data : TsPacket → Option (List ℕ)
get_private_data k =
    if k.has_adaptation && k.adaptation_field.transport_private_data_flag
    then k.adaptation_field.private_data
    else none

abbrev pub get_private_data_length : TsPacket → ℕ
get_private_data_length k =
    if k.has_adaptation && k.adaptation_field.transport_private_data_flag
    then k.adaptation_field.private_data_length
    else 0
