-- ===== src/Types.antt =====
-- include/mpegts_types.hpp: constants, enumerations and the data that the API hands out.
-- `size_t` and the counters are numbers; their bounds are stated where they matter.
use minimal_mpegts_std_impl.Prelude.{
  ℕ, ◌*◌, ◌==◌, ◌||◌, Bool, true, false, not, Option, none, List, [],
}
use minimal_mpegts_std_impl.Prelude.Assoc.{Assoc}

abbrev pub packet_size : ℕ
packet_size = 188

abbrev pub sync_byte_value : ℕ
sync_byte_value = 0x47

abbrev pub max_buffer_packets : ℕ
max_buffer_packets = 100

abbrev pub max_buffer_size : ℕ
max_buffer_size = packet_size * max_buffer_packets

abbrev pub pid_pat : ℕ
pid_pat = 0x0000

abbrev pub pid_cat : ℕ
pid_cat = 0x0001

abbrev pub pid_tsdt : ℕ
pid_tsdt = 0x0002

abbrev pub pid_null : ℕ
pid_null = 0x1FFF

pub data PayloadType : Type 0 where
  payload_normal payload_private : PayloadType

-- `==` on the enumeration.
abbrev pub same_type : PayloadType → PayloadType → Bool
same_type payload_normal payload_normal = true
same_type payload_private payload_private = true
same_type _ _ = false

pub data AdaptationFieldControl : Type 0 where
  reserved payload_only adaptation_only adaptation_payload : AdaptationFieldControl

-- A segment's `data` points into the `payload_data` of the iteration that owns it: `none` is
-- nullptr, `some i` is `&payload_data[i]`.
pub record PayloadSegment : Type 0 where
  pub type : PayloadType
  pub pointer : Option ℕ
  pub length : ℕ
  pub offset_in_stream : ℕ

pub record IterationData : Type 0 where
  pub payloads : List PayloadSegment
  pub payload_data : List ℕ
  pub discontinuity_detected : Bool
  pub payload_unit_start_seen : Bool
  pub is_complete : Bool
  pub first_cc : ℕ
  pub last_cc : ℕ
  pub packet_count : ℕ
  pub buffer_position : ℕ

-- The default constructor.
abbrev pub new_iteration : IterationData
new_iteration = record {
  payloads = [];
  payload_data = [];
  discontinuity_detected = false;
  payload_unit_start_seen = false;
  is_complete = false;
  first_cc = 0;
  last_cc = 0;
  packet_count = 0;
  buffer_position = 0;
}

-- The bytes that the pointer sees: `none` is nullptr, `some bytes` the memory from it on.
pub record PayloadBuffer : Type 0 where
  pub bytes : Option (List ℕ)
  pub length : ℕ
  pub type : PayloadType

abbrev pub empty_buffer : PayloadBuffer
empty_buffer = record { bytes = none; length = 0; type = payload_normal }

pub record IterationInfo : Type 0 where
  pub iteration_id : ℕ
  pub payload_normal_size : ℕ
  pub payload_private_size : ℕ
  pub has_discontinuity : Bool
  pub cc_start : ℕ
  pub cc_end : ℕ
  pub packet_count : ℕ

pub record ProgramInfo : Type 0 where
  pub program_number : ℕ
  pub stream_pids : List ℕ
  pub total_payload_size : ℕ
  pub iteration_count : ℕ
  pub has_discontinuity : Bool

abbrev pub new_program : ProgramInfo
new_program = record {
  program_number = 0;
  stream_pids = [];
  total_payload_size = 0;
  iteration_count = 0;
  has_discontinuity = false;
}

pub record ProgramTable : Type 0 where
  pub programs : Assoc (List ℕ)

unfoldable pub is_system_pid : ℕ → Bool
is_system_pid pid = pid == pid_pat || pid == pid_cat || pid == pid_tsdt || pid == pid_null

unfoldable pub is_program_stream : ℕ → Bool
is_program_stream pid = not (is_system_pid pid)
