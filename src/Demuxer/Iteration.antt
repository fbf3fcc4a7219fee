-- ===== src/Demuxer/Iteration.antt =====
-- What one packet adds to the iteration that is being built for its PID.
use minimal_mpegts_std_impl.Prelude.{
  ℕ, ◌+◌, ◌%◌, ◌==◌, ltb, if◌then◌else◌, Bool, true, not, ◌&&◌, Option, none, some, List, [], ◌∷◌,
  ◌++◌, ◌>>=◌, read_span, length,
}
use minimal_mpegts_std_impl.Types.{
  PayloadType, payload_normal, payload_private, IterationData, new_iteration,
}
use minimal_mpegts_std_impl.Packet.{
  TsPacketHeader, TsPacket, get_private_data, get_private_data_length,
}

-- The bytes go to the end of the iteration's own storage, and a segment that names their place to
-- the end of its segments; the segment's pointer stays null until the iteration is stored.
unfoldable pub append_segment : IterationData → PayloadType → List ℕ → ℕ → IterationData
append_segment it type bytes n = record it {
  payload_data = it.payload_data ++ bytes;
  payloads =
      it.payloads
      ++ record {
        type = type;
        pointer = none;
        length = n;
        offset_in_stream = length it.payload_data;
      }
        ∷ [];
}

-- Private data of the adaptation field.
unfoldable pub add_private : IterationData → TsPacket → Option IterationData
add_private it k =
    if ltb 0 (get_private_data_length k)
    then (do
      p ← get_private_data k
      bytes ← read_span p (get_private_data_length k)
      some (append_segment it payload_private bytes (get_private_data_length k)))
    else some it

-- The normal payload.
unfoldable pub add_normal : IterationData → TsPacket → Option IterationData
add_normal it k =
    if k.has_payload && ltb 0 k.payload_size
    then (do
      p ← k.payload_data
      bytes ← read_span p k.payload_size
      some (append_segment it payload_normal bytes k.payload_size))
    else some it

-- Whether the adaptation field is there and announces a discontinuity.
abbrev pub announces_discontinuity : TsPacket → Bool
announces_discontinuity k = k.has_adaptation && k.adaptation_field.discontinuity_indicator

-- The counter that follows `c`.
abbrev pub next_cc : ℕ → ℕ
next_cc c = (c + 1) % 16

-- The discontinuity check against the last counter seen on the PID.
unfoldable pub check_discontinuity : IterationData → Option ℕ → TsPacket → IterationData
check_discontinuity it none k = it
check_discontinuity it (some last) k =
    if not (k.header.continuity_counter == next_cc last) && announces_discontinuity k
    then record it { discontinuity_detected = true }
    else it

-- The metadata, the discontinuity check and the two kinds of data.
unfoldable pub extend_iteration : IterationData → Option ℕ → TsPacket → Option IterationData
extend_iteration it last k = do
  let noted = record it {
    last_cc = k.header.continuity_counter;
    packet_count = it.packet_count + 1;
  }
  it' ← add_private (check_discontinuity noted last k) k
  add_normal it' k

-- The iteration that a first packet opens, before it is extended.
abbrev pub opened_by : TsPacketHeader → IterationData
opened_by h = record new_iteration {
  first_cc = h.continuity_counter;
  payload_unit_start_seen = h.payload_unit_start;
}
