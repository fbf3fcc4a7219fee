-- ===== src/Tests/Clocks.antt =====
-- The theorems on stamps and clock references, at concrete ones.
use minimal_mpegts_std_impl.Prelude.{
  ◌≢◌, ℕ, ◌≡◌, refl, true, none, some, List, [], ◌∷◌, ◌++◌, arith, IsBytes, Returns,
}
use minimal_mpegts_std_impl.Prelude.Int.{pos, sub_ℕ}
use minimal_mpegts_std_impl.Pes.Timestamp.{extract_timestamp, timestamp_difference}
use minimal_mpegts_std_impl.Pes.Stamps.{
  stamp_bytes, extract_timestamp-stamp_bytes, timestamp_difference_turn,
}
use minimal_mpegts_std_impl.Pcr.Clock.{Pcr, extract_pcr, pcr_difference, pcr_is_valid}
use minimal_mpegts_std_impl.Pcr.Fields.{
  pcr_bytes, extract_pcr-pcr_bytes, extract_pcr_overread, extract_pcr_returns, pcr_difference_turn,
}
use minimal_mpegts_std_impl.Pcr.Tracker
use minimal_mpegts_std_impl.Pcr.Tracker.{PcrTracker, PcrSample, new_tracker}
use minimal_mpegts_std_impl.Pcr.Manager
use minimal_mpegts_std_impl.Pcr.Manager.{PcrManager, get_tracker}
use minimal_mpegts_std_impl.Pcr.History.{IsBounded, add_pcr-IsBounded}
use minimal_mpegts_std_impl.Types.{adaptation_payload}
use minimal_mpegts_std_impl.Packet.{
  TsPacket, new_header, new_adaptation_field, control_of_bits, parse_header, skip_optional,
  parse_private, parse_flags, parse_adaptation_field, parse_body, parse,
}
use minimal_mpegts_std_impl.Demuxer.State.{new_demuxer}
use minimal_mpegts_std_impl.Demuxer.Sync.{valid_packet}
use minimal_mpegts_std_impl.Demuxer.Tables.{process_pcr}
use minimal_mpegts_std_impl.Demuxer.Clocks.{zero_clock, process_pcr_zero}
use minimal_mpegts_std_impl.Tests.{int_double, filler}

extract_timestamp-stamp_bytes_example :
    extract_timestamp (stamp_bytes 2 0x1FEDCBA98 ++ (7 ∷ []))
    ≡ some (record { value = 0x1FEDCBA98 })
extract_timestamp-stamp_bytes_example =
    extract_timestamp-stamp_bytes 2 0x1FEDCBA98 (7 ∷ []) (omega arith) (omega arith)

timestamp_difference_turn_example :
    (timestamp_difference (record { value = 0x1FFFFFFFF }) (record { value = 89999 }) ≡ pos 90000)
    × (timestamp_difference (record { value = 89999 }) (record { value = 0x1FFFFFFFF })
        ≡ sub_ℕ 0 90000)
timestamp_difference_turn_example =
    timestamp_difference_turn 0x1FFFFFFFF 90000 (omega arith) (omega arith)

extract_pcr-pcr_bytes_example :
    extract_pcr (some (0x10 ∷ (pcr_bytes (record { base = 0x123456789; extension = 299 }) ++ []))) 7
    ≡ some (some (record { base = 0x123456789; extension = 299 }))
extract_pcr-pcr_bytes_example =
    extract_pcr-pcr_bytes 0x10 7 0x123456789 299 [] refl (omega arith) (omega arith) (omega arith)

extract_pcr_overread_example : extract_pcr (some (0x10 ∷ 1 ∷ 2 ∷ 3 ∷ 4 ∷ 5 ∷ [])) 6 ≡ none
extract_pcr_overread_example = extract_pcr_overread (0x10 ∷ 1 ∷ 2 ∷ 3 ∷ 4 ∷ 5 ∷ []) refl refl

extract_pcr_returns_example :
    Returns
      (extract_pcr (some (0x10 ∷ 1 ∷ 2 ∷ 3 ∷ 4 ∷ 5 ∷ 6 ∷ [])) 6)
      (λ o. (c : Pcr) → o ≡ some c → pcr_is_valid c ≡ true)
extract_pcr_returns_example =
    extract_pcr_returns (0x10 ∷ 1 ∷ 2 ∷ 3 ∷ 4 ∷ 5 ∷ 6 ∷ []) 6 (omega arith)

abbrev last_tick : Pcr
last_tick = record { base = 0x1FFFFFFFF; extension = 299 }

abbrev tick_5 : Pcr
tick_5 = record { base = 0; extension = 5 }

pcr_difference_turn_example :
    (pcr_difference last_tick tick_5 ≡ pos 6) × (pcr_difference tick_5 last_tick ≡ sub_ℕ 0 6)
unfolding pcr_is_valid
pcr_difference_turn_example = pcr_difference_turn last_tick tick_5 6 refl refl (omega arith) refl

-- A packet with a clock reference other than 0 in its adaptation field.
abbrev clock_packet : List ℕ
clock_packet =
    0x47 ∷ 0x01 ∷ 0x00 ∷ 0x35 ∷ 7 ∷ 0x10 ∷ 0x01 ∷ 0x02 ∷ 0x03 ∷ 0x04 ∷ 0xFE ∷ 0x05 ∷ filler 176

clock_packet-IsBytes : IsBytes clock_packet
clock_packet-IsBytes = omega arith

abbrev clock_parsed : TsPacket
clock_parsed = record {
  header = record new_header {
    sync_byte = 0x47;
    pid = 256;
    adaptation_control = adaptation_payload;
    continuity_counter = 5;
  };
  adaptation_field = record new_adaptation_field { length = 7; pcr_flag = true };
  payload_data = some (filler 176);
  payload_size = 176;
  has_adaptation = true;
  has_payload = true;
  valid = true;
}

valid_packet_clock : valid_packet clock_packet ≡ some (some clock_parsed)
unfolding valid_packet parse parse_body parse_header parse_adaptation_field parse_flags
    skip_optional parse_private control_of_bits
valid_packet_clock = refl

process_pcr_zero_example :
    process_pcr int_double (new_demuxer int_double) clock_parsed ≡ record (new_demuxer int_double) {
      pcr_manager =
          Manager.add_pcr int_double (new_demuxer int_double).pcr_manager 256 zero_clock 0 5;
    }
process_pcr_zero_example =
    process_pcr_zero int_double (new_demuxer int_double) clock_packet clock_parsed (omega arith)
      clock_packet-IsBytes valid_packet_clock

-- PID 256 has one sample when the next arrives.
abbrev one_sample : PcrTracker int_double
one_sample = record (new_tracker int_double 256) {
  samples = record { pcr = tick_5; packet_number = 3; continuity_counter = 1 } ∷ [];
}

abbrev tracking : PcrManager int_double
tracking = record { trackers = (256, one_sample) ∷ [] }

add_pcr-IsBounded_example :
    let m' = Manager.add_pcr int_double tracking 256 last_tick 9 2 in
    IsBounded int_double m'
    × ((t : PcrTracker int_double) × (get_tracker int_double m' 256 ≡ some t)
        × (Tracker.get_last_pcr int_double t ≡ some last_tick))
    × ((q : ℕ) → q ≢ 256 → get_tracker int_double m' q ≡ get_tracker int_double tracking q)
add_pcr-IsBounded_example =
    add_pcr-IsBounded int_double tracking 256 last_tick 9 2 (omega arith, tt)
