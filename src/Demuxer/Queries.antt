-- ===== src/Demuxer/Queries.antt =====
-- The `get…` methods. Those that finalize the open iterations first change the state in spite of
-- their `const`, so they return it.
use minimal_mpegts_std_impl.Prelude.{
  ℕ, ◌+◌, ◌/◌, if◌then◌else◌, ◌||◌, Option, none, some, List, [], ◌∷◌, ◌++◌, map, drop, length,
}
use minimal_mpegts_std_impl.Prelude.Assoc.{Assoc}
use minimal_mpegts_std_impl.Prelude.Double.{Double}
use minimal_mpegts_std_impl.Types.{
  packet_size, PayloadType, payload_normal, payload_private, same_type, PayloadSegment,
  IterationData, PayloadBuffer, empty_buffer, IterationInfo, ProgramInfo, new_program,
  is_program_stream,
}
use minimal_mpegts_std_impl.Storage.{
  Stream, get_iteration, get_iteration_count, has_discontinuity, get_stream, get_discovered_pids,
}
use minimal_mpegts_std_impl.Psi.Pmt.{PmtStreamInfo, Pmt}
use minimal_mpegts_std_impl.Pcr.Clock.{Pcr}
use minimal_mpegts_std_impl.Pcr.Tracker.{PcrStats, get_stats}
use minimal_mpegts_std_impl.Pcr.Tracker
use minimal_mpegts_std_impl.Pcr.Manager.{get_tracker, get_all_stats, get_pids_with_pcr}
use minimal_mpegts_std_impl.Demuxer.State.{Demuxer}
use minimal_mpegts_std_impl.Demuxer.Collect.{finalize_all_iterations}

-- The sum of the segment lengths.
unfoldable pub segments_size : List PayloadSegment → ℕ
segments_size [] = 0
segments_size (s ∷ r) = s.length + segments_size r

unfoldable pub stream_size : List (ℕ × IterationData) → ℕ
stream_size [] = 0
stream_size ((id, it) ∷ r) = segments_size it.payloads + stream_size r

-- The sum over the segments of one type.
unfoldable pub typed_size : PayloadType → List PayloadSegment → ℕ
typed_size t [] = 0
typed_size t (s ∷ r) = (if same_type s.type t then s.length else 0) + typed_size t r

-- One entry of `getIterationsSummary`; what is not normal counts as private.
abbrev pub summary_of : ℕ → IterationData → IterationInfo
summary_of id it = record {
  iteration_id = id;
  payload_normal_size = typed_size payload_normal it.payloads;
  payload_private_size = typed_size payload_private it.payloads;
  has_discontinuity = it.discontinuity_detected;
  cc_start = it.first_cc;
  cc_end = it.last_cc;
  packet_count = it.packet_count;
}

unfoldable pub summaries : List (ℕ × IterationData) → List IterationInfo
summaries [] = []
summaries ((id, it) ∷ r) = summary_of id it ∷ summaries r

-- The bytes at a segment's pointer into its iteration's data.
abbrev pub bytes_at : List ℕ → Option ℕ → Option (List ℕ)
bytes_at bytes none = none
bytes_at bytes (some i) = some (drop i bytes)

abbrev pub buffer_of : IterationData → PayloadSegment → PayloadBuffer
buffer_of it s = record {
  bytes = bytes_at it.payload_data s.pointer;
  length = s.length;
  type = s.type;
}

-- The first segment of a type.
unfoldable pub find_payload : IterationData → PayloadType → List PayloadSegment → PayloadBuffer
find_payload it t [] = empty_buffer
find_payload it t (s ∷ r) = if same_type s.type t then buffer_of it s else find_payload it t r

abbrev pub iteration_in : Option Stream → ℕ → Option IterationData
iteration_in none id = none
iteration_in (some s) id = get_iteration s id

abbrev pub payload_in : Option IterationData → PayloadType → PayloadBuffer
payload_in none t = empty_buffer
payload_in (some it) t = find_payload it t it.payloads

abbrev pub payloads_in : Option IterationData → List PayloadBuffer
payloads_in none = []
payloads_in (some it) = map (buffer_of it) it.payloads

abbrev pub add_stream_info : ProgramInfo → Option Stream → ProgramInfo
add_stream_info info none = info
add_stream_info info (some s) = record info {
  iteration_count = info.iteration_count + get_iteration_count s;
  has_discontinuity = has_discontinuity s || info.has_discontinuity;
  total_payload_size = info.total_payload_size + stream_size s.iterations;
}

abbrev pub summaries_in : Option Stream → List IterationInfo
summaries_in none = []
summaries_in (some s) = summaries s.iterations

module _ (F : Double) where
  -- The inner loop over the streams of a PMT.
  unfoldable pub program_of_streams : Demuxer F → ProgramInfo → List PmtStreamInfo → ProgramInfo
  program_of_streams d info [] = info
  program_of_streams d info (s ∷ r) =
      program_of_streams d
        (add_stream_info (record info { stream_pids = info.stream_pids ++ s.elementary_pid ∷ [] })
          (get_stream d.storage s.elementary_pid))
        r

  -- The loop over the PMTs; the hash map's order of iteration is not specified, and the model
  -- takes the programs by ascending number.
  unfoldable pub programs_of_pmts : Demuxer F → Assoc Pmt → List ProgramInfo
  programs_of_pmts d [] = []
  programs_of_pmts d ((n, pmt) ∷ r) =
      program_of_streams d (record new_program { program_number = n }) pmt.streams
      ∷ programs_of_pmts d r

  -- Without a PMT every stream is a program of its own.
  unfoldable pub programs_of_streams : Assoc Stream → List ProgramInfo
  programs_of_streams [] = []
  programs_of_streams ((pid, s) ∷ r) =
      let rest = programs_of_streams r in
      if is_program_stream pid
      then record new_program {
        stream_pids = pid ∷ [];
        iteration_count = get_iteration_count s;
        has_discontinuity = has_discontinuity s;
        total_payload_size = stream_size s.iterations;
      }
        ∷ rest
      else rest

  abbrev pub programs_of : Demuxer F → Assoc Pmt → List ProgramInfo
  programs_of d [] = programs_of_streams d.storage.streams
  programs_of d (p ∷ r) = programs_of_pmts d (p ∷ r)

  -- `getPrograms`.
  unfoldable pub get_programs : Demuxer F → List ProgramInfo × Demuxer F
  get_programs d = let d' = finalize_all_iterations F d in (programs_of d' d'.parsed_pmts, d')

  -- `MPEGTSDemuxer::getDiscoveredPIDs`.
  unfoldable pub get_demuxed_pids : Demuxer F → List ℕ × Demuxer F
  get_demuxed_pids d = let d' = finalize_all_iterations F d in (get_discovered_pids d'.storage, d')

  -- `getIterationsSummary`.
  unfoldable pub get_iterations_summary : Demuxer F → ℕ → List IterationInfo × Demuxer F
  get_iterations_summary d pid =
      let d' = finalize_all_iterations F d in (summaries_in (get_stream d'.storage pid), d')

  -- `getPayload`.
  unfoldable pub get_payload : Demuxer F → ℕ → ℕ → PayloadType → PayloadBuffer
  get_payload d pid id t = payload_in (iteration_in (get_stream d.storage pid) id) t

  -- `getAllPayloads`.
  unfoldable pub get_all_payloads : Demuxer F → ℕ → ℕ → List PayloadBuffer
  get_all_payloads d pid id = payloads_in (iteration_in (get_stream d.storage pid) id)

  unfoldable pub get_buffer_occupancy : Demuxer F → ℕ
  get_buffer_occupancy d = length d.raw_buffer

  unfoldable pub get_packet_count : Demuxer F → ℕ
  get_packet_count d = length d.raw_buffer / packet_size

  abbrev pub map_stats : Option (Tracker.PcrTracker F) → Option (PcrStats F)
  map_stats none = none
  map_stats (some t) = some (get_stats F t)

  abbrev pub last_pcr_of : Option (Tracker.PcrTracker F) → Option Pcr
  last_pcr_of none = none
  last_pcr_of (some t) = Tracker.get_last_pcr F t

  -- `getPCRStats`.
  unfoldable pub get_pcr_stats : Demuxer F → ℕ → Option (PcrStats F)
  get_pcr_stats d pid = map_stats (get_tracker F d.pcr_manager pid)

  -- `getAllPCRStats`.
  unfoldable pub get_all_pcr_stats : Demuxer F → List (PcrStats F)
  get_all_pcr_stats d = get_all_stats F d.pcr_manager

  -- `getPIDsWithPCR`.
  unfoldable pub pids_with_pcr : Demuxer F → List ℕ
  pids_with_pcr d = get_pids_with_pcr F d.pcr_manager

  -- `getLastPCR`.
  unfoldable pub get_last_pcr : Demuxer F → ℕ → Option Pcr
  get_last_pcr d pid = last_pcr_of (get_tracker F d.pcr_manager pid)
