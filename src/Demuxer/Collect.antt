-- ===== src/Demuxer/Collect.antt =====
-- `addPacketToStorage` and the end of iterations.
use minimal_mpegts_std_impl.Prelude.{
  ℕ, if◌then◌else◌, Bool, true, false, Option, none, some, List, [], ◌∷◌, ◌>>=◌,
}
use minimal_mpegts_std_impl.Prelude.Assoc.{lookup, insert, erase, keys, in_set}
use minimal_mpegts_std_impl.Prelude.Double.{Double}
use minimal_mpegts_std_impl.Types.{IterationData, new_iteration, is_system_pid}
use minimal_mpegts_std_impl.Packet.{TsPacket}
use minimal_mpegts_std_impl.Storage.{
  Storage, add_iteration, get_or_create_stream, put_stream, generate_iteration_id,
}
use minimal_mpegts_std_impl.Demuxer.State.{Demuxer}
use minimal_mpegts_std_impl.Demuxer.Iteration.{extend_iteration, opened_by}

-- `m[pid]` on a map of numbers and on a map of iterations.
abbrev pub id_or_zero : Option ℕ → ℕ
id_or_zero none = 0
id_or_zero (some i) = i

abbrev pub iteration_or_new : Option IterationData → IterationData
iteration_or_new none = new_iteration
iteration_or_new (some it) = it

-- The storage with one more finished iteration.
unfoldable pub store_iteration : Storage → ℕ → ℕ → IterationData → Storage
store_iteration st pid id it =
    let (s, st') = get_or_create_stream st pid in put_stream st' pid (add_iteration s id it)

module _ (F : Double) where
  unfoldable pub finalize_found : Demuxer F → ℕ → Option IterationData → Demuxer F
  finalize_found d pid none = d
  finalize_found d pid (some it) = record d {
    storage = store_iteration d.storage pid (id_or_zero (lookup pid d.current_iteration_ids)) it;
    current_iterations = erase pid d.current_iterations;
    current_iteration_ids = erase pid d.current_iteration_ids;
  }

  -- `finalizeIteration`.
  unfoldable pub finalize_iteration : Demuxer F → ℕ → Demuxer F
  unfolding finalize_found
  finalize_iteration d pid = finalize_found d pid (lookup pid d.current_iterations)

  unfoldable pub finalize_each : Demuxer F → List ℕ → Demuxer F
  finalize_each d [] = d
  finalize_each d (pid ∷ pids) = finalize_each (finalize_iteration d pid) pids

  -- `finalizeAllIterations`.
  unfoldable pub finalize_all_iterations : Demuxer F → Demuxer F
  finalize_all_iterations d = finalize_each d (keys d.current_iterations)

  -- The start of an iteration, with a fresh identifier.
  unfoldable pub start_iteration : Demuxer F → TsPacket → Demuxer F
  start_iteration d k =
      let (id, st) = generate_iteration_id d.storage in
      record d {
        storage = st;
        current_iteration_ids = insert k.header.pid id d.current_iteration_ids;
        current_iterations = insert k.header.pid (opened_by k.header) d.current_iterations;
      }

  -- The iteration of the packet's PID is open behind this step: the old one, or a new one for a
  -- first packet and for a payload unit start.
  unfoldable pub open_found : Demuxer F → TsPacket → Option IterationData → Demuxer F
  open_found d k none = start_iteration d k
  open_found d k (some it) =
      if k.header.payload_unit_start
      then start_iteration (finalize_iteration d k.header.pid) k
      else d

  unfoldable pub open_iteration : Demuxer F → TsPacket → Demuxer F
  unfolding open_found
  open_iteration d k = open_found d k (lookup k.header.pid d.current_iterations)

  -- The packet's data into the open iteration, and the counter into `last_cc_`.
  unfoldable pub extend_current : Demuxer F → TsPacket → Option (Demuxer F)
  extend_current d k = do
    it ←
        extend_iteration (iteration_or_new (lookup k.header.pid d.current_iterations))
          (lookup k.header.pid d.last_cc) k
    some (record d {
      current_iterations = insert k.header.pid it d.current_iterations;
      last_cc = insert k.header.pid k.header.continuity_counter d.last_cc;
    })

  -- The filter on PIDs.
  unfoldable pub is_collected : Demuxer F → ℕ → Bool
  is_collected d pid =
      if is_system_pid pid
      then false
      else if d.programs_table_available
      then in_set pid d.known_program_pids
      else true

  -- `addPacketToStorage`.
  unfoldable pub add_packet_to_storage : Demuxer F → TsPacket → Option (Demuxer F)
  add_packet_to_storage d k =
      if is_collected d k.header.pid then extend_current (open_iteration d k) k else some d
