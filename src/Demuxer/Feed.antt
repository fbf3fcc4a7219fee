-- ===== src/Demuxer/Feed.antt =====
-- `feedData` and `processBuffer`.
use minimal_mpegts_std_impl.Prelude.{
  ℕ, zero, suc, ◌+◌, ◌-◌, ◌==◌, ltb, leb, if◌then◌else◌, true, false, not, Option, none, some, List,
  ◌++◌, ◌>>=◌, read, read_span, drop, length,
}
use minimal_mpegts_std_impl.Prelude.Double.{Double}
use minimal_mpegts_std_impl.Types.{packet_size, sync_byte_value, max_buffer_size}
use minimal_mpegts_std_impl.Packet.{TsPacket}
use minimal_mpegts_std_impl.Demuxer.State.{Demuxer}
use minimal_mpegts_std_impl.Demuxer.Collect.{add_packet_to_storage}
use minimal_mpegts_std_impl.Demuxer.Tables.{process_psi_packet, process_pcr}
use minimal_mpegts_std_impl.Demuxer.Sync.{valid_packet, try_find_valid_iteration}

-- The packet at a pointer, behind the test of its sync byte.
unfoldable pub next_packet : List ℕ → Option (Option TsPacket)
next_packet p = do b ← read p 0; if not (b == sync_byte_value) then some none else valid_packet p

-- The buffer with new data, cut to its last `max_buffer_size` bytes.
unfoldable pub buffer_data : List ℕ → List ℕ → List ℕ
buffer_data buf bytes =
    if ltb max_buffer_size (length (buf ++ bytes))
    then drop (length (buf ++ bytes) - max_buffer_size) (buf ++ bytes)
    else buf ++ bytes

module _ (F : Double) where
  -- The loop's way out where a packet is not valid.
  abbrev pub lose_sync : Demuxer F → Demuxer F
  lose_sync d = record d { is_synchronized = false; sync_offset = 0 }

  -- The step behind the loop.
  unfoldable pub clean_up : Demuxer F → Demuxer F
  clean_up d =
      if ltb 0 d.sync_offset
      then record d { raw_buffer = drop d.sync_offset d.raw_buffer; sync_offset = 0 }
      else d

  -- What the loop does with a valid packet.
  unfoldable pub process_packet : Demuxer F → TsPacket → Option (Demuxer F)
  process_packet d k = do
    d1 ← process_psi_packet F d k
    d2 ← add_packet_to_storage F (process_pcr F d1 k) k
    some (record d2 {
      sync_offset = d2.sync_offset + packet_size;
      total_packets_processed = d2.total_packets_processed + 1;
    })

  -- The `while` of `processBuffer` and the clean-up behind it, on fuel; `none` where the fuel runs
  -- out too.
  unfoldable pub process_packets : ℕ → Demuxer F → Option (Demuxer F)
  process_packets zero d = none
  process_packets (suc fuel) d =
      let round = next_packet (drop d.sync_offset d.raw_buffer) >>= λ found. elim found [
        | none ↦ some (lose_sync d)
        | some k ↦ process_packet d k >>= λ d'. process_packets fuel d'
      ] in
      if leb (d.sync_offset + packet_size) (length d.raw_buffer) then round else some (clean_up d)

  -- `processBuffer`.
  unfoldable pub process_buffer : Demuxer F → Option (Demuxer F)
  process_buffer d =
      if not d.is_synchronized
      then (do
        found ← try_find_valid_iteration d.raw_buffer d.sync_validation_depth
        elim found [
          | none ↦ some d
          | some start ↦
              process_packets (length d.raw_buffer + 1)
                (record d { is_synchronized = true; sync_offset = start })
        ])
      else process_packets (length d.raw_buffer + 1) d

  -- `feedData`; the pointer `none` is nullptr.
  unfoldable pub feed_data : Demuxer F → Option (List ℕ) → ℕ → Option (Demuxer F)
  feed_data d none n = some d
  feed_data d (some p) n = if n == 0 then some d else do
    bytes ← read_span p n
    process_buffer (record d { raw_buffer = buffer_data d.raw_buffer bytes })
