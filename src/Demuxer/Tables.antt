-- ===== src/Demuxer/Tables.antt =====
-- `processPSIPacket` and `processPCR`.
use minimal_mpegts_std_impl.Prelude.{
  ℕ, ◌==◌, ltb, if◌then◌else◌, not, ◌&&◌, Option, none, some, List, [], ◌∷◌, ◌>>=◌, length,
}
use minimal_mpegts_std_impl.Prelude.Assoc.{Assoc, lookup, insert, member}
use minimal_mpegts_std_impl.Prelude.Double.{Double}
use minimal_mpegts_std_impl.Packet.{TsPacket}
use minimal_mpegts_std_impl.Psi.Pat.{PatEntry, new_pat, parse_pat}
use minimal_mpegts_std_impl.Psi.Pmt.{new_pmt, parse_pmt}
use minimal_mpegts_std_impl.Psi.Accumulator.{PsiAccumulator, new_accumulator, add_data, get_section}
use minimal_mpegts_std_impl.Pcr.Clock.{Pcr, pcr_is_valid}
use minimal_mpegts_std_impl.Pcr.Manager
use minimal_mpegts_std_impl.Demuxer.State.{Demuxer}

-- An accumulator for the PMT of each program; program number 0 is the network table.
unfoldable pub add_accumulators : List PatEntry → Assoc PsiAccumulator → Assoc PsiAccumulator
add_accumulators [] m = m
add_accumulators (e ∷ r) m =
    add_accumulators r (if not (e.program_number == 0) then insert e.pid new_accumulator m else m)

abbrev pub accumulator_or_new : Option PsiAccumulator → PsiAccumulator
accumulator_or_new none = new_accumulator
accumulator_or_new (some a) = a

-- A packet's payload into an accumulator, and the section out of it if one is complete: the
-- section's length (0 for none), the section and the accumulator.
unfoldable pub accumulate : PsiAccumulator → TsPacket → Option (ℕ × List ℕ × PsiAccumulator)
accumulate a k = do
  p ← k.payload_data
  (ready, a') ← add_data a p k.payload_size k.header.payload_unit_start
  if ready then get_section a' [] else some (0, [], a')

module _ (F : Double) where
  -- A complete PAT section.
  unfoldable pub accept_pat : Demuxer F → List ℕ → Option (Demuxer F)
  accept_pat d section = do
    (accepted, pat) ← parse_pat section (length section) new_pat
    some (
        if accepted
        then record d {
          parsed_pat = some pat;
          pmt_accumulators = add_accumulators pat.programs d.pmt_accumulators;
        }
        else d)

  -- A complete PMT section.
  unfoldable pub accept_pmt : Demuxer F → List ℕ → Option (Demuxer F)
  accept_pmt d section = do
    (accepted, pmt) ← parse_pmt section (length section) new_pmt
    some (
        if accepted
        then record d { parsed_pmts = insert pmt.program_number pmt d.parsed_pmts }
        else d)

  unfoldable pub process_pat_packet : Demuxer F → TsPacket → Option (Demuxer F)
  process_pat_packet d k = do
    (n, section, a) ← accumulate d.pat_accumulator k
    let d' = record d { pat_accumulator = a }
    if ltb 0 n then accept_pat d' section else some d'

  unfoldable pub process_pmt_packet : Demuxer F → TsPacket → Option (Demuxer F)
  process_pmt_packet d k = do
    (n, section, a) ← accumulate (accumulator_or_new (lookup k.header.pid d.pmt_accumulators)) k
    let d' = record d { pmt_accumulators = insert k.header.pid a d.pmt_accumulators }
    if ltb 0 n then accept_pmt d' section else some d'

  -- `processPSIPacket`.
  unfoldable pub process_psi_packet : Demuxer F → TsPacket → Option (Demuxer F)
  process_psi_packet d k =
      if (k.header.pid == 0x0000) && k.has_payload
      then process_pat_packet d k
      else if member k.header.pid d.pmt_accumulators && k.has_payload
      then process_pmt_packet d k
      else some d

  -- `processPCR`.
  unfoldable pub process_pcr : Demuxer F → TsPacket → Demuxer F
  process_pcr d k =
      if k.has_adaptation && k.adaptation_field.pcr_flag
      then (let c : Pcr = record {
        base = k.adaptation_field.pcr_base;
        extension = k.adaptation_field.pcr_extension;
      } in
          if pcr_is_valid c
          then record d {
            pcr_manager =
                Manager.add_pcr F d.pcr_manager k.header.pid c d.total_packets_processed
                  k.header.continuity_counter;
          }
          else d)
      else d
