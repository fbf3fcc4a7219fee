-- ===== src/Demuxer/Clocks.antt =====
-- The clock references that the demultiplexer records.
use minimal_mpegts_std_impl.Prelude.{
  ℕ, ◌≤◌, ◌≡◌, refl, Bool, Option, none, some, List, arith, Returns-value, IsBytes, length, ◌&&◌,
  if◌then◌else◌,
}
use minimal_mpegts_std_impl.Prelude.Double.{Double}
use minimal_mpegts_std_impl.Packet.{TsPacket, new_packet, parse}
use minimal_mpegts_std_impl.Packet.Safety.{ParseOk, parse_ok}
use minimal_mpegts_std_impl.Pcr.Clock.{Pcr, pcr_is_valid}
use minimal_mpegts_std_impl.Pcr.Manager
use minimal_mpegts_std_impl.Demuxer.State.{Demuxer}
use minimal_mpegts_std_impl.Demuxer.Sync.{valid_packet}
use minimal_mpegts_std_impl.Demuxer.Tables.{process_pcr}

abbrev pub zero_clock : Pcr
zero_clock = record { base = 0; extension = 0 }

found_clock :
    (p : List ℕ) (r : Bool × TsPacket) (k : TsPacket)
    → ParseOk p r
    → ◌≡◌ {A = Option (Option TsPacket)}
        (some (if r.0 && r.1.valid then some r.1 else none))
        (some (some k))
    → (k.adaptation_field.pcr_base ≡ 0) × (k.adaptation_field.pcr_extension ≡ 0)
found_clock p r k ok e = ground arith

module _ (F : Double) where
  -- Whatever its 188 bytes are, a valid packet with the PCR flag is recorded with the clock reference 0,
  -- since the parser skips the six bytes; a packet without the flag leaves the demultiplexer as it was.
  pub process_pcr_zero :
      (d : Demuxer F) (p : List ℕ) (k : TsPacket)
      → 188 ≤ length p
      → IsBytes p
      → valid_packet p ≡ some (some k)
      → process_pcr F d k ≡ (
          if k.has_adaptation && k.adaptation_field.pcr_flag
          then record d {
            pcr_manager =
                Manager.add_pcr F d.pcr_manager k.header.pid zero_clock d.total_packets_processed
                  k.header.continuity_counter;
          }
          else d)
  unfolding process_pcr valid_packet pcr_is_valid
  process_pcr_zero d p k n b e =
      let (r, q, ok) = Returns-value (ParseOk p) (parse new_packet (some p)) (parse_ok p n b) in
      let z : (k.adaptation_field.pcr_base ≡ 0) × (k.adaptation_field.pcr_extension ≡ 0) =
        found_clock p r k ok (rw q at e) in
      rw (z.0, z.1) refl
