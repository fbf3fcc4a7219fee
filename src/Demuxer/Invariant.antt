-- ===== src/Demuxer/Invariant.antt =====
-- The invariant of the demultiplexer, and what the steps on one packet leave alone.
use minimal_mpegts_std_impl.Prelude.{ℕ, ◌≤◌, ◌≡◌, refl, ◌∙◌, true, some, List, IsBytes, length}
use minimal_mpegts_std_impl.Prelude.Assoc.{AllValues}
use minimal_mpegts_std_impl.Prelude.Double.{Double}
use minimal_mpegts_std_impl.Packet.{TsPacket}
use minimal_mpegts_std_impl.Psi.Accumulator.{PsiAccumulator}
use minimal_mpegts_std_impl.Demuxer.State.{Demuxer}
use minimal_mpegts_std_impl.Demuxer.Tiles.{Tiled, IsUsable}
use minimal_mpegts_std_impl.Demuxer.Stored.{StorageOk}

abbrev pub HoldsBytes : PsiAccumulator → Type 0
HoldsBytes a = IsBytes a.buffer

-- A packet whose payload pointer reaches far enough, over bytes.
pub record IsGood (k : TsPacket) : Type 0 where
  pub usable : IsUsable k
  pub point :
      k.has_payload ≡ true
      → (p : List ℕ) × (k.payload_data ≡ some p) × IsBytes p × (k.payload_size ≤ length p)

module _ (F : Double) where
  -- Bytes in every buffer; the open iterations are tiled, and the stored ones point at their data.
  pub record Inv (d : Demuxer F) : Type 0 where
    pub raw : IsBytes d.raw_buffer
    pub pat : HoldsBytes d.pat_accumulator
    pub pmts : AllValues HoldsBytes d.pmt_accumulators
    pub current : AllValues Tiled d.current_iterations
    pub stored : StorageOk d.storage

  -- What the steps on one packet leave alone.
  pub record Frame (d d' : Demuxer F) : Type 0 where
    pub same_buffer : d'.raw_buffer ≡ d.raw_buffer
    pub same_offset : d'.sync_offset ≡ d.sync_offset
    pub same_sync : d'.is_synchronized ≡ d.is_synchronized
    pub same_depth : d'.sync_validation_depth ≡ d.sync_validation_depth

  pub record Keeps (d d' : Demuxer F) : Type 0 where
    pub inv : Inv d'
    pub frame : Frame d d'

  pub Frame-refl : (d : Demuxer F) → Frame d d
  Frame-refl d = record {
    same_buffer = refl;
    same_offset = refl;
    same_sync = refl;
    same_depth = refl;
  }

  pub Frame-trans : {a b c : Demuxer F} → Frame a b → Frame b c → Frame a c
  Frame-trans f g = record {
    same_buffer = g.same_buffer ∙ f.same_buffer;
    same_offset = g.same_offset ∙ f.same_offset;
    same_sync = g.same_sync ∙ f.same_sync;
    same_depth = g.same_depth ∙ f.same_depth;
  }

  pub Keeps-trans : {a b c : Demuxer F} → Frame a b → Keeps b c → Keeps a c
  Keeps-trans f g = record { inv = g.inv; frame = Frame-trans f g.frame }
