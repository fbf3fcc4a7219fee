-- ===== src/Demuxer/State.antt =====
-- The members of `MPEGTSDemuxer`. The clock statistics use `double`, hence the parameter.
use minimal_mpegts_std_impl.Prelude.{ℕ, Bool, false, Option, none, List, []}
use minimal_mpegts_std_impl.Prelude.Assoc.{Assoc}
use minimal_mpegts_std_impl.Prelude.Double.{Double}
use minimal_mpegts_std_impl.Types.{IterationData}
use minimal_mpegts_std_impl.Storage.{Storage, new_storage}
use minimal_mpegts_std_impl.Psi.Pat.{Pat}
use minimal_mpegts_std_impl.Psi.Pmt.{Pmt}
use minimal_mpegts_std_impl.Psi.Accumulator.{PsiAccumulator, new_accumulator}
use minimal_mpegts_std_impl.Pcr.Manager.{PcrManager, new_manager}

module _ (F : Double) where
  pub record Demuxer : Type 0 where
    pub storage : Storage
    pub raw_buffer : List ℕ
    pub is_synchronized : Bool
    pub sync_offset : ℕ
    pub sync_validation_depth : ℕ
    pub programs_table_available : Bool
    pub known_program_pids : List ℕ
    pub current_iteration_ids : Assoc ℕ
    pub current_iterations : Assoc IterationData
    pub last_cc : Assoc ℕ
    pub pat_accumulator : PsiAccumulator
    pub pmt_accumulators : Assoc PsiAccumulator
    pub parsed_pat : Option Pat
    pub parsed_pmts : Assoc Pmt
    pub pcr_manager : PcrManager F
    pub total_packets_processed : ℕ

  -- The constructor.
  abbrev pub new_demuxer : Demuxer
  new_demuxer = record {
    storage = new_storage;
    raw_buffer = [];
    is_synchronized = false;
    sync_offset = 0;
    sync_validation_depth = 3;
    programs_table_available = false;
    known_program_pids = [];
    current_iteration_ids = [];
    current_iterations = [];
    last_cc = [];
    pat_accumulator = new_accumulator;
    pmt_accumulators = [];
    parsed_pat = none;
    parsed_pmts = [];
    pcr_manager = new_manager F;
    total_packets_processed = 0;
  }
