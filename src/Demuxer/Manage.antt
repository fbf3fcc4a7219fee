-- ===== src/Demuxer/Manage.antt =====
-- The methods that drop data and that set the program table.
use minimal_mpegts_std_impl.Prelude.{
  ℕ, true, false, Option, none, some, List, [], ◌∷◌, ◌>>=◌, if◌then◌else◌,
}
use minimal_mpegts_std_impl.Prelude.Assoc.{Assoc, member, insert_set}
use minimal_mpegts_std_impl.Prelude.Double.{Double}
use minimal_mpegts_std_impl.Types.{IterationData, ProgramTable}
use minimal_mpegts_std_impl.Storage.{
  get_or_create_stream, put_stream, remove_iteration, clear_stream, clear,
}
use minimal_mpegts_std_impl.Demuxer.State.{Demuxer}
use minimal_mpegts_std_impl.Demuxer.Collect.{finalize_iteration}

unfoldable pub insert_pids : List ℕ → List ℕ → List ℕ
insert_pids [] s = s
insert_pids (pid ∷ r) s = insert_pids r (insert_set pid s)

unfoldable pub insert_programs : Assoc (List ℕ) → List ℕ → List ℕ
insert_programs [] s = s
insert_programs ((n, pids) ∷ r) s = insert_programs r (insert_pids pids s)

module _ (F : Double) where
  -- `clearIteration`: the stream is created where it is missing.
  unfoldable pub clear_iteration : Demuxer F → ℕ → ℕ → Demuxer F
  clear_iteration d pid id =
      let (s, st) = get_or_create_stream d.storage pid in
      record d { storage = put_stream st pid (remove_iteration s id) }

  -- `MPEGTSDemuxer::clearStream`.
  unfoldable pub clear_demuxed_stream : Demuxer F → ℕ → Demuxer F
  clear_demuxed_stream d pid = record d { storage = clear_stream d.storage pid }

  -- The range-for of `clearAll` over the open iterations. Where its body erases the element that the
  -- loop stands on, the loop's next step uses an iterator that is no longer valid, also to see that
  -- it has reached the end: a fault.
  unfoldable pub finalize_in_place : Demuxer F → Assoc IterationData → Option (Demuxer F)
  finalize_in_place d [] = some d
  finalize_in_place d ((pid, it) ∷ r) =
      let d' = finalize_iteration F d pid in
      let rest = finalize_in_place d' r in if member pid d'.current_iterations then rest else none

  -- `clearAll`.
  unfoldable pub clear_all : Demuxer F → Option (Demuxer F)
  clear_all d = do
    d' ← finalize_in_place d d.current_iterations
    some (record d' {
      storage = clear d'.storage;
      raw_buffer = [];
      is_synchronized = false;
      current_iterations = [];
      current_iteration_ids = [];
      last_cc = [];
    })

  -- `setProgramsTable`.
  unfoldable pub set_programs_table : Demuxer F → ProgramTable → Demuxer F
  set_programs_table d t = record d {
    programs_table_available = true;
    known_program_pids = insert_programs t.programs [];
    storage = clear d.storage;
  }
