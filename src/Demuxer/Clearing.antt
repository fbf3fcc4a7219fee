-- ===== src/Demuxer/Clearing.antt =====
-- `clearAll` and `setProgramsTable` beside the iterations that are still open.
use minimal_mpegts_std_impl.Prelude.{
  true, Returns, Returns->>=, false, some, sym, ℕ, ◌≡◌, ◌≢◌, ◌↔◌, refl, none, [], ◌∷◌, arith,
}
use minimal_mpegts_std_impl.Prelude.Assoc.{
  Assoc, insert, lookup, member, lookup-insert, lookup-erase,
}
use minimal_mpegts_std_impl.Prelude.Double.{Double}
use minimal_mpegts_std_impl.Types.{IterationData, ProgramTable}
use minimal_mpegts_std_impl.Packet.{TsPacket}
use minimal_mpegts_std_impl.Storage.{clear, generate_iteration_id}
use minimal_mpegts_std_impl.Demuxer.State.{Demuxer}
use minimal_mpegts_std_impl.Demuxer.Collect.{
  finalize_found, finalize_iteration, start_iteration, iteration_or_new, open_found, open_iteration,
  extend_current, is_collected, add_packet_to_storage,
}
use minimal_mpegts_std_impl.Demuxer.Iteration.{opened_by, extend_iteration}
use minimal_mpegts_std_impl.Demuxer.Tiles.{Tiled, IsUsable, extend_iteration_returns}
use minimal_mpegts_std_impl.Demuxer.Manage.{finalize_in_place, clear_all, set_programs_table}

module _ (F : Double) where
  -- Finalizing an open iteration erases it.
  member-finalize_iteration :
      (d : Demuxer F) (pid : ℕ) (it : IterationData)
      → lookup pid d.current_iterations ≡ some it
      → member pid (finalize_iteration F d pid).current_iterations ≡ false
  unfolding finalize_iteration finalize_found member
  member-finalize_iteration d pid it e =
      rw e (ground (arith, lookup-erase pid pid d.current_iterations))

  finalize_in_place_faults :
      (d : Demuxer F) (m : Assoc IterationData)
      → m ≡ d.current_iterations
      → m ≢ []
      → finalize_in_place F d m ≡ none
  unfolding finalize_in_place lookup
  finalize_in_place_faults d [] e n = absurd (n refl)
  finalize_in_place_faults d ((pid, it) ∷ m) e n =
      rw (member-finalize_iteration d pid it (rw (sym e) (ground arith))) refl

  finalize_in_place-ne-none :
      (d : Demuxer F) (m : Assoc IterationData) → finalize_in_place F d m ≡ none → m ≢ []
  unfolding finalize_in_place
  finalize_in_place-ne-none d [] e = cc
  finalize_in_place-ne-none d (p ∷ m) e = λ f. cc

  -- `clearAll` goes wrong exactly when an iteration is open: the first step of its loop erases the
  -- element that the loop stands on.
  pub clear_all_faults : (d : Demuxer F) → (clear_all F d ≡ none) ↔ (d.current_iterations ≢ [])
  unfolding clear_all
  clear_all_faults d = (
    (λ e. finalize_in_place-ne-none d d.current_iterations (ground arith)),
    λ n. rw (finalize_in_place_faults d d.current_iterations refl n, clear_all) refl,
  )

  -- Two iterations are open under one identifier: the iteration `it` of `pid`, and one of the
  -- packet's PID.
  pub record Collided (pid : ℕ) (it : IterationData) (k : TsPacket) (d : Demuxer F) : Type 0 where
    pub first_open : lookup pid d.current_iterations ≡ some it
    pub first_id : lookup pid d.current_iteration_ids ≡ some 1
    pub second_open :
        (other : IterationData) × (lookup k.header.pid d.current_iterations ≡ some other)
    pub second_id : lookup k.header.pid d.current_iteration_ids ≡ some 1

  extend_current-Collided :
      (d : Demuxer F) (pid : ℕ) (it : IterationData) (k : TsPacket)
      → k.header.pid ≢ pid
      → IsUsable k
      → Tiled (iteration_or_new (lookup k.header.pid d.current_iterations))
      → Collided pid it k d
      → Returns (extend_current F d k) (Collided pid it k)
  unfolding extend_current
  extend_current-Collided d pid it k n u h c =
      Returns->>= _ _ (extend_iteration _ _ k) _
        (extend_iteration_returns _ (lookup k.header.pid d.last_cc) k h u)
        λ new x. record {
          first_open =
              ground (arith, lookup-insert pid k.header.pid new d.current_iterations, c.first_open);
          first_id = c.first_id;
          second_open = (
            new,
            ground (arith, lookup-insert k.header.pid k.header.pid new d.current_iterations),
          );
          second_id = c.second_id;
        }

  -- `setProgramsTable` resets the identifiers but keeps the open iterations. Where an iteration is
  -- open under the first identifier, 1, the next packet of another PID that has none open and that
  -- the new table lets through opens a second iteration under the identifier 1: behind
  -- `addPacketToStorage` both are open, the first one unchanged.
  pub identifiers_collide :
      (d : Demuxer F) (t : ProgramTable) (pid : ℕ) (it : IterationData) (k : TsPacket)
      → lookup pid d.current_iterations ≡ some it
      → lookup pid d.current_iteration_ids ≡ some 1
      → k.header.pid ≢ pid
      → lookup k.header.pid d.current_iterations ≡ none
      → is_collected F (set_programs_table F d t) k.header.pid ≡ true
      → IsUsable k
      → Returns (add_packet_to_storage F (set_programs_table F d t) k) (Collided pid it k)
  unfolding add_packet_to_storage open_iteration open_found start_iteration set_programs_table clear
      generate_iteration_id
  identifiers_collide d t pid it k o e n free passes u =
      let opened : IterationData = opened_by k.header in
      let here = lookup-insert k.header.pid k.header.pid opened d.current_iterations in
      let found : lookup k.header.pid (insert k.header.pid opened d.current_iterations)
          ≡ some opened =
        ground (arith, here) in
      let tiled : Tiled (
          iteration_or_new
            (lookup k.header.pid (insert k.header.pid opened d.current_iterations))) =
        rw found refl in
      let there = lookup-insert pid k.header.pid opened d.current_iterations in
      let e' : open_iteration F (set_programs_table F d t) k
          ≡ start_iteration F (set_programs_table F d t) k =
        rw free refl in
      rw (passes, e')
        (extend_current-Collided (start_iteration F (set_programs_table F d t) k) pid it k n u tiled
          (record {
            first_open = ground (arith, there);
            first_id = ground (arith, lookup-insert pid k.header.pid 1 d.current_iteration_ids);
            second_open = (opened, ground (arith, here));
            second_id =
                ground (arith, lookup-insert k.header.pid k.header.pid 1 d.current_iteration_ids);
          }))
