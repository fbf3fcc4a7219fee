-- ===== src/Demuxer/CollectSteps.antt =====
-- `addPacketToStorage` and the end of iterations keep the invariant.
use minimal_mpegts_std_impl.Prelude.{
  ℕ, ◌≡◌, refl, Option, none, some, arith, Returns, Returns->>=, Returns-if, Returns-mono,
}
use minimal_mpegts_std_impl.Prelude.Assoc.{
  lookup, AllValues-lookup, AllValues-insert, AllValues-erase,
}
use minimal_mpegts_std_impl.Prelude.Double.{Double}
use minimal_mpegts_std_impl.Types.{IterationData}
use minimal_mpegts_std_impl.Packet.{TsPacket}
use minimal_mpegts_std_impl.Storage.{generate_iteration_id}
use minimal_mpegts_std_impl.Demuxer.State.{Demuxer}
use minimal_mpegts_std_impl.Demuxer.Iteration.{extend_iteration, opened_by}
use minimal_mpegts_std_impl.Demuxer.Collect.{
  finalize_found, finalize_iteration, start_iteration, open_found, open_iteration, extend_current,
  is_collected, add_packet_to_storage, iteration_or_new,
}
use minimal_mpegts_std_impl.Demuxer.Tiles.{Tiled, IsUsable, extend_iteration_returns}
use minimal_mpegts_std_impl.Demuxer.Stored.{store_iteration-StorageOk}
use minimal_mpegts_std_impl.Demuxer.Invariant.{Inv, Keeps, Frame-refl, Keeps-trans}

module _ (F : Double) where
  finalize_found-Keeps :
      (d : Demuxer F) (pid : ℕ) (o : Option IterationData)
      → lookup pid d.current_iterations ≡ o
      → Inv F d
      → Keeps F d (finalize_found F d pid o)
  unfolding finalize_found
  finalize_found-Keeps d pid none e v = record { inv = v; frame = Frame-refl F d }
  finalize_found-Keeps d pid (some it) e v = record {
    inv = record {
      raw = v.raw;
      pat = v.pat;
      pmts = v.pmts;
      current = AllValues-erase Tiled pid d.current_iterations v.current;
      stored =
          store_iteration-StorageOk d.storage pid _ it v.stored
            (AllValues-lookup Tiled pid d.current_iterations v.current e);
    };
    frame = record { same_buffer = refl; same_offset = refl; same_sync = refl; same_depth = refl };
  }

  pub finalize_iteration-Keeps :
      (d : Demuxer F) (pid : ℕ) → Inv F d → Keeps F d (finalize_iteration F d pid)
  unfolding finalize_iteration
  finalize_iteration-Keeps d pid v = finalize_found-Keeps d pid _ refl v

  start_iteration-Keeps :
      (d : Demuxer F) (k : TsPacket) → Inv F d → Keeps F d (start_iteration F d k)
  unfolding start_iteration generate_iteration_id
  start_iteration-Keeps d k v = record {
    inv = record {
      raw = v.raw;
      pat = v.pat;
      pmts = v.pmts;
      current =
          AllValues-insert Tiled k.header.pid (opened_by k.header) d.current_iterations refl
            v.current;
      stored = v.stored;
    };
    frame = record { same_buffer = refl; same_offset = refl; same_sync = refl; same_depth = refl };
  }

  open_found-Keeps :
      (d : Demuxer F) (k : TsPacket) (o : Option IterationData)
      → Inv F d
      → Keeps F d (open_found F d k o)
  unfolding open_found
  open_found-Keeps d k none v = start_iteration-Keeps d k v
  open_found-Keeps d k (some it) v =
      let f = finalize_iteration-Keeps d k.header.pid v in
      let s =
        Keeps-trans F f.frame
          (start_iteration-Keeps (finalize_iteration F d k.header.pid) k f.inv) in
      ground (arith, s, Frame-refl F d)

  open_iteration-Keeps : (d : Demuxer F) (k : TsPacket) → Inv F d → Keeps F d (open_iteration F d k)
  unfolding open_iteration
  open_iteration-Keeps d k v = open_found-Keeps d k _ v

  current_Tiled :
      (d : Demuxer F) (pid : ℕ) (o : Option IterationData)
      → lookup pid d.current_iterations ≡ o
      → Inv F d
      → Tiled (iteration_or_new o)
  current_Tiled d pid none e v = refl
  current_Tiled d pid (some it) e v = AllValues-lookup Tiled pid d.current_iterations v.current e

  extend_current_returns :
      (d : Demuxer F) (k : TsPacket)
      → IsUsable k
      → Inv F d
      → Returns (extend_current F d k) (Keeps F d)
  unfolding extend_current
  extend_current_returns d k u v =
      Returns->>= _ _ (extend_iteration _ _ k) _
        (extend_iteration_returns _ (lookup k.header.pid d.last_cc) k
          (current_Tiled d k.header.pid _ refl v) u)
        λ it x. record {
          inv = record {
            raw = v.raw;
            pat = v.pat;
            pmts = v.pmts;
            current = AllValues-insert Tiled k.header.pid it d.current_iterations x.tiled v.current;
            stored = v.stored;
          };
          frame = record {
            same_buffer = refl;
            same_offset = refl;
            same_sync = refl;
            same_depth = refl;
          };
        }

  -- `addPacketToStorage` returns on every packet whose pointers reach as far as its lengths say. It
  -- keeps the invariant, that buffers hold bytes, the open iterations are covered by their segments
  -- and each stored segment points at its own bytes, and it leaves the raw buffer, its offset and
  -- the synchronization as they were.
  pub add_packet_to_storage_returns :
      (d : Demuxer F) (k : TsPacket)
      → IsUsable k
      → Inv F d
      → Returns (add_packet_to_storage F d k) (Keeps F d)
  unfolding add_packet_to_storage
  add_packet_to_storage_returns d k u v =
      Returns-if _ (is_collected F d k.header.pid) _ _
        (λ _.
          let o = open_iteration-Keeps d k v in
          Returns-mono _ _ (extend_current F (open_iteration F d k) k)
            (extend_current_returns (open_iteration F d k) k u o.inv)
            λ d' g. Keeps-trans F o.frame g)
        (λ _. record { inv = v; frame = Frame-refl F d })
