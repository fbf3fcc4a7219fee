-- ===== src/Demuxer/TableSteps.antt =====
-- `processPSIPacket` and `processPCR` keep the invariant.
use minimal_mpegts_std_impl.Prelude.{
  ℕ, ◌≡◌, refl, Bool, true, false, Option, none, some, List, [], ◌∷◌, arith, Returns, Returns->>=,
  Returns-if, Returns-mono, IsBytes, if_either, length, ltb, ◌&&◌, ◌==◌, if◌then◌else◌,
}
use minimal_mpegts_std_impl.Prelude.Assoc.{
  Assoc, lookup, insert, member, AllValues, AllValues-lookup, AllValues-insert,
}
use minimal_mpegts_std_impl.Prelude.Double.{Double}
use minimal_mpegts_std_impl.Packet.{TsPacket}
use minimal_mpegts_std_impl.Psi.Pat.{PatEntry, new_pat, parse_pat}
use minimal_mpegts_std_impl.Psi.Pmt.{new_pmt, parse_pmt}
use minimal_mpegts_std_impl.Psi.Bounds.{parse_pat_returns, parse_pmt_returns}
use minimal_mpegts_std_impl.Psi.Accumulator.{PsiAccumulator, new_accumulator, add_data, get_section}
use minimal_mpegts_std_impl.Psi.Assembly.{Added, add_data_returns, get_section_returns}
use minimal_mpegts_std_impl.Demuxer.State.{Demuxer}
use minimal_mpegts_std_impl.Demuxer.Tables.{
  add_accumulators, accumulator_or_new, accumulate, accept_pat, accept_pmt, process_pat_packet,
  process_pmt_packet, process_psi_packet, process_pcr,
}
use minimal_mpegts_std_impl.Pcr.Clock.{pcr_is_valid}
use minimal_mpegts_std_impl.Demuxer.Invariant.{
  HoldsBytes, IsGood, Inv, Frame, Keeps, Frame-refl, Keeps-trans,
}

add_accumulators-bytes :
    (es : List PatEntry) (m : Assoc PsiAccumulator)
    → AllValues HoldsBytes m
    → AllValues HoldsBytes (add_accumulators es m)
unfolding add_accumulators
add_accumulators-bytes [] m h = h
add_accumulators-bytes (e ∷ es) m h =
    add_accumulators-bytes es _
      (ground (arith, AllValues-insert HoldsBytes e.pid new_accumulator m tt h))

-- The section behind `addData`, if it is complete.
section_if_ready :
    (r : Bool × PsiAccumulator)
    → Added r
    → Returns
        (if r.0 then get_section r.1 [] else some (0, [], r.1))
        (λ q. IsBytes q.1 × HoldsBytes q.2)
section_if_ready (true, a) ok =
    Returns-mono _ _ (get_section a []) (get_section_returns a [] ok) λ q s. (s.2, rw (s.3) tt)
section_if_ready (false, a) ok = (tt, ok.bytes)

accumulate_returns :
    (a : PsiAccumulator) (k : TsPacket)
    → HoldsBytes a
    → IsGood k
    → k.has_payload ≡ true
    → Returns (accumulate a k) (λ r. IsBytes r.1 × HoldsBytes r.2)
unfolding accumulate
accumulate_returns a k h g pay =
    let (p, e, bp, room) = g.point pay in
    rw (e, accumulate)
      (Returns->>= _ _ (add_data a p k.payload_size k.header.payload_unit_start) _
        (add_data_returns a p k.payload_size k.header.payload_unit_start room bp h)
        section_if_ready)

accumulator_bytes :
    (pid : ℕ) (m : Assoc PsiAccumulator) (o : Option PsiAccumulator)
    → lookup pid m ≡ o
    → AllValues HoldsBytes m
    → HoldsBytes (accumulator_or_new o)
accumulator_bytes pid m none e h = tt
accumulator_bytes pid m (some a) e h = AllValues-lookup HoldsBytes pid m h e

module _ (F : Double) where
  -- A state that differs only in its tables.
  tables_Keeps :
      (d d' : Demuxer F)
      → Inv F d
      → Frame F d d'
      → HoldsBytes d'.pat_accumulator
      → AllValues HoldsBytes d'.pmt_accumulators
      → d'.current_iterations ≡ d.current_iterations
      → d'.storage ≡ d.storage
      → Keeps F d d'
  tables_Keeps d d' v f a m c s = record {
    inv = record {
      raw = rw f.same_buffer v.raw;
      pat = a;
      pmts = m;
      current = rw c v.current;
      stored = rw s v.stored;
    };
    frame = f;
  }

  accept_pat_returns :
      (d : Demuxer F) (section : List ℕ)
      → IsBytes section
      → Inv F d
      → Returns (accept_pat F d section) (Keeps F d)
  unfolding accept_pat
  accept_pat_returns d section b v =
      Returns->>= _ (Keeps F d) (parse_pat section (length section) new_pat) _
        (parse_pat_returns section (length section) (omega arith) new_pat b)
        λ r _.
          if_either (Keeps F d) r.0
            (tables_Keeps d _ v
              (record {
                same_buffer = refl;
                same_offset = refl;
                same_sync = refl;
                same_depth = refl;
              })
              v.pat (add_accumulators-bytes r.1.programs d.pmt_accumulators v.pmts) refl refl)
            (record { inv = v; frame = Frame-refl F d })

  accept_pmt_returns :
      (d : Demuxer F) (section : List ℕ)
      → IsBytes section
      → Inv F d
      → Returns (accept_pmt F d section) (Keeps F d)
  unfolding accept_pmt
  accept_pmt_returns d section b v =
      Returns->>= _ (Keeps F d) (parse_pmt section (length section) new_pmt) _
        (parse_pmt_returns section (length section) (omega arith) new_pmt b)
        λ r _.
          if_either (Keeps F d) r.0
            (tables_Keeps d _ v
              (record {
                same_buffer = refl;
                same_offset = refl;
                same_sync = refl;
                same_depth = refl;
              })
              v.pat v.pmts refl refl)
            (record { inv = v; frame = Frame-refl F d })

  process_pat_packet_returns :
      (d : Demuxer F) (k : TsPacket)
      → IsGood k
      → k.has_payload ≡ true
      → Inv F d
      → Returns (process_pat_packet F d k) (Keeps F d)
  unfolding process_pat_packet
  process_pat_packet_returns d k g pay v =
      Returns->>= _ (Keeps F d) (accumulate d.pat_accumulator k) _
        (accumulate_returns d.pat_accumulator k v.pat g pay)
        λ r s.
          let d' : Demuxer F = record d { pat_accumulator = r.2 } in
          let step : Keeps F d d' =
            tables_Keeps d d' v
              (record {
                same_buffer = refl;
                same_offset = refl;
                same_sync = refl;
                same_depth = refl;
              })
              s.1 v.pmts refl refl in
          Returns-if _ (ltb 0 r.0) _ _
            (λ _.
              Returns-mono _ _ (accept_pat F d' r.1) (accept_pat_returns d' r.1 s.0 step.inv)
                λ d2 q. Keeps-trans F step.frame q)
            (λ _. step)

  process_pmt_packet_returns :
      (d : Demuxer F) (k : TsPacket)
      → IsGood k
      → k.has_payload ≡ true
      → Inv F d
      → Returns (process_pmt_packet F d k) (Keeps F d)
  unfolding process_pmt_packet
  process_pmt_packet_returns d k g pay v =
      Returns->>= _ (Keeps F d)
        (accumulate (accumulator_or_new (lookup k.header.pid d.pmt_accumulators)) k) _
        (accumulate_returns _ k (accumulator_bytes k.header.pid d.pmt_accumulators _ refl v.pmts) g
          pay)
        λ r s.
          let d' : Demuxer F = record d {
            pmt_accumulators = insert k.header.pid r.2 d.pmt_accumulators;
          } in
          let step : Keeps F d d' =
            tables_Keeps d d' v
              (record {
                same_buffer = refl;
                same_offset = refl;
                same_sync = refl;
                same_depth = refl;
              })
              v.pat (AllValues-insert HoldsBytes k.header.pid r.2 d.pmt_accumulators s.1 v.pmts)
              refl refl in
          Returns-if _ (ltb 0 r.0) _ _
            (λ _.
              Returns-mono _ _ (accept_pmt F d' r.1) (accept_pmt_returns d' r.1 s.0 step.inv)
                λ d2 q. Keeps-trans F step.frame q)
            (λ _. step)

  -- `processPSIPacket` returns on every packet whose pointers reach as far as its lengths say and
  -- whose payload consists of bytes. It keeps the invariant, that buffers hold bytes, the open
  -- iterations are covered by their segments and each stored segment points at its own bytes, and it
  -- leaves the raw buffer, its offset and the synchronization as they were.
  pub process_psi_packet_returns :
      (d : Demuxer F) (k : TsPacket)
      → IsGood k
      → Inv F d
      → Returns (process_psi_packet F d k) (Keeps F d)
  unfolding process_psi_packet
  process_psi_packet_returns d k g v =
      Returns-if _ ((k.header.pid == 0x0000) && k.has_payload) _ _
        (λ e. process_pat_packet_returns d k g (ground arith) v)
        λ _.
          Returns-if _ (member k.header.pid d.pmt_accumulators && k.has_payload) _ _
            (λ e. process_pmt_packet_returns d k g (ground arith) v)
            (λ _. record { inv = v; frame = Frame-refl F d })

  pub process_pcr-Keeps : (d : Demuxer F) (k : TsPacket) → Inv F d → Keeps F d (process_pcr F d k)
  unfolding process_pcr
  process_pcr-Keeps d k v =
      if_either (Keeps F d) (k.has_adaptation && k.adaptation_field.pcr_flag)
        (if_either (Keeps F d) (pcr_is_valid _)
          (tables_Keeps d _ v
            (record { same_buffer = refl; same_offset = refl; same_sync = refl; same_depth = refl })
            v.pat v.pmts refl refl)
          (record { inv = v; frame = Frame-refl F d }))
        (record { inv = v; frame = Frame-refl F d })
