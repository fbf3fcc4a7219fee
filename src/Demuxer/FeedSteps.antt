-- ===== src/Demuxer/FeedSteps.antt =====
-- The packet loop of `processBuffer`.
use minimal_mpegts_std_impl.Prelude.{
  ℕ, zero, suc, ◌+◌, ◌-◌, ◌≤◌, ◌<◌, ◌≡◌, refl, ◌∙◌, Bool, true, false, Option, none, some, List,
  arith, Returns, Returns->>=, Returns-if, Returns-mono, IsBytes, read, read-byte, byte, length,
  length-drop, drop, ltb, leb, not, ◌&&◌, ◌==◌, if◌then◌else◌, All-drop, if_either, ap, Bool-cases,
  inl, inr, ◌⊎◌,
}
use minimal_mpegts_std_impl.Prelude.Double.{Double}
use minimal_mpegts_std_impl.Types.{packet_size, sync_byte_value}
use minimal_mpegts_std_impl.Packet.{TsPacket, new_packet, parse}
use minimal_mpegts_std_impl.Packet.Safety.{Parsed, ParseOk, Within, parse_ok}
use minimal_mpegts_std_impl.Demuxer.State.{Demuxer}
use minimal_mpegts_std_impl.Demuxer.Collect.{add_packet_to_storage}
use minimal_mpegts_std_impl.Demuxer.Tables.{process_psi_packet, process_pcr}
use minimal_mpegts_std_impl.Demuxer.Sync.{valid_packet}
use minimal_mpegts_std_impl.Demuxer.Feed.{
  lose_sync, clean_up, process_packet, next_packet, process_packets,
}
use minimal_mpegts_std_impl.Demuxer.Tiles.{Readable}
use minimal_mpegts_std_impl.Demuxer.Invariant.{IsGood, Inv, Frame, Keeps, Frame-trans}
use minimal_mpegts_std_impl.Demuxer.CollectSteps.{add_packet_to_storage_returns}
use minimal_mpegts_std_impl.Demuxer.TableSteps.{process_psi_packet_returns, process_pcr-Keeps}

Within-Readable :
    (p : List ℕ) (limit : ℕ) (q : Option (List ℕ)) (n : ℕ)
    → Within p limit q n
    → limit ≤ length p
    → Readable q n
Within-Readable p limit q n w h = rw (w.points) (omega (arith, length-drop w.from p, w.fits))

private_Readable :
    (p : List ℕ) (k : TsPacket) (b : Bool)
    → 188 ≤ length p
    → (b ≡ true
        → Within p
            (188 - k.payload_size)
            k.adaptation_field.private_data
            k.adaptation_field.private_data_length)
    → Readable
        (if b then k.adaptation_field.private_data else none)
        (if b then k.adaptation_field.private_data_length else 0)
private_Readable p k true n w = Within-Readable p (188 - k.payload_size) _ _ (w refl) (omega arith)
private_Readable p k false n w = refl

pub Parsed-IsGood : (p : List ℕ) (k : TsPacket) → 188 ≤ length p → IsBytes p → Parsed p k → IsGood k
Parsed-IsGood p k n b g = record {
  usable = record {
    private =
        private_Readable p k (k.has_adaptation && k.adaptation_field.transport_private_data_flag) n
          (λ e. g.private (ground arith) (ground arith));
    payload = λ e.
        rw (g.payload e) (omega (arith, length-drop (188 - k.payload_size) p, g.payload_size_le));
  };
  point = λ e. (
    drop (188 - k.payload_size) p,
    g.payload e,
    All-drop _ (188 - k.payload_size) p b,
    omega (arith, length-drop (188 - k.payload_size) p, g.payload_size_le),
  );
}

-- The packet that `valid_packet` finds is one that `parse` accepts.
abbrev pub Found : List ℕ → Option TsPacket → Type 0
Found p none = Unit
Found p (some k) = Parsed p k

Found-if :
    (p : List ℕ) (r : Bool × TsPacket)
    → ParseOk p r
    → Found p (if r.0 && r.1.valid then some r.1 else none)
Found-if p (true, k) ok = if_either (Found p) k.valid (ok.3 refl) tt
Found-if p (false, k) ok = tt

pub valid_packet_returns :
    (p : List ℕ) → 188 ≤ length p → IsBytes p → Returns (valid_packet p) (Found p)
unfolding valid_packet
valid_packet_returns p n b =
    Returns->>= (ParseOk p) (Found p) (parse new_packet (some p)) _ (parse_ok p n b)
      λ r ok. Found-if p r ok

next_packet_returns : (p : List ℕ) → 188 ≤ length p → IsBytes p → Returns (next_packet p) (Found p)
unfolding next_packet
next_packet_returns p n b =
    let e : read p 0 ≡ some (byte p 0) = read-byte p 0 (omega arith) in
    rw (e, next_packet)
      (Returns-if (Found p) (not (byte p 0 == sync_byte_value)) _ _ (λ _. tt)
        (λ _. valid_packet_returns p n b))

module _ (F : Double) where
  -- A packet moves the loop 188 bytes on, and touches neither the buffer nor the synchronization.
  pub record Advanced (d d' : Demuxer F) : Type 0 where
    pub inv : Inv F d'
    pub same_buffer : d'.raw_buffer ≡ d.raw_buffer
    pub moved : d'.sync_offset ≡ d.sync_offset + 188
    pub same_sync : d'.is_synchronized ≡ d.is_synchronized

  process_packet_returns :
      (d : Demuxer F) (k : TsPacket)
      → IsGood k
      → Inv F d
      → Returns (process_packet F d k) (Advanced d)
  unfolding process_packet
  process_packet_returns d k g v =
      Returns->>= (Keeps F d) _ (process_psi_packet F d k) _ (process_psi_packet_returns F d k g v)
        λ d1 k1.
          let k2 : Keeps F d1 (process_pcr F d1 k) = process_pcr-Keeps F d1 k k1.inv in
          Returns->>= (Keeps F (process_pcr F d1 k)) _
            (add_packet_to_storage F (process_pcr F d1 k) k) _
            (add_packet_to_storage_returns F (process_pcr F d1 k) k g.usable k2.inv)
            λ d3 k3.
              let f : Frame F d d3 = Frame-trans F k1.frame (Frame-trans F k2.frame k3.frame) in
              record {
                inv = record {
                  raw = k3.inv.raw;
                  pat = k3.inv.pat;
                  pmts = k3.inv.pmts;
                  current = k3.inv.current;
                  stored = k3.inv.stored;
                };
                same_buffer = f.same_buffer;
                moved = ap (λ (n : ℕ). n + 188) f.same_offset;
                same_sync = f.same_sync;
              }

  -- How the loop ends: synchronized, with less than a packet left over; or without synchronization
  -- and with the whole buffer kept.
  pub record Settled (d d' : Demuxer F) : Type 0 where
    pub inv : Inv F d'
    pub offset : d'.sync_offset ≡ 0
    pub outcome :
        ((d'.is_synchronized ≡ true)
          × (length d'.raw_buffer < 188)
          × (n : ℕ) × (d'.raw_buffer ≡ drop n d.raw_buffer))
        ⊎ ((d'.is_synchronized ≡ false) × (d'.raw_buffer ≡ d.raw_buffer))

  clean_up-Settled :
      (d : Demuxer F)
      → Inv F d
      → d.is_synchronized ≡ true
      → length d.raw_buffer < d.sync_offset + 188
      → Settled d (clean_up F d)
  unfolding clean_up
  clean_up-Settled d v s h = elim (Bool-cases (ltb 0 d.sync_offset)) [
    | inl pos ↦
        rw (pos, clean_up)
          (record {
            inv = record {
              raw = All-drop _ d.sync_offset d.raw_buffer v.raw;
              pat = v.pat;
              pmts = v.pmts;
              current = v.current;
              stored = v.stored;
            };
            offset = refl;
            outcome =
                inl (s, omega (arith, length-drop d.sync_offset d.raw_buffer), d.sync_offset, refl);
          })
    | inr neg ↦
        let z : d.sync_offset ≡ 0 = ground arith in
        rw (neg, clean_up) (record { inv = v; offset = z; outcome = inl (s, omega arith, 0, refl) })
  ]

  lose_sync-Settled : (d : Demuxer F) → Inv F d → Settled d (lose_sync F d)
  lose_sync-Settled d v = record {
    inv = record {
      raw = v.raw;
      pat = v.pat;
      pmts = v.pmts;
      current = v.current;
      stored = v.stored;
    };
    offset = refl;
    outcome = inr (refl, refl);
  }

  Settled-after : {d d' e : Demuxer F} → d'.raw_buffer ≡ d.raw_buffer → Settled d' e → Settled d e
  Settled-after same s = record {
    inv = s.inv;
    offset = s.offset;
    outcome = elim s.outcome [
      | inl (a, b, n, c) ↦ inl (a, b, n, c ∙ ap (drop n) same)
      | inr (a, b) ↦ inr (a, b ∙ same)
    ];
  }

  -- With fuel for every byte left the loop ends by its own tests, and settles.
  pub process_packets_returns :
      (fuel : ℕ) (d : Demuxer F)
      → length d.raw_buffer - d.sync_offset < fuel
      → Inv F d
      → d.is_synchronized ≡ true
      → Returns (process_packets F fuel d) (Settled d)
  unfolding process_packets
  process_packets_returns zero d f v s = absurd (omega arith)
  process_packets_returns (suc fuel) d f v s =
      Returns-if (Settled d) (leb (d.sync_offset + packet_size) (length d.raw_buffer)) _ _
        (λ more.
          Returns->>= (Found (drop d.sync_offset d.raw_buffer)) (Settled d)
            (next_packet (drop d.sync_offset d.raw_buffer)) _
            (next_packet_returns (drop d.sync_offset d.raw_buffer)
              (ground (arith, length-drop d.sync_offset d.raw_buffer))
              (All-drop _ d.sync_offset d.raw_buffer v.raw))
            (elim [
              | none ↦ λ _. lose_sync-Settled d v
              | some k ↦ λ parsed.
                  Returns->>= (Advanced d) (Settled d) (process_packet F d k) _
                    (process_packet_returns d k
                      (Parsed-IsGood (drop d.sync_offset d.raw_buffer) k
                        (ground (arith, length-drop d.sync_offset d.raw_buffer))
                        (All-drop _ d.sync_offset d.raw_buffer v.raw) parsed)
                      v)
                    λ d' a.
                      Returns-mono (Settled d') (Settled d) (process_packets F fuel d')
                        (process_packets_returns fuel d'
                          (ground (arith, a.moved, ap length a.same_buffer)) a.inv
                          (a.same_sync ∙ s))
                        (λ e t. Settled-after a.same_buffer t)
            ]))
        (λ done. clean_up-Settled d v s (ground arith))
