-- ===== src/Demuxer/FeedSafety.antt =====
-- `feedData` on any data: no read out of bounds, no endless loop, a bounded buffer.
use minimal_mpegts_std_impl.Prelude.{
  ℕ, ◌∙◌, false, take, ap, ◌+◌, ◌-◌, ◌≤◌, ◌<◌, ◌≡◌, refl, true, Option, none, some, List, [], ◌∷◌,
  ◌++◌, arith, Returns, Returns->>=, Returns-if, Returns-mono, ◌>>=◌, IsBytes, length, length-drop,
  ltb, not, ◌==◌, All, All-append, All-take, All-drop, if_either, inl, inr, read_span,
  read_span_returns,
}
use minimal_mpegts_std_impl.Prelude.Double.{Double}
use minimal_mpegts_std_impl.Types.{max_buffer_size}
use minimal_mpegts_std_impl.Demuxer.State.{Demuxer, new_demuxer}
use minimal_mpegts_std_impl.Demuxer.Sync.{try_find_valid_iteration}
use minimal_mpegts_std_impl.Demuxer.SyncSteps.{Searched, try_find_valid_iteration_returns}
use minimal_mpegts_std_impl.Demuxer.Feed.{process_packets, process_buffer, buffer_data, feed_data}
use minimal_mpegts_std_impl.Demuxer.Invariant.{Inv}
use minimal_mpegts_std_impl.Demuxer.FeedSteps.{Settled, process_packets_returns}

buffer_data-IsBytes :
    (buf bytes : List ℕ) → IsBytes buf → IsBytes bytes → IsBytes (buffer_data buf bytes)
unfolding buffer_data
buffer_data-IsBytes buf bytes h k =
    if_either IsBytes (ltb max_buffer_size (length (buf ++ bytes)))
      (All-drop _ _ (buf ++ bytes) (All-append _ buf bytes h k)) (All-append _ buf bytes h k)

buffer_data-length : (buf bytes : List ℕ) → length (buffer_data buf bytes) ≤ 18800
unfolding buffer_data
buffer_data-length buf bytes =
    ground (arith, length-drop (length (buf ++ bytes) - max_buffer_size) (buf ++ bytes))

module _ (F : Double) where
  -- The state between two calls.
  pub record IsReady (d : Demuxer F) : Type 0 where
    pub inv : Inv F d
    pub offset : d.sync_offset ≡ 0
    pub bounded : length d.raw_buffer ≤ max_buffer_size

  -- A synchronized demultiplexer holds less than a packet.
  abbrev pub IsDrained : Demuxer F → Type 0
  IsDrained d = d.is_synchronized ≡ true → length d.raw_buffer < 188

  -- What a call leaves, from the state `d` with the new data in its buffer: without synchronization
  -- the buffer as it was.
  abbrev pub Fed : Demuxer F → Demuxer F → Type 0
  Fed d d' = IsReady d' × IsDrained d' × (d'.is_synchronized ≡ false → d'.raw_buffer ≡ d.raw_buffer)

  Settled-Fed :
      (d d' : Demuxer F) → length d.raw_buffer ≤ max_buffer_size → Settled F d d' → Fed d d'
  Settled-Fed d d' h s = elim s.outcome [
    | inl (a, b, n, c) ↦
        (record { inv = s.inv; offset = s.offset; bounded = omega arith }, λ _. b, λ x. cc)
    | inr (a, b) ↦ (record { inv = s.inv; offset = s.offset; bounded = rw b h }, λ x. cc, λ _. b)
  ]

  process_buffer_returns :
      (d : Demuxer F)
      → Inv F d
      → d.sync_offset ≡ 0
      → length d.raw_buffer ≤ max_buffer_size
      → Returns (process_buffer F d) (Fed d)
  unfolding process_buffer
  process_buffer_returns d v z h =
      Returns-if (Fed d) (not d.is_synchronized) _ _
        (λ out.
          Returns->>= (Searched d.raw_buffer d.sync_validation_depth) (Fed d)
            (try_find_valid_iteration d.raw_buffer d.sync_validation_depth) _
            (try_find_valid_iteration_returns d.raw_buffer d.sync_validation_depth v.raw)
            (elim [
              | none ↦
                  λ _. (record { inv = v; offset = z; bounded = h }, λ x. ground arith, λ _. refl)
              | some start ↦ λ found.
                  let d' : Demuxer F = record d { is_synchronized = true; sync_offset = start } in
                  let v' : Inv F d' = record {
                    raw = v.raw;
                    pat = v.pat;
                    pmts = v.pmts;
                    current = v.current;
                    stored = v.stored;
                  } in
                  Returns-mono (Settled F d') (Fed d)
                    (process_packets F (length d.raw_buffer + 1) d')
                    (process_packets_returns F (length d.raw_buffer + 1) d' (omega arith) v' refl)
                    λ e s. Settled-Fed d' e h s
            ]))
        (λ inside.
          Returns-mono (Settled F d) (Fed d) (process_packets F (length d.raw_buffer + 1) d)
            (process_packets_returns F (length d.raw_buffer + 1) d (omega arith) v (ground arith))
            λ e s. Settled-Fed d e h s)

  -- On any bytes, in any state that the calls before left, `feedData` returns: it reads no byte
  -- outside the data and its own buffers, and each of its loops ends. The state that it leaves is
  -- again such a state: the raw buffer holds at most 100 packets and starts at offset 0, the open
  -- iterations are covered by their segments, and each stored segment points at its own bytes. A
  -- demultiplexer that is synchronized after a call with data holds less than one packet; one that is
  -- not, be it that a packet was refused or that none was found, still holds what it held with the new
  -- data behind it, cut to its last 100 packets, also the packets that the call has already stored.
  pub feed_data_returns :
      (d : Demuxer F) (p : List ℕ) (n : ℕ)
      → IsReady d
      → IsBytes p
      → n ≤ length p
      → Returns (feed_data F d (some p) n) (λ d'.
        IsReady d'
        × (0 < n → IsDrained d')
        × (0 < n
            → d'.is_synchronized ≡ false
            → d'.raw_buffer ≡ buffer_data d.raw_buffer (take n p)))
  unfolding feed_data
  feed_data_returns d p n r b h =
      Returns-if _ (n == 0) _ _
        (λ e. (r, (λ pos. absurd (ground arith)), λ pos. absurd (ground arith)))
        λ _. Returns->>= _ _ (read_span p n) _ (read_span_returns p n h) λ bytes e.
          let d' : Demuxer F = record d { raw_buffer = buffer_data d.raw_buffer bytes } in
          let v : Inv F d' = record {
            raw = buffer_data-IsBytes d.raw_buffer bytes r.inv.raw (rw e (All-take _ n p b));
            pat = r.inv.pat;
            pmts = r.inv.pmts;
            current = r.inv.current;
            stored = r.inv.stored;
          } in
          Returns-mono (Fed d') _ (process_buffer F d')
            (process_buffer_returns d' v r.offset (buffer_data-length d.raw_buffer bytes))
            λ d2 f. (f.0, (λ _. f.1), λ _ out. f.2 out ∙ ap (buffer_data d.raw_buffer) e)

  pub new_demuxer-IsReady : IsReady (new_demuxer F)
  new_demuxer-IsReady = record {
    inv = record { raw = tt; pat = tt; pmts = tt; current = tt; stored = tt };
    offset = refl;
    bounded = omega arith;
  }

  -- A client's calls in order, each with its data whole.
  unfoldable pub feed_all : Demuxer F → List (List ℕ) → Option (Demuxer F)
  feed_all d [] = some d
  feed_all d (p ∷ ps) = feed_data F d (some p) (length p) >>= λ d'. feed_all d' ps

  -- From a state such as the construction or any call leaves, any sequence of calls of `feedData`
  -- with any bytes returns, and it leaves such a state again: the raw buffer holds at most 100
  -- packets and starts at offset 0, the open iterations are covered by their segments, and each
  -- stored segment points at its own bytes.
  pub feed_all_returns :
      (d : Demuxer F) (ps : List (List ℕ))
      → IsReady d
      → All IsBytes ps
      → Returns (feed_all d ps) IsReady
  unfolding feed_all
  feed_all_returns d [] r b = r
  feed_all_returns d (p ∷ ps) r b =
      Returns->>= _ IsReady (feed_data F d (some p) (length p)) _
        (feed_data_returns d p (length p) r b.0 (omega arith))
        λ d' f. feed_all_returns d' ps f.0 b.1
