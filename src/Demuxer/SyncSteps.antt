-- ===== src/Demuxer/SyncSteps.antt =====
-- The search for synchronization ends, stays inside the buffer, and what it finds.
use minimal_mpegts_std_impl.Prelude.{
  ℕ, zero, suc, ◌+◌, ◌-◌, ◌*◌, ◌≤◌, ◌<◌, ◌≡◌, refl, Bool, true, false, Option, none, some, List, [],
  ◌∷◌, arith, Returns, Returns->>=, Returns-if, Returns-mono, Returns-value, Returns-result,
  Returns-both, ◌↔◌, IsBytes, read, read-byte, byte, length, length-drop, drop, ltb, not, ◌==◌,
  if◌then◌else◌, All-drop, min,
}
use native.Mathlib.Decide.{dec_lt}
use minimal_mpegts_std_impl.Types.{packet_size, sync_byte_value}
use minimal_mpegts_std_impl.Packet.{TsPacket}
use minimal_mpegts_std_impl.Demuxer.Sync.{
  valid_packet, find_candidates, is_sync_point, scan, try_find_valid_iteration,
}
use minimal_mpegts_std_impl.Demuxer.Candidates.{
  Trail, first, InOrder, Chained, is_sequence-Chained, one_in_order, find_candidates_returns,
}
use minimal_mpegts_std_impl.Demuxer.Nearest.{
  StandsAt, StandsAt-Parsed, StandsAt-unique, Continues, byte-drop, one_last,
  find_candidates-Continues,
}
use minimal_mpegts_std_impl.Demuxer.FeedSteps.{Found, valid_packet_returns}

-- A synchronization point: valid packets from `start` on, as many as the depth asks for, within
-- ten packet lengths, each of which may stand behind the one before it.
pub record SyncPoint (buf : List ℕ) (depth start : ℕ) : Type 0 where
  pub packets : List TsPacket
  pub at_last : ℕ
  pub trail : Trail buf (min (start + 1880) (length buf)) start at_last packets
  pub chained : Chained packets
  pub enough : depth ≤ length packets

-- What the search looks for: a valid packet at `start`, from which as many further ones can be taken
-- as the depth asks for, each the nearest that may stand behind the one before it, within ten packet
-- lengths.
pub record SyncStart (buf : List ℕ) (depth start : ℕ) : Type 0 where
  pub opening : TsPacket
  pub stands : StandsAt buf start opening
  pub continues : Continues buf (min (start + 1880) (length buf)) (start + 1) opening (depth - 1)

-- The test at one position accepts exactly the positions that the search looks for.
abbrev Tested : List ℕ → ℕ → ℕ → Bool → Type 0
Tested buf depth start b =
    ((b ≡ true) ↔ SyncStart buf depth start) × (b ≡ true → SyncPoint buf depth start)

not_standing :
    (buf : List ℕ) (depth start : ℕ)
    → ((k : TsPacket) → ¬ (StandsAt buf start k))
    → Tested buf depth start false
not_standing buf depth start n = (((λ x. cc), λ s. absurd (n s.opening s.stands)), λ x. cc)

is_sync_point_returns :
    (buf : List ℕ) (depth start : ℕ)
    → IsBytes buf
    → start + 188 ≤ length buf
    → Returns (is_sync_point buf depth start) (Tested buf depth start)
unfolding is_sync_point
is_sync_point_returns buf depth start b h =
    let e : read buf start ≡ some (byte buf start) = read-byte buf start (omega arith) in
    let limit = min (start + packet_size * 10) (length buf) in
    rw (e, is_sync_point)
      (Returns-if (Tested buf depth start) (not (byte buf start == sync_byte_value)) _ _
        (λ off. not_standing buf depth start λ k s.
          let p = (StandsAt-Parsed buf start k b h s).starts in
          absurd (ground (arith, byte-drop buf start)))
        (λ _.
          Returns-result (Found (drop start buf)) (Tested buf depth start)
            (valid_packet (drop start buf)) _
            (valid_packet_returns (drop start buf) (omega (arith, length-drop start buf))
              (All-drop _ start buf b))
            (elim [
              | none ↦ λ v. not_standing buf depth start λ k s. cc
              | some k ↦ λ v.
                  Returns->>= _ (Tested buf depth start)
                    (find_candidates (length buf + 1) buf depth limit (k ∷ []) (start + 1)) _
                    (Returns-both (InOrder buf limit start) _ _
                      (find_candidates_returns (length buf + 1) buf depth limit start (k ∷ [])
                        (start + 1) (omega arith) (omega arith) b
                        (record {
                          at_last = start;
                          trail =
                              first start k refl (omega arith) (StandsAt-Parsed buf start k b h v);
                          behind = omega arith;
                          in_order = one_in_order k;
                        }))
                      (find_candidates-Continues (length buf + 1) buf depth limit (k ∷ []) k
                        (start + 1) (depth - 1) (omega arith) (omega arith) b (one_last k) refl))
                    λ ks (o, c). (
                      (
                        (λ x. record { opening = k; stands = v; continues = c.0 (ground arith) }),
                        λ s.
                            let same : s.opening ≡ k = StandsAt-unique buf start _ k s.stands v in
                            let q = c.1 (rw same at s.continues) in let i = o.2 in ground arith,
                      ),
                      λ x. record {
                        packets = ks;
                        at_last = o.0;
                        trail = o.1;
                        chained = is_sequence-Chained ks (ground arith);
                        enough = ground arith;
                      },
                    )
            ])))

-- The scan over `rounds` positions from `start` on finds the first synchronization point, or none
-- of them is one.
abbrev pub Scanned : List ℕ → ℕ → ℕ → ℕ → Option ℕ → Type 0
Scanned buf depth start rounds none =
    (i : ℕ) → start ≤ i → i < start + rounds → is_sync_point buf depth i ≡ some false
Scanned buf depth start rounds (some s) =
    (start ≤ s)
    × (s < start + rounds)
    × (is_sync_point buf depth s ≡ some true)
    × ((i : ℕ) → start ≤ i → i < s → is_sync_point buf depth i ≡ some false)

-- A position that fails joins those behind it.
Scanned-later :
    (buf : List ℕ) (depth start rounds : ℕ) (o : Option ℕ)
    → is_sync_point buf depth start ≡ some false
    → Scanned buf depth (start + 1) rounds o
    → Scanned buf depth start (suc rounds) o
Scanned-later buf depth start rounds none e h = λ i l u. elim (dec_lt start i) [
  | yes q ↦ h i (omega arith) (omega arith)
  | no q ↦ let z : i ≡ start = omega arith in rw z e
]
Scanned-later buf depth start rounds (some s) e h = (
  omega (arith, h.0),
  omega (arith, h.1),
  h.2,
  λ i l u. elim (dec_lt start i) [
    | yes q ↦ h.3 i (omega arith) u
    | no q ↦ let z : i ≡ start = omega arith in rw z e
  ],
)

scan_from :
    (rounds : ℕ) (buf : List ℕ) (depth start : ℕ) (found : Bool)
    → is_sync_point buf depth start ≡ some found
    → Returns (scan rounds buf depth (start + 1)) (Scanned buf depth (start + 1) rounds)
    → Returns
        (if found then some (some start) else scan rounds buf depth (start + 1))
        (Scanned buf depth start (suc rounds))
scan_from rounds buf depth start true e r =
    (omega arith, omega arith, e, λ i l u. absurd (omega arith))
scan_from rounds buf depth start false e r =
    Returns-mono _ _ (scan rounds buf depth (start + 1)) r
      λ o h. Scanned-later buf depth start rounds o e h

scan_returns :
    (rounds : ℕ) (buf : List ℕ) (depth start : ℕ)
    → IsBytes buf
    → start + rounds + 187 ≤ length buf
    → Returns (scan rounds buf depth start) (Scanned buf depth start rounds)
unfolding scan
scan_returns zero buf depth start b h = λ i l u. absurd (omega arith)
scan_returns (suc rounds) buf depth start b h =
    let (found, e, _) =
      Returns-value _ (is_sync_point buf depth start)
        (is_sync_point_returns buf depth start b (omega arith)) in
    rw (e, scan)
      (scan_from rounds buf depth start found e
        (scan_returns rounds buf depth (start + 1) b (omega arith)))

-- What the test's answer says of a position.
tested :
    (buf : List ℕ) (depth start : ℕ) (found : Bool)
    → IsBytes buf
    → start + 188 ≤ length buf
    → is_sync_point buf depth start ≡ some found
    → Tested buf depth start found
tested buf depth start found b h e = rw e at (is_sync_point_returns buf depth start b h)

-- The outcome of the search: the first position that leaves room for three packets and is one that
-- it looks for, or there is no such position.
abbrev pub Searched : List ℕ → ℕ → Option ℕ → Type 0
Searched buf depth none = (i : ℕ) → i + 564 ≤ length buf → ¬ (SyncStart buf depth i)
Searched buf depth (some s) =
    (s + 564 ≤ length buf)
    × SyncStart buf depth s
    × SyncPoint buf depth s
    × ((i : ℕ) → i < s → ¬ (SyncStart buf depth i))

Scanned-Searched :
    (buf : List ℕ) (depth : ℕ) (o : Option ℕ)
    → IsBytes buf
    → 564 ≤ length buf
    → Scanned buf depth 0 (length buf - 564 + 1) o
    → Searched buf depth o
Scanned-Searched buf depth none b h f = λ i l s.
    let t = tested buf depth i false b (omega arith) (f i (omega arith) (omega arith)) in
    absurd (ground (arith, t.0.1 s))
Scanned-Searched buf depth (some s) b h f =
    let t = tested buf depth s true b (omega (arith, f.1)) (f.2) in
    (
      omega (arith, f.1),
      t.0.0 refl,
      t.1 refl,
      λ i l x.
          let u = tested buf depth i false b (omega (arith, f.1)) (f.3 i (omega arith) l) in
          absurd (ground (arith, u.0.1 x)),
    )

-- On any bytes the search for synchronization returns, inside the buffer. It finds the first position
-- with room for three packets that starts a run, and it finds nothing exactly if no position with
-- that room does. A run is as many valid packets as the validation depth, within ten packet lengths:
-- the second is searched for from the byte behind the first one's sync byte on, each further one
-- from the end of the one before it, and each is the nearest that has the next counter or announces
-- a discontinuity and, behind a packet with payload, has its PID.
pub try_find_valid_iteration_returns :
    (buf : List ℕ) (depth : ℕ)
    → IsBytes buf
    → Returns (try_find_valid_iteration buf depth) (Searched buf depth)
unfolding try_find_valid_iteration
try_find_valid_iteration_returns buf depth b =
    Returns-if (Searched buf depth) (ltb (length buf) (packet_size * 3)) _ _
      (λ short i l. absurd (ground arith))
      (λ long.
        Returns-mono _ _ (scan (length buf - packet_size * 3 + 1) buf depth 0)
          (scan_returns (length buf - packet_size * 3 + 1) buf depth 0 b (ground arith))
          λ o f. Scanned-Searched buf depth o b (ground arith) f)
