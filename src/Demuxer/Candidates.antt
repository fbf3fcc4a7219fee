-- ===== src/Demuxer/Candidates.antt =====
-- The inner loop of the search for synchronization: it ends, stays inside the buffer, and collects
-- packets that follow one another.
use minimal_mpegts_std_impl.Prelude.{
  ℕ, zero, suc, ◌+◌, ◌-◌, ◌≤◌, ◌<◌, ◌≡◌, refl, true, Option, none, some, List, [], ◌∷◌, ◌++◌, arith,
  Returns, Returns->>=, Returns-if, IsBytes, read, read-byte, byte, length, length-drop, drop, ltb,
  leb, ◌&&◌, ◌==◌, if◌then◌else◌, All-drop, Bool-cases, inl, inr, ◌%◌, ◌⊎◌,
}
use minimal_mpegts_std_impl.Types.{packet_size, sync_byte_value}
use minimal_mpegts_std_impl.Packet.{TsPacket}
use minimal_mpegts_std_impl.Packet.Safety.{Parsed}
use minimal_mpegts_std_impl.Demuxer.Sync.{
  belongs_to_same_iteration, valid_packet, last_packet, follows_last, candidate_at, find_candidates,
  is_sequence,
}
use minimal_mpegts_std_impl.Demuxer.Iteration.{announces_discontinuity}
use minimal_mpegts_std_impl.Demuxer.FeedSteps.{Found, valid_packet_returns}

-- Valid packets of the buffer from `start` on, each beginning behind the begin of the one before it
-- and all of them inside the first `limit` bytes.
pub data Trail (buf : List ℕ) (limit start : ℕ) : ℕ → List TsPacket → Type 0 where
  first :
      (i : ℕ) (k : TsPacket)
      → i ≡ start
      → i + 188 ≤ limit
      → Parsed (drop i buf) k
      → Trail buf limit start i (k ∷ [])
  next :
      (i j : ℕ) (ks : List TsPacket) (k : TsPacket)
      → Trail buf limit start i ks
      → i < j
      → j + 188 ≤ limit
      → Parsed (drop j buf) k
      → Trail buf limit start j (ks ++ k ∷ [])

-- The candidates at the search position `pos`.
pub record IsCandidates (buf : List ℕ) (limit start pos : ℕ) (ks : List TsPacket) : Type 0 where
  pub at_last : ℕ
  pub trail : Trail buf limit start at_last ks
  pub behind : at_last < pos
  pub in_order : is_sequence ks ≡ true

-- `k2` may stand behind `k1` in one iteration: it has the next counter or announces a discontinuity,
-- and it has the PID of `k1` where `k1` carries a payload.
abbrev pub Follows : TsPacket → TsPacket → Type 0
Follows k1 k2 =
    ((k2.header.continuity_counter ≡ (k1.header.continuity_counter + 1) % 16)
      ⊎ (announces_discontinuity k2 ≡ true))
    × (k1.has_payload ≡ true → k1.header.pid ≡ k2.header.pid)

-- Each packet may stand behind the one before it.
abbrev pub Chained : List TsPacket → Type 0
Chained [] = Unit
Chained (k ∷ []) = Unit
Chained (k ∷ k' ∷ r) = Follows k k' × Chained (k' ∷ r)

pub belongs_to_same_iteration-Follows :
    (k1 k2 : TsPacket) → belongs_to_same_iteration k1 k2 ≡ true → Follows k1 k2
unfolding belongs_to_same_iteration
belongs_to_same_iteration-Follows k1 k2 h = ground arith

pub is_sequence-Chained : (ks : List TsPacket) → is_sequence ks ≡ true → Chained ks
unfolding is_sequence
is_sequence-Chained [] h = tt
is_sequence-Chained (k ∷ []) h = tt
is_sequence-Chained (k ∷ k' ∷ r) h = (
  belongs_to_same_iteration-Follows k k' (ground arith),
  is_sequence-Chained (k' ∷ r) (ground arith),
)

is_sequence-snoc :
    (ks : List TsPacket) (k : TsPacket)
    → is_sequence ks ≡ true
    → follows_last (last_packet ks) k ≡ true
    → is_sequence (ks ++ k ∷ []) ≡ true
unfolding is_sequence last_packet
is_sequence-snoc [] k h f = refl
is_sequence-snoc (a ∷ []) k h f = ground arith
is_sequence-snoc (a ∷ b ∷ r) k h f = ground (arith, is_sequence-snoc (b ∷ r) k)

pub one_in_order : (k : TsPacket) → is_sequence (k ∷ []) ≡ true
unfolding is_sequence
one_in_order k = refl

-- A candidate parses where it stands, and follows the last one.
abbrev Joins : List ℕ → List TsPacket → ℕ → Option TsPacket → Type 0
Joins buf ks i none = Unit
Joins buf ks i (some k) = Parsed (drop i buf) k × (follows_last (last_packet ks) k ≡ true)

Joins-if :
    (buf : List ℕ) (ks : List TsPacket) (i : ℕ) (o : Option TsPacket)
    → Found (drop i buf) o
    → Joins buf ks i
        (elim o [ none ↦ none | some k ↦ if follows_last (last_packet ks) k then some k else none ])
Joins-if buf ks i none f = tt
Joins-if buf ks i (some k) f = elim (Bool-cases (follows_last (last_packet ks) k)) [
  | inl e ↦ rw e (f, e)
  | inr e ↦ rw e tt
]

candidate_at_returns :
    (buf : List ℕ) (ks : List TsPacket) (i : ℕ)
    → IsBytes buf
    → i + 188 ≤ length buf
    → Returns (candidate_at buf ks i) (Joins buf ks i)
unfolding candidate_at
candidate_at_returns buf ks i b h =
    let e : read buf i ≡ some (byte buf i) = read-byte buf i (omega arith) in
    rw (e, candidate_at)
      (Returns-if (Joins buf ks i) (byte buf i == sync_byte_value) _ _
        (λ _.
          Returns->>= (Found (drop i buf)) (Joins buf ks i) (valid_packet (drop i buf)) _
            (valid_packet_returns (drop i buf) (omega (arith, length-drop i buf))
              (All-drop _ i buf b))
            λ o f. Joins-if buf ks i o f)
        (λ _. tt))

-- What the inner loop leaves: candidates in order.
abbrev pub InOrder : List ℕ → ℕ → ℕ → List TsPacket → Type 0
InOrder buf limit start ks = (i : ℕ) × Trail buf limit start i ks × (is_sequence ks ≡ true)

pub find_candidates_returns :
    (fuel : ℕ) (buf : List ℕ) (depth limit start : ℕ) (ks : List TsPacket) (pos : ℕ)
    → limit ≤ length buf
    → limit - pos < fuel
    → IsBytes buf
    → IsCandidates buf limit start pos ks
    → Returns (find_candidates fuel buf depth limit ks pos) (InOrder buf limit start)
unfolding find_candidates
find_candidates_returns zero buf depth limit start ks pos l f b c = absurd (omega arith)
find_candidates_returns (suc fuel) buf depth limit start ks pos l f b c =
    Returns-if (InOrder buf limit start) (ltb (length ks) depth && leb (pos + packet_size) limit) _
      _
      (λ more.
        let fits : pos + 188 ≤ limit = ground arith in
        Returns->>= (Joins buf ks pos) (InOrder buf limit start) (candidate_at buf ks pos) _
          (candidate_at_returns buf ks pos b (omega arith))
          (elim [
            | none ↦ λ _.
                find_candidates_returns fuel buf depth limit start ks (pos + 1) l (omega arith) b
                  (record {
                    at_last = c.at_last;
                    trail = c.trail;
                    behind = omega arith;
                    in_order = c.in_order;
                  })
            | some k ↦ λ j.
                find_candidates_returns fuel buf depth limit start (ks ++ k ∷ [])
                  (pos + packet_size) l (omega arith) b
                  (record {
                    at_last = pos;
                    trail = next c.at_last pos ks k c.trail c.behind fits j.0;
                    behind = omega arith;
                    in_order = is_sequence-snoc ks k c.in_order j.1;
                  })
          ]))
      (λ _. (c.at_last, c.trail, c.in_order))
