-- ===== src/Demuxer/Nearest.antt =====
-- The candidates that the search for synchronization takes: each the nearest packet behind the last
-- one that may stand behind it.
use minimal_mpegts_std_impl.Prelude.{
  ℕ, zero, suc, ◌+◌, ◌-◌, ◌≤◌, ◌<◌, ◌≡◌, ◌≢◌, ◌↔◌, refl, sym, ap, ◌∙◌, true, Option, none, some,
  List, [], ◌∷◌, ◌++◌, arith, Returns, Returns->>=, Returns-if, Returns-mono, Returns-result,
  IsBytes, read, read-byte, byte, length, length-append, length-drop, drop, ltb, leb, ◌&&◌, ◌==◌,
  if◌then◌else◌, All-drop, Bool-cases, inl, inr,
}
use native.Mathlib.Decide.{dec_lt}
use minimal_mpegts_std_impl.Types.{packet_size, sync_byte_value}
use minimal_mpegts_std_impl.Packet.{TsPacket}
use minimal_mpegts_std_impl.Packet.Safety.{Parsed}
use minimal_mpegts_std_impl.Demuxer.Sync.{
  belongs_to_same_iteration, valid_packet, last_packet, follows_last, candidate_at, find_candidates,
}
use minimal_mpegts_std_impl.Demuxer.Candidates.{Follows, belongs_to_same_iteration-Follows}
use minimal_mpegts_std_impl.Demuxer.FeedSteps.{Found, valid_packet_returns}

-- A valid packet stands at byte `i`.
abbrev pub StandsAt : List ℕ → ℕ → TsPacket → Type 0
StandsAt buf i k = valid_packet (drop i buf) ≡ some (some k)

-- The first valid packet from byte `pos` on that may stand behind `last`, inside the first `limit`
-- bytes: `k`, at byte `j`.
pub record NextAt (buf : List ℕ) (limit pos : ℕ) (last : TsPacket) (j : ℕ) (k : TsPacket)
    : Type 0 where
  pub behind : pos ≤ j
  pub inside : j + 188 ≤ limit
  pub stands : StandsAt buf j k
  pub follows : Follows last k
  pub nearest : (i : ℕ) (k' : TsPacket) → pos ≤ i → i < j → StandsAt buf i k' → ¬ (Follows last k')

-- `n` more packets can be taken from byte `pos` on, each the nearest that may stand behind the one
-- before it and searched for from its end on; `last` is the packet before.
abbrev pub Continues : List ℕ → ℕ → ℕ → TsPacket → ℕ → Type 0
Continues buf limit pos last zero = Unit
Continues buf limit pos last (suc n) =
    (j : ℕ) × (k : TsPacket) × NextAt buf limit pos last j k × Continues buf limit (j + 188) k n

Follows-belongs_to_same_iteration :
    (k1 k2 : TsPacket) → Follows k1 k2 → belongs_to_same_iteration k1 k2 ≡ true
unfolding belongs_to_same_iteration
Follows-belongs_to_same_iteration k1 k2 h = ground arith

-- What the code finds at one position: a packet that may stand behind `last`, or none is there.
abbrev Candidate : List ℕ → TsPacket → ℕ → Option TsPacket → Type 0
Candidate buf last i none = (k : TsPacket) → StandsAt buf i k → ¬ (Follows last k)
Candidate buf last i (some k) = StandsAt buf i k × Follows last k

pub byte-drop : (p : List ℕ) (i : ℕ) → byte (drop i p) 0 ≡ byte p i
byte-drop [] zero = refl
byte-drop [] (suc i) = refl
byte-drop (b ∷ p) zero = refl
byte-drop (b ∷ p) (suc i) = byte-drop p i

pub StandsAt-Parsed :
    (buf : List ℕ) (i : ℕ) (k : TsPacket)
    → IsBytes buf
    → i + 188 ≤ length buf
    → StandsAt buf i k
    → Parsed (drop i buf) k
StandsAt-Parsed buf i k b h e =
    rw e at
      (valid_packet_returns (drop i buf) (omega (arith, length-drop i buf)) (All-drop _ i buf b))

same_packet : (o : Option (Option TsPacket)) (k : TsPacket) → TsPacket
same_packet (some (some k)) d = k
same_packet (some none) d = d
same_packet none d = d

pub StandsAt-unique :
    (buf : List ℕ) (i : ℕ) (k k' : TsPacket) → StandsAt buf i k → StandsAt buf i k' → k ≡ k'
unfolding same_packet
StandsAt-unique buf i k k' e e' = ap (λ o. same_packet o k) (sym e ∙ e')

Candidate-elim :
    (buf : List ℕ) (ks : List TsPacket) (last : TsPacket) (i : ℕ) (o : Option TsPacket)
    → last_packet ks ≡ some last
    → valid_packet (drop i buf) ≡ some o
    → Candidate buf last i
        (elim o [ none ↦ none | some k ↦ if follows_last (last_packet ks) k then some k else none ])
Candidate-elim buf ks last i none l e = λ k s t. cc
Candidate-elim buf ks last i (some k) l e = elim (Bool-cases (belongs_to_same_iteration last k)) [
  | inl f ↦ rw (l, f) (e, belongs_to_same_iteration-Follows last k f)
  | inr f ↦
      rw (l, f)
        λ k' s t.
          let same : k ≡ k' = StandsAt-unique buf i k k' e s in
          let g = Follows-belongs_to_same_iteration last k' t in
          absurd (ground (arith, rw same at f))
]

candidate_at-Candidate :
    (buf : List ℕ) (ks : List TsPacket) (last : TsPacket) (i : ℕ)
    → IsBytes buf
    → i + 188 ≤ length buf
    → last_packet ks ≡ some last
    → Returns (candidate_at buf ks i) (Candidate buf last i)
unfolding candidate_at
candidate_at-Candidate buf ks last i b h l =
    let e : read buf i ≡ some (byte buf i) = read-byte buf i (omega arith) in
    rw (e, candidate_at)
      (Returns-if (Candidate buf last i) (byte buf i == sync_byte_value) _ _
        (λ _.
          Returns-result (Found (drop i buf)) (Candidate buf last i) (valid_packet (drop i buf)) _
            (valid_packet_returns (drop i buf) (omega (arith, length-drop i buf))
              (All-drop _ i buf b))
            λ o v. Candidate-elim buf ks last i o l v)
        (λ off k s.
          let p = (StandsAt-Parsed buf i k b h s).starts in
          absurd (ground (arith, byte-drop buf i))))

pub one_last : (k : TsPacket) → last_packet (k ∷ []) ≡ some k
unfolding last_packet
one_last k = refl

last_packet-snoc : (ks : List TsPacket) (k : TsPacket) → last_packet (ks ++ k ∷ []) ≡ some k
unfolding last_packet
last_packet-snoc [] k = refl
last_packet-snoc (a ∷ []) k = refl
last_packet-snoc (a ∷ b ∷ r) k = last_packet-snoc (b ∷ r) k

-- Where no packet at `pos` may stand behind `last`, the search continues from the next byte; where
-- one may, it is the next one.
Continues-later :
    (buf : List ℕ) (limit pos : ℕ) (last : TsPacket) (n : ℕ)
    → Candidate buf last pos none
    → Continues buf limit pos last (suc n) ↔ Continues buf limit (pos + 1) last (suc n)
Continues-later buf limit pos last n c = (
  (λ (j, k, x, r).
      let ne : pos ≢ j = λ e. c k (rw (sym e) at x.stands) x.follows in
      (
        j,
        k,
        record {
          behind = let h = x.behind in ground arith;
          inside = x.inside;
          stands = x.stands;
          follows = x.follows;
          nearest = λ i k' l u. x.nearest i k' (omega arith) u;
        },
        r,
      )),
  λ (j, k, x, r). (
    j,
    k,
    record {
      behind = let h = x.behind in omega arith;
      inside = x.inside;
      stands = x.stands;
      follows = x.follows;
      nearest = λ i k' l u s. elim (dec_lt pos i) [
        | yes q ↦ x.nearest i k' (omega arith) u s
        | no q ↦ let z : i ≡ pos = omega arith in c k' (rw z at s)
      ];
    },
    r,
  ),
)

Continues-taken :
    (buf : List ℕ) (limit pos : ℕ) (last k : TsPacket) (n : ℕ)
    → pos + 188 ≤ limit
    → Candidate buf last pos (some k)
    → Continues buf limit pos last (suc n) ↔ Continues buf limit (pos + 188) k n
Continues-taken buf limit pos last k n h c = (
  (λ (j, k', x, r). elim (dec_lt pos j) [
    | yes q ↦ absurd (x.nearest pos k (omega arith) q (c.0) (c.1))
    | no q ↦
        let z : j ≡ pos = let b = x.behind in omega arith in
        let same : k' ≡ k = StandsAt-unique buf pos k' k (rw z at x.stands) (c.0) in
        rw (z, same) at r
  ]),
  λ r. (
    pos,
    k,
    record {
      behind = omega arith;
      inside = h;
      stands = c.0;
      follows = c.1;
      nearest = λ i k' l u. absurd (omega arith);
    },
    r,
  ),
)

-- The inner loop finds enough candidates exactly when the search can go on for as many as are
-- missing.
pub find_candidates-Continues :
    (fuel : ℕ) (buf : List ℕ) (depth limit : ℕ) (ks : List TsPacket) (last : TsPacket) (pos m : ℕ)
    → limit ≤ length buf
    → limit - pos < fuel
    → IsBytes buf
    → last_packet ks ≡ some last
    → m ≡ depth - length ks
    → Returns
        (find_candidates fuel buf depth limit ks pos)
        (λ found. (depth ≤ length found) ↔ Continues buf limit pos last m)
unfolding find_candidates
find_candidates-Continues zero buf depth limit ks last pos m l f b e d = absurd (omega arith)
find_candidates-Continues (suc fuel) buf depth limit ks last pos zero l f b e d =
    Returns-if _ (ltb (length ks) depth && leb (pos + packet_size) limit) _ _
      (λ more. absurd (ground arith)) (λ _. ((λ x. tt), λ x. omega arith))
find_candidates-Continues (suc fuel) buf depth limit ks last pos (suc m) l f b e d =
    Returns-if _ (ltb (length ks) depth && leb (pos + packet_size) limit) _ _
      (λ more.
        let fits : pos + 188 ≤ limit = ground arith in
        Returns->>= (Candidate buf last pos) _ (candidate_at buf ks pos) _
          (candidate_at-Candidate buf ks last pos b (omega arith) e)
          (elim [
            | none ↦ λ c.
                let later = Continues-later buf limit pos last m c in
                Returns-mono _ _ (find_candidates fuel buf depth limit ks (pos + 1))
                  (find_candidates-Continues fuel buf depth limit ks last (pos + 1) (suc m) l
                    (omega arith) b e d)
                  λ found x. ((λ y. later.1 (x.0 y)), λ y. x.1 (later.0 y))
            | some k ↦ λ c.
                let taken = Continues-taken buf limit pos last k m fits c in
                Returns-mono _ _
                  (find_candidates fuel buf depth limit (ks ++ k ∷ []) (pos + packet_size))
                  (find_candidates-Continues fuel buf depth limit (ks ++ k ∷ []) k
                    (pos + packet_size) m l (omega arith) b (last_packet-snoc ks k)
                    (omega (arith, length-append ks (k ∷ []))))
                  λ found x. ((λ y. taken.1 (x.0 y)), λ y. x.1 (taken.0 y))
          ]))
      (λ stop. (
        (λ x. absurd (omega arith)),
        λ (j, k, x, r). let h = x.behind in let i = x.inside in absurd (ground arith),
      ))
