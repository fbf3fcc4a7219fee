-- ===== src/Demuxer/Sync.antt =====
-- `tryFindValidIteration`: the search for a position where three packets follow one another.
use minimal_mpegts_std_impl.Prelude.{
  ℕ, zero, suc, ◌+◌, ◌-◌, ◌*◌, ◌==◌, ltb, leb, if◌then◌else◌, Bool, true, false, not, ◌&&◌, Option,
  none, some, List, [], ◌∷◌, ◌++◌, ◌>>=◌, read, drop, length, min,
}
use minimal_mpegts_std_impl.Types.{packet_size, sync_byte_value}
use minimal_mpegts_std_impl.Packet.{TsPacket, new_packet, parse}
use minimal_mpegts_std_impl.Demuxer.Iteration.{next_cc, announces_discontinuity}

-- `belongsToSameIteration`.
unfoldable pub belongs_to_same_iteration : TsPacket → TsPacket → Bool
belongs_to_same_iteration k1 k2 =
    if not (k2.header.continuity_counter == next_cc k1.header.continuity_counter)
      && not (announces_discontinuity k2)
    then false
    else if k1.has_payload && not (k1.header.pid == k2.header.pid)
    then false
    else true

-- The packet at a pointer, where it parses and is valid.
unfoldable pub valid_packet : List ℕ → Option (Option TsPacket)
valid_packet p = do
  (accepted, k) ← parse new_packet (some p)
  some (if accepted && k.valid then some k else none)

-- `validatePacket`; the argument `none` is nullptr.
unfoldable pub validate_packet : Option (List ℕ) → Option Bool
validate_packet none = some false
validate_packet (some p) = do (accepted, k) ← parse new_packet (some p); some (accepted && k.valid)

-- `candidates.back()`; an empty vector has none.
unfoldable pub last_packet : List TsPacket → Option TsPacket
last_packet [] = none
last_packet (k ∷ []) = some k
last_packet (k ∷ k' ∷ r) = last_packet (k' ∷ r)

abbrev pub follows_last : Option TsPacket → TsPacket → Bool
follows_last none k = true
follows_last (some l) k = belongs_to_same_iteration l k

-- The packet at `pos`, where the sync byte stands there and it joins the candidates.
unfoldable pub candidate_at : List ℕ → List TsPacket → ℕ → Option (Option TsPacket)
candidate_at buf candidates pos = do
  b ← read buf pos
  if b == sync_byte_value
      then (do
        found ← valid_packet (drop pos buf)
        some (elim found [
          | none ↦ none
          | some k ↦ if follows_last (last_packet candidates) k then some k else none
        ]))
      else some none

-- The inner `while`, on fuel; `none` where the fuel runs out too.
unfoldable pub find_candidates : ℕ → List ℕ → ℕ → ℕ → List TsPacket → ℕ → Option (List TsPacket)
find_candidates zero buf depth max_search candidates pos = none
find_candidates (suc fuel) buf depth max_search candidates pos =
    let round = candidate_at buf candidates pos >>= λ found. elim found [
      | some k ↦
          find_candidates fuel buf depth max_search (candidates ++ k ∷ []) (pos + packet_size)
      | none ↦ find_candidates fuel buf depth max_search candidates (pos + 1)
    ] in
    if ltb (length candidates) depth && leb (pos + packet_size) max_search
    then round
    else some candidates

-- The loop that verifies the sequence.
unfoldable pub is_sequence : List TsPacket → Bool
is_sequence [] = true
is_sequence (k ∷ []) = true
is_sequence (k ∷ k' ∷ r) =
    let rest = is_sequence (k' ∷ r) in if belongs_to_same_iteration k k' then rest else false

-- One round of the scan: whether `start` is a synchronization point.
unfoldable pub is_sync_point : List ℕ → ℕ → ℕ → Option Bool
is_sync_point buf depth start = do
  b ← read buf start
  if not (b == sync_byte_value) then some false else do
    first ← valid_packet (drop start buf)
    elim first [
      | none ↦ some false
      | some k ↦ (do
        candidates ←
            find_candidates (length buf + 1) buf depth (min (start + packet_size * 10) (length buf))
              (k ∷ []) (start + 1)
        some (leb depth (length candidates) && is_sequence candidates))
    ]

-- The scan over the start positions, with the number of rounds left.
unfoldable pub scan : ℕ → List ℕ → ℕ → ℕ → Option (Option ℕ)
scan zero buf depth start = some none
scan (suc rounds) buf depth start =
    let rest = scan rounds buf depth (start + 1) in
    do found ← is_sync_point buf depth start; if found then some (some start) else rest

-- `tryFindValidIteration`: the position found, which the code writes to `sync_offset_`.
unfoldable pub try_find_valid_iteration : List ℕ → ℕ → Option (Option ℕ)
try_find_valid_iteration buf depth =
    if ltb (length buf) (packet_size * 3)
    then some none
    else scan (length buf - packet_size * 3 + 1) buf depth 0
