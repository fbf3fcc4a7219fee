-- ===== src/Demuxer/BackToBack.antt =====
-- Packets that stand back to back are found, unless the first one hides a packet.
use minimal_mpegts_std_impl.Prelude.{ℕ, ◌+◌, ◌<◌, List, [], ◌∷◌}
use minimal_mpegts_std_impl.Packet.{TsPacket}
use minimal_mpegts_std_impl.Demuxer.Candidates.{Follows}
use minimal_mpegts_std_impl.Demuxer.Nearest.{StandsAt}

-- The packets stand one behind the other, from byte `i` on.
abbrev pub BackToBack : List ℕ → ℕ → List TsPacket → Type 0
BackToBack buf i [] = Unit
BackToBack buf i (k ∷ ks) = StandsAt buf i k × BackToBack buf (i + 188) ks

-- No packet that could be taken for the second one stands inside the first.
abbrev pub HidesNone : List ℕ → ℕ → TsPacket → Type 0
HidesNone buf start k =
    (i : ℕ) (k' : TsPacket) → start < i → i < start + 188 → StandsAt buf i k' → ¬ (Follows k k')
