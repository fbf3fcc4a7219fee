-- ===== src/Pes/Stamps.antt =====
-- PTS and DTS: the bytes of a stamp, and differences across the wraparound.
use minimal_mpegts_std_impl.Prelude.{
  ℕ, ◌+◌, ◌*◌, ◌/◌, ◌%◌, ◌^◌, ◌<◌, ◌≡◌, some, List, [], ◌∷◌, ◌++◌, arith,
}
use minimal_mpegts_std_impl.Prelude.Int.{pos, sub_ℕ}
use minimal_mpegts_std_impl.Pes.Timestamp.{Timestamp, extract_timestamp, timestamp_difference}

-- The five bytes of ISO/IEC 13818-1 for a 33-bit stamp: a 4-bit prefix, three groups of 3, 15 and 15
-- bits, and a marker bit behind each.
abbrev pub stamp_bytes : ℕ → ℕ → List ℕ
stamp_bytes prefix v =
    (prefix * 16 + v / 2 ^ 30 % 8 * 2 + 1)
    ∷ (v / 2 ^ 22 % 256)
    ∷ (v / 2 ^ 15 % 128 * 2 + 1)
    ∷ (v / 2 ^ 7 % 256)
    ∷ (v % 128 * 2 + 1)
    ∷ []

-- Reading the five bytes that encode a 33-bit stamp gives the stamp back, whatever its 4-bit prefix
-- and whatever follows.
pub extract_timestamp-stamp_bytes :
    (prefix v : ℕ) (rest : List ℕ)
    → prefix < 16
    → v < 2 ^ 33
    → extract_timestamp (stamp_bytes prefix v ++ rest) ≡ some (record { value = v })
unfolding extract_timestamp
extract_timestamp-stamp_bytes prefix v rest hp hv = ground arith

-- A stamp that lies `n` ticks ahead on the 33-bit clock, less than half a turn, has difference `n`
-- in one direction and -n in the other, on both sides of the wraparound.
pub timestamp_difference_turn :
    (v n : ℕ)
    → v < 2 ^ 33
    → n < 2 ^ 32
    → let t1 : Timestamp = record { value = v } in
      let t2 : Timestamp = record { value = (v + n) % 2 ^ 33 } in
      (timestamp_difference t1 t2 ≡ pos n) × (timestamp_difference t2 t1 ≡ sub_ℕ 0 n)
unfolding timestamp_difference
timestamp_difference_turn v n hv hn = (ground arith, ground arith)
