-- ===== src/Pes/Timestamp.antt =====
-- PTS and DTS: 33-bit stamps of a 90 kHz clock.
use minimal_mpegts_std_impl.Prelude.{
  ℕ, ◌+◌, ◌^◌, ltb, if◌then◌else◌, Bool, Option, some, List, ◌>>=◌, read, shr, low_bits, join,
}
use minimal_mpegts_std_impl.Prelude.Int.{ℤ, pos, ◌+ℤ◌, ◌-ℤ◌, ltb_ℤ, to_int64}
use minimal_mpegts_std_impl.Prelude.Double.{Double}

pub record Timestamp : Type 0 where
  pub value : ℕ

unfoldable pub is_valid : Timestamp → Bool
is_valid t = ltb t.value (2 ^ 33)

-- The wraparound of a difference on a circle of `2 * half` ticks.
abbrev pub wrap_difference : ℕ → ℤ → ℤ
wrap_difference half d =
    if ltb_ℤ (pos half) d
    then d -ℤ pos (half + half)
    else if ltb_ℤ d (pos 0 -ℤ pos half)
    then d +ℤ pos (half + half)
    else d

-- `timestampDifference`; int64_t arithmetic on stamps below 2^62 does not overflow.
unfoldable pub timestamp_difference : Timestamp → Timestamp → ℤ
unfolding ◌+ℤ◌ ◌-ℤ◌
timestamp_difference t1 t2 = wrap_difference (2 ^ 32) (to_int64 t2.value -ℤ to_int64 t1.value)

-- The five bytes of a stamp with its marker bits.
unfoldable pub extract_timestamp : List ℕ → Option Timestamp
extract_timestamp p = do
  b0 ← read p 0
  b1 ← read p 1
  b2 ← read p 2
  b3 ← read p 3
  b4 ← read p 4
  some (record {
    value = join (join (join (join (low_bits (shr b0 1) 3) 8 b1) 7 (shr b2 1)) 8 b3) 7 (shr b4 1);
  })

module _ (F : Double) where
  open F use {Carrier, of_int, div}

  unfoldable pub get_seconds : Timestamp → Carrier
  get_seconds t = div (of_int (pos t.value)) (of_int (pos 90000))

  unfoldable pub get_milliseconds : Timestamp → Carrier
  get_milliseconds t = div (of_int (pos t.value)) (of_int (pos 90))

  unfoldable pub timestamp_difference_ms : Timestamp → Timestamp → Carrier
  timestamp_difference_ms t1 t2 = div (of_int (timestamp_difference t1 t2)) (of_int (pos 90))
