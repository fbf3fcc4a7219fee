-- ===== src/Pcr/Clock.antt =====
-- The clock reference, its extraction from an adaptation field and the difference of two of them.
use minimal_mpegts_std_impl.Prelude.{
  ℕ, ◌+◌, ◌*◌, ◌%◌, ◌^◌, ltb, if◌then◌else◌, Bool, not, ◌&&◌, Option, none, some, List, ◌>>=◌, read,
  drop, shr, low_bits, join, bit,
}
use minimal_mpegts_std_impl.Prelude.Int.{ℤ, pos, ◌+ℤ◌, ◌-ℤ◌, to_int64}
use minimal_mpegts_std_impl.Prelude.Double.{Double}
use minimal_mpegts_std_impl.Pes.Timestamp.{wrap_difference}

pub record Pcr : Type 0 where
  pub base : ℕ
  pub extension : ℕ

-- uint64_t arithmetic.
unfoldable pub get_value_27_mhz : Pcr → ℕ
get_value_27_mhz c = (c.base * 300 + c.extension) % 2 ^ 64

abbrev pub get_value_90_khz : Pcr → ℕ
get_value_90_khz c = c.base

unfoldable pub pcr_is_valid : Pcr → Bool
pcr_is_valid c = ltb c.base (2 ^ 33) && ltb c.extension 300

-- The six bytes of a clock reference.
unfoldable pub pcr_of_bytes : ℕ → ℕ → ℕ → ℕ → ℕ → ℕ → Pcr
pcr_of_bytes b0 b1 b2 b3 b4 b5 = record {
  base = join (join (join (join b0 8 b1) 8 b2) 8 b3) 1 (shr b4 7);
  extension = join (low_bits b4 1) 8 b5;
}

-- The read of the six bytes behind the flags, and the validation.
unfoldable pub read_pcr : List ℕ → Option (Option Pcr)
unfolding pcr_is_valid
read_pcr q = do
  b0 ← read q 0
  b1 ← read q 1
  b2 ← read q 2
  b3 ← read q 3
  b4 ← read q 4
  b5 ← read q 5
  let c = pcr_of_bytes b0 b1 b2 b3 b4 b5
  some (if not (pcr_is_valid c) then none else some c)

-- `extractPCR`; the pointer `none` is nullptr and the inner `none` is `std::nullopt`.
unfoldable pub extract_pcr : Option (List ℕ) → ℕ → Option (Option Pcr)
extract_pcr none n = some none
extract_pcr (some p) n =
    if ltb n 6
    then some none
    else do flags ← read p 0; if not (bit flags 4) then some none else read_pcr (drop 1 p)

-- `pcrDifference`: the clock wraps at 2^33 * 300 ticks.
unfoldable pub pcr_difference : Pcr → Pcr → ℤ
unfolding ◌+ℤ◌ ◌-ℤ◌ get_value_27_mhz
pcr_difference c1 c2 =
    wrap_difference (2 ^ 32 * 300)
      (to_int64 (get_value_27_mhz c2) -ℤ to_int64 (get_value_27_mhz c1))

module _ (F : Double) where
  open F use {Carrier, of_int, div}

  unfoldable pub get_seconds : Pcr → Carrier
  get_seconds c = div (of_int (pos (get_value_27_mhz c))) (of_int (pos 27000000))

  unfoldable pub pcr_difference_ms : Pcr → Pcr → Carrier
  pcr_difference_ms c1 c2 = div (of_int (pcr_difference c1 c2)) (of_int (pos 27000))
