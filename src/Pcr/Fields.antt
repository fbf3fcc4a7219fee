-- ===== src/Pcr/Fields.antt =====
-- Clock references: their bytes, the reach of `extractPCR` and differences across the wraparound.
use minimal_mpegts_std_impl.Prelude.{
  ℕ, ◌+◌, ◌*◌, ◌/◌, ◌%◌, ◌^◌, ◌≤◌, ◌<◌, ◌≡◌, true, some, none, List, [], ◌∷◌, ◌++◌, arith, bit,
  byte, read-byte, read_behind, length, drop, length-drop, Returns,
}
use minimal_mpegts_std_impl.Prelude.Int.{pos, sub_ℕ}
use minimal_mpegts_std_impl.Pcr.Clock.{
  Pcr, pcr_of_bytes, read_pcr, extract_pcr, pcr_difference, pcr_is_valid,
}

-- The six bytes of ISO/IEC 13818-1: 33 bits of base, six reserved ones, 9 bits of extension.
abbrev pub pcr_bytes : Pcr → List ℕ
pcr_bytes c =
    (c.base / 2 ^ 25 % 256)
    ∷ (c.base / 2 ^ 17 % 256)
    ∷ (c.base / 2 ^ 9 % 256)
    ∷ (c.base / 2 % 256)
    ∷ (c.base % 2 * 128 + 126 + c.extension / 256)
    ∷ (c.extension % 256)
    ∷ []

-- From a flags byte with the PCR flag and the six bytes that encode a valid clock reference,
-- `extractPCR` gives that reference back, whatever follows.
pub extract_pcr-pcr_bytes :
    (flags n base ext : ℕ) (rest : List ℕ)
    → bit flags 4 ≡ true
    → 7 ≤ n
    → base < 2 ^ 33
    → ext < 300
    → extract_pcr (some (flags ∷ (pcr_bytes (record { base = base; extension = ext }) ++ rest))) n
      ≡ some (some (record { base = base; extension = ext }))
unfolding extract_pcr read_pcr pcr_of_bytes
extract_pcr-pcr_bytes flags n base ext rest hf hn hb he = ground arith

-- `extractPCR` accepts a field of six bytes, but reads seven: where the field is all the memory
-- there is, it reads behind it whenever the PCR flag is set.
pub extract_pcr_overread :
    (p : List ℕ) → length p ≡ 6 → bit (byte p 0) 4 ≡ true → extract_pcr (some p) 6 ≡ none
unfolding extract_pcr read_pcr
extract_pcr_overread p h f = ground (
  arith,
  read-byte p 0,
  length-drop 1 p,
  read-byte (drop 1 p) 0,
  read-byte (drop 1 p) 1,
  read-byte (drop 1 p) 2,
  read-byte (drop 1 p) 3,
  read-byte (drop 1 p) 4,
  read_behind (drop 1 p) 5,
)

-- With the seven bytes that it reads in reach `extractPCR` returns, and gives a valid reference or
-- none.
pub extract_pcr_returns :
    (p : List ℕ) (n : ℕ)
    → 7 ≤ length p
    → Returns (extract_pcr (some p) n) (λ o. (c : Pcr) → o ≡ some c → pcr_is_valid c ≡ true)
unfolding extract_pcr read_pcr
extract_pcr_returns p n h = ground (
  arith,
  read-byte p 0,
  length-drop 1 p,
  read-byte (drop 1 p) 0,
  read-byte (drop 1 p) 1,
  read-byte (drop 1 p) 2,
  read-byte (drop 1 p) 3,
  read-byte (drop 1 p) 4,
  read-byte (drop 1 p) 5,
)

-- Between valid clock references of which one lies `n` ticks of 27 MHz ahead of the other, less
-- than half a turn of the clock, the difference is `n` in one direction and -n in the other, on both
-- sides of the wraparound at 2^33 * 300.
pub pcr_difference_turn :
    (c1 c2 : Pcr) (n : ℕ)
    → pcr_is_valid c1 ≡ true
    → pcr_is_valid c2 ≡ true
    → n < 2 ^ 32 * 300
    → c2.base * 300 + c2.extension ≡ (c1.base * 300 + c1.extension + n) % (2 ^ 33 * 300)
    → (pcr_difference c1 c2 ≡ pos n) × (pcr_difference c2 c1 ≡ sub_ℕ 0 n)
unfolding pcr_difference pcr_is_valid
pcr_difference_turn c1 c2 n v1 v2 hn e = (ground arith, ground arith)
