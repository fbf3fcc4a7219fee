-- ===== src/Pes/Reports.antt =====
-- When `PESAccumulator` reports a packet.
use minimal_mpegts_std_impl.Prelude.{
  ℕ, ◌*◌, ◌≢◌, Option, none, false, ◌++◌, if◌then◌else◌, ◌+◌, ◌≤◌, ◌≡◌, Bool, true, some, List,
  byte, length, ◌==◌,
}
use minimal_mpegts_std_impl.Pes.Header.{PesHeader, new_pes_header, parse_header, get_header_size}
use minimal_mpegts_std_impl.Pes.Accumulator.{PesAccumulator}

-- The length field of a packet.
abbrev pub length_field : List ℕ → ℕ
length_field buf = byte buf 4 * 256 + byte buf 5

-- The header at the start of the buffer is accepted and all there.
abbrev pub HeaderThere : List ℕ → Type 0
HeaderThere buf =
    (h : PesHeader) × (parse_header (some buf) (length buf) new_pes_header ≡ some (true, h))
    × (get_header_size h ≤ length buf)

-- The buffer starts with the start code and holds the six fixed bytes and as many more as the length
-- field announces; where it is 0, the length is unbounded and the header is all there.
pub record HasPacket (buf : List ℕ) : Type 0 where
  pub six : 6 ≤ length buf
  pub start_code : (byte buf 0 ≡ 0) × (byte buf 1 ≡ 0) × (byte buf 2 ≡ 1)
  pub bounded : length_field buf ≢ 0 → 6 + length_field buf ≤ length buf
  pub unbounded : length_field buf ≡ 0 → HeaderThere buf

-- A report is made exactly for a buffer with a packet; the packet is then marked complete, with its
-- length, in an unchanged buffer.
pub record Reported (buf : List ℕ) (r : Bool × PesAccumulator) : Type 0 where
  pub has_packet : r.0 ≡ true → HasPacket buf
  pub is_marked : r.0 ≡ true → r.1.complete ≡ true
  pub same_buffer : r.0 ≡ true → r.1.buffer ≡ buf
  pub expects :
      r.0 ≡ true → r.1.expected_length ≡ (if length_field buf == 0 then 0 else 6 + length_field buf)
  pub reports : HasPacket buf → r.0 ≡ true

header_or : PesHeader → Option (Bool × PesHeader) → PesHeader
header_or d none = d
header_or d (some r) = r.1

accepted_or : Option (Bool × PesHeader) → Bool
accepted_or none = false
accepted_or (some r) = r.0

-- The buffer that the data extends: at the start of a unit an empty one.
abbrev pub collected : PesAccumulator → Bool → List ℕ → List ℕ
collected a start bytes = if start then bytes else a.buffer ++ bytes
