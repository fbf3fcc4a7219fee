-- ===== src/Prelude/Fields.antt =====
-- Bit fields of words: shifts and masks in the form that arithmetic reads.
use Prim.Native.Nat.{ℕ, ◌+◌, ◌*◌, ◌/◌, ◌%◌, ◌^◌}
use mathlib.Core.Bool.{Bool}
use minimal_mpegts_std_impl.Prelude.Tests.{◌==◌}

-- x >> k
abbrev pub shr : ℕ → ℕ → ℕ
shr x k = x / 2 ^ k

-- x & (2^k - 1)
abbrev pub low_bits : ℕ → ℕ → ℕ
low_bits x k = x % 2 ^ k

-- (hi << k) | lo, for `lo` below 2^k: the two fields do not overlap, so `|` is `+`.
abbrev pub join : ℕ → ℕ → ℕ → ℕ
join hi k lo = hi * 2 ^ k + lo

-- (x >> k) & 1, as the truth value that the code makes of it; (x & (1 << k)) != 0 is the same.
abbrev pub bit : ℕ → ℕ → Bool
bit x k = x / 2 ^ k % 2 == 1
