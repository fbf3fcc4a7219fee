-- ===== src/Tests.antt =====
-- Test data: bytes, headers and packets, and integers in the place of `double`.
mod Packets
mod Tables
mod Formats
mod Streams
mod Synchronization
mod Clocks
use minimal_mpegts_std_impl.Prelude.{
  ℕ, zero, suc, ◌+◌, ◌-◌, ◌*◌, ◌/◌, ◌≡◌, ◌<◌, refl, true, false, List, [], ◌∷◌, ◌++◌, arith,
  IsBytes, length, All-append,
}
use minimal_mpegts_std_impl.Prelude.Int.{ℤ, pos, negsuc, pos_part, neg_part, ◌+ℤ◌, ◌-ℤ◌, ltb_ℤ}
use minimal_mpegts_std_impl.Prelude.Double.{Double}
use minimal_mpegts_std_impl.Types.{payload_only, adaptation_payload}
use minimal_mpegts_std_impl.Packet.{TsPacketHeader, new_header}
use minimal_mpegts_std_impl.Packet.Format.{IsHeader, header_bytes}

-- Integers, with products and quotients of
-- magnitudes.
abbrev pub int_double : Double
int_double = record {
  Carrier = ℤ;
  of_int = λ n. n;
  add = λ a b. a +ℤ b;
  sub = λ a b. a -ℤ b;
  mul = λ a b. pos ((pos_part a + neg_part a) * (pos_part b + neg_part b));
  div = λ a b. pos ((pos_part a + neg_part a) / (pos_part b + neg_part b));
  abs = λ a. pos (pos_part a + neg_part a);
  less = ltb_ℤ;
  to_uint64 = pos_part;
}

abbrev pub filler : ℕ → List ℕ
filler zero = []
filler (suc n) = 0xFF ∷ filler n

pub filler-IsBytes : (n : ℕ) → IsBytes (filler n)
filler-IsBytes zero = tt
filler-IsBytes (suc n) = (omega arith, filler-IsBytes n)

pub length-filler : (n : ℕ) → length (filler n) ≡ n
length-filler zero = refl
length-filler (suc n) = omega (arith, length-filler n)

-- A header on PID 256, the first of its unit.
abbrev pub plain_header : ℕ → TsPacketHeader
plain_header n = record new_header {
  sync_byte = 0x47;
  payload_unit_start = true;
  pid = 256;
  adaptation_control = payload_only;
  continuity_counter = n;
}

abbrev pub private_header : TsPacketHeader
private_header = record new_header {
  sync_byte = 0x47;
  pid = 256;
  adaptation_control = adaptation_payload;
  continuity_counter = 7;
}

pub plain_header-IsHeader : (n : ℕ) → n < 16 → IsHeader (plain_header n)
plain_header-IsHeader n h = record {
  sync = refl;
  no_error = refl;
  pid_bits = omega arith;
  scrambling_bits = omega arith;
  cc_bits = h;
}

pub private_header-IsHeader : IsHeader private_header
private_header-IsHeader = record {
  sync = refl;
  no_error = refl;
  pid_bits = omega arith;
  scrambling_bits = omega arith;
  cc_bits = omega arith;
}

abbrev pub plain_packet : ℕ → List ℕ
plain_packet n = header_bytes (plain_header n) ++ filler 184

pub plain_packet-IsBytes : (n : ℕ) → n < 16 → IsBytes (plain_packet n)
plain_packet-IsBytes n h =
    All-append (λ b. b < 256) (header_bytes (plain_header n)) (filler 184)
      (omega arith, (omega arith, (omega arith, (omega arith, tt)))) (filler-IsBytes 184)

pub length-plain_packet : (n : ℕ) → length (plain_packet n) ≡ 188
length-plain_packet n = omega (arith, length-filler 184)
