-- ===== src/Pes/Format.antt =====
-- The bytes of a PES packet with both time stamps, and `parsePacket` on them.
use minimal_mpegts_std_impl.Prelude.{
  ℕ, suc, ◌+◌, ◌-◌, ◌/◌, ◌%◌, ◌^◌, ◌≤◌, ◌<◌, ◌≡◌, refl, true, false, some, List, ◌∷◌, ◌++◌, arith,
  length, length-append, read_span-take, take-append, drop-append, join, ltb,
}
use minimal_mpegts_std_impl.Pes.Stamps.{stamp_bytes, extract_timestamp-stamp_bytes}
use minimal_mpegts_std_impl.Pes.Header.{
  PesHeader, new_pes_header, get_header_size, verify_start_code, lacks_optional_fields, parse_dts,
  parse_stamps, parse_optional, parse_fixed, parse_header,
}
use minimal_mpegts_std_impl.Pes.Packet.{new_pes_packet, parse_payload, parse_packet}

-- A header with both stamps and `n` bytes of stuffing, and no other flag.
abbrev pub stamped_header : ℕ → ℕ → ℕ → ℕ → ℕ → PesHeader
stamped_header id packet_length pts dts n = record new_pes_header {
  start_code = 0x000001;
  stream_id = id;
  packet_length = packet_length;
  has_optional_fields = true;
  pts_dts_flags = 3;
  has_pts = true;
  has_dts = true;
  header_data_length = 10 + n;
  pts = some (record { value = pts });
  dts = some (record { value = dts });
}

-- Its bytes up to the stuffing.
abbrev pub stamped_bytes : ℕ → ℕ → ℕ → ℕ → ℕ → List ℕ → List ℕ
stamped_bytes id packet_length pts dts n behind =
    0
    ∷ 0
    ∷ 1
    ∷ id
    ∷ (packet_length / 256)
    ∷ (packet_length % 256)
    ∷ 0x80
    ∷ 0xC0
    ∷ (10 + n)
    ∷ (stamp_bytes 3 pts ++ (stamp_bytes 1 dts ++ behind))

parse_header-stamped_bytes :
    (id len pts dts n total : ℕ) (behind : List ℕ)
    → lacks_optional_fields id ≡ false
    → pts < 2 ^ 33
    → dts < 2 ^ 33
    → 19 + n ≤ total
    → parse_header (some (stamped_bytes id len pts dts n behind)) total new_pes_header
      ≡ some (true, stamped_header id len pts dts n)
unfolding parse_header parse_fixed parse_optional parse_stamps parse_dts verify_start_code
parse_header-stamped_bytes id len pts dts n total behind l hp hd h =
    let six : ltb total 6 ≡ false = ground arith in
    let nine : ltb total 9 ≡ false = ground arith in
    let all : ltb total (9 + (10 + n)) ≡ false = ground arith in
    let p1 : ltb total 14 ≡ false = ground arith in
    let p2 : ltb total 19 ≡ false = ground arith in
    let e : join (len / 256) 8 (len % 256) ≡ len = ground arith in
    let t1 = extract_timestamp-stamp_bytes 3 pts (stamp_bytes 1 dts ++ behind) (omega arith) hp in
    let t2 = extract_timestamp-stamp_bytes 1 dts behind (omega arith) hd in
    rw (six, l, nine, all, p1, t1, p2, t2, e) refl

-- `parsePacket` on the bytes of a packet with both time stamps, of a stream whose packets have
-- optional fields, gives the header with the two 33-bit stamps and the payload back: the stuffing
-- behind the stamps is skipped, and nothing behind the packet is read.
pub parse_packet-stamped_bytes :
    (id len pts dts : ℕ) (stuffing payload rest : List ℕ)
    → lacks_optional_fields id ≡ false
    → pts < 2 ^ 33
    → dts < 2 ^ 33
    → parse_packet
        (stamped_bytes id len pts dts (length stuffing) (stuffing ++ (payload ++ rest)))
        (19 + length stuffing + length payload)
        new_pes_packet
      ≡ some (
        true,
        record {
          header = stamped_header id len pts dts (length stuffing);
          payload = payload;
          complete = true;
        },
      )
unfolding parse_packet parse_payload get_header_size
parse_packet-stamped_bytes id len pts dts stuffing payload rest l hp hd =
    let n = length stuffing in
    let total = 19 + n + length payload in
    let h =
      parse_header-stamped_bytes id len pts dts n total (stuffing ++ (payload ++ rest)) l hp hd
        (omega arith) in
    let inside : ltb total (9 + (10 + n)) ≡ false = ground arith in
    let size : total - (9 + (10 + n)) ≡ length payload = omega arith in
    let d : 9 + (10 + n)
        ≡ suc (
            suc (
              suc (
                suc (
                  suc (
                    suc (
                      suc (
                        suc (
                          suc
                            (suc (suc (suc (suc (suc (suc (suc (suc (suc (suc n)))))))))))))))))) =
      omega arith in
    let room : length payload ≤ length (payload ++ rest) =
      omega (arith, length-append payload rest) in
    rw
      (
        h,
        inside,
        size,
        d,
        drop-append stuffing (payload ++ rest),
        read_span-take (payload ++ rest) (length payload) room,
        take-append payload rest,
      )
      refl
