-- ===== src/Pes/Bounds.antt =====
-- The PES parsers stay inside their memory.
use minimal_mpegts_std_impl.Prelude.{
  ℕ, ◌+◌, ◌-◌, ◌≤◌, ◌≡◌, refl, Bool, true, some, List, arith, Returns, Returns->>=, Returns-if,
  Returns-mono, read, byte, read-byte, length, length-drop, drop, take, read_span,
  read_span_returns, ltb,
}
use minimal_mpegts_std_impl.Pes.Timestamp.{extract_timestamp}
use minimal_mpegts_std_impl.Pes.Header.{
  PesHeader, verify_start_code, parse_header, parse_fixed, parse_optional, parse_stamps, parse_dts,
  lacks_optional_fields, get_header_size, set_optional,
}
use minimal_mpegts_std_impl.Pes.Packet.{PesPacket, parse_packet, parse_payload}

extract_timestamp_returns : (p : List ℕ) → 5 ≤ length p → Returns (extract_timestamp p) (λ _. Unit)
unfolding extract_timestamp
extract_timestamp_returns p h =
    ground (arith, read-byte p 0, read-byte p 1, read-byte p 2, read-byte p 3, read-byte p 4)

verify_start_code_returns :
    (p : List ℕ)
    → 3 ≤ length p
    → Returns
        (verify_start_code p)
        (λ b. b ≡ true → (byte p 0 ≡ 0) × (byte p 1 ≡ 0) × (byte p 2 ≡ 1))
unfolding verify_start_code
verify_start_code_returns p h = ground (arith, read-byte p 0, read-byte p 1, read-byte p 2)

-- An accepted header ends inside the memory.
abbrev pub HeaderIn : ℕ → Bool × PesHeader → Type 0
HeaderIn n r = r.0 ≡ true → get_header_size r.1 ≤ n

module _ (p : List ℕ) (n : ℕ) (room : n ≤ length p) where
  parse_dts_returns :
      (i : ℕ) (h : PesHeader) → get_header_size h ≤ n → Returns (parse_dts p n i h) (HeaderIn n)
  unfolding parse_dts get_header_size
  parse_dts_returns i h l =
      Returns-if (HeaderIn n) h.has_dts _ _
        (λ _.
          Returns-if (HeaderIn n) (ltb n (i + 5)) _ _ (λ _ x. cc)
            λ fits.
              Returns->>= (λ _. Unit) (HeaderIn n) (extract_timestamp (drop i p)) _
                (extract_timestamp_returns (drop i p) (ground (arith, length-drop i p))) λ t _ _. l)
        (λ _ _. l)

  parse_stamps_returns :
      (h : PesHeader) → get_header_size h ≤ n → Returns (parse_stamps p n h) (HeaderIn n)
  unfolding parse_stamps get_header_size
  parse_stamps_returns h l =
      Returns-if (HeaderIn n) h.has_pts _ _
        (λ _.
          Returns-if (HeaderIn n) (ltb n (9 + 5)) _ _ (λ _ x. cc)
            λ fits.
              Returns->>= (λ _. Unit) (HeaderIn n) (extract_timestamp (drop 9 p)) _
                (extract_timestamp_returns (drop 9 p) (ground (arith, length-drop 9 p)))
                λ t _. parse_dts_returns 14 _ l)
        (λ _. parse_dts_returns 9 h l)

  parse_optional_returns :
      (h : PesHeader) → h.has_optional_fields ≡ true → Returns (parse_optional p n h) (HeaderIn n)
  unfolding parse_optional get_header_size
  parse_optional_returns h o =
      Returns-if (HeaderIn n) (ltb n 9) _ _ (λ _ x. cc)
        λ long.
          let e6 : read p 6 ≡ some (byte p 6) = read-byte p 6 (ground arith) in
          let e7 : read p 7 ≡ some (byte p 7) = read-byte p 7 (ground arith) in
          let e8 : read p 8 ≡ some (byte p 8) = read-byte p 8 (ground arith) in
          rw (e6, e7, e8)
            (Returns-if (HeaderIn n) (ltb n (9 + byte p 8)) _ _ (λ _ x. cc)
              λ fits.
                parse_stamps_returns (set_optional h (byte p 6) (byte p 7) (byte p 8))
                  (ground arith))

  parse_fixed_returns : (h : PesHeader) → 6 ≤ n → Returns (parse_fixed p n h) (HeaderIn n)
  unfolding parse_fixed get_header_size
  parse_fixed_returns h six =
      let e3 : read p 3 ≡ some (byte p 3) = read-byte p 3 (omega arith) in
      let e4 : read p 4 ≡ some (byte p 4) = read-byte p 4 (omega arith) in
      let e5 : read p 5 ≡ some (byte p 5) = read-byte p 5 (omega arith) in
      rw (e3, e4, e5)
        (Returns-if (HeaderIn n) (lacks_optional_fields (byte p 3)) _ _ (λ lacks _. ground arith)
          λ has. parse_optional_returns _ (ground arith))

  -- On any memory of `n` bytes `PESParser::parseHeader` reads nothing behind them, and the size of a
  -- header that it accepts is at most `n`.
  pub parse_pes_header_returns : (h : PesHeader) → Returns (parse_header (some p) n h) (HeaderIn n)
  unfolding parse_header
  parse_pes_header_returns h =
      Returns-if (HeaderIn n) (ltb n 6) _ _ (λ _ x. cc)
        λ six.
          Returns->>= _ (HeaderIn n) (verify_start_code p) _
            (verify_start_code_returns p (ground arith))
            λ b _.
              Returns-if (HeaderIn n) b _ _ (λ _. parse_fixed_returns h (ground arith)) (λ _ x. cc)

  parse_payload_returns :
      (k : PesPacket)
      → get_header_size k.header ≤ n
      → Returns (parse_payload p n k) (λ r.
        (r.0 ≡ true)
        × (r.1 ≡ record k {
          payload = take (n - get_header_size k.header) (drop (get_header_size k.header) p);
          complete = true;
        }))
  unfolding parse_payload
  parse_payload_returns k l =
      Returns-if _ (ltb n (get_header_size k.header)) _ _ (λ short. absurd (ground arith))
        λ _.
          Returns->>= _ _
            (read_span (drop (get_header_size k.header) p) (n - get_header_size k.header)) _
            (read_span_returns _ _ (omega (arith, length-drop (get_header_size k.header) p)))
            λ bytes e. rw e (refl, refl)

  -- What `parsePacket` accepts: the payload is all that follows the header.
  abbrev pub PacketIn : Bool × PesPacket → Type 0
  PacketIn r =
      r.0 ≡ true
      → (get_header_size r.1.header ≤ n)
        × (r.1.payload
            ≡ take (n - get_header_size r.1.header) (drop (get_header_size r.1.header) p))
        × (r.1.complete ≡ true)

  -- On any memory of `n` bytes `PESParser::parsePacket` reads nothing behind them. In a packet that
  -- it accepts the header ends inside the memory, and the payload is every byte from the header's
  -- end to byte `n`.
  pub parse_packet_returns : (k : PesPacket) → Returns (parse_packet p n k) PacketIn
  unfolding parse_packet
  parse_packet_returns k =
      Returns->>= (HeaderIn n) PacketIn (parse_header (some p) n k.header) _
        (parse_pes_header_returns k.header)
        λ r h.
          Returns-if PacketIn r.0 _ _
            (λ accepted.
              Returns-mono _ PacketIn (parse_payload p n (record k { header = r.1 }))
                (parse_payload_returns (record k { header = r.1 }) (h accepted))
                λ q e _. rw (e.1) (h accepted, refl, refl))
            (λ _ x. cc)
