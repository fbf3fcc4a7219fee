-- ===== src/Packet/Safety.antt =====
-- Parsing a packet never reads outside 188 bytes of memory, and what it accepts lies inside them.
use minimal_mpegts_std_impl.Prelude.{
  ℕ, ◌+◌, ◌-◌, ◌≤◌, ◌<◌, ◌≡◌, refl, Bool, true, false, Option, none, some, List, arith, read-byte,
  Bool-cases, Returns, byte-lt, sym, IsBytes, Returns->>=, read, length, byte, drop, if◌then◌else◌,
  inl, inr, ◌==◌,
}
use minimal_mpegts_std_impl.Packet.{
  TsPacketHeader, TsAdaptationField, TsPacket, parse_header, header_of_bytes, header_ok, set_flags,
  skip_optional, parse_private, parse_flags, parse_adaptation_field, parse_body, set_payload, parse,
  announces_adaptation, new_packet, new_header, new_adaptation_field,
}

parse_header_lem :
    (h : TsPacketHeader) (p : List ℕ)
    → 4 ≤ length p
    → parse_header h p ≡ (
        if byte p 0 == 0x47
        then some (
          header_ok (
              header_of_bytes (record h { sync_byte = byte p 0 }) (byte p 1) (byte p 2) (byte p 3)),
          header_of_bytes (record h { sync_byte = byte p 0 }) (byte p 1) (byte p 2) (byte p 3),
        )
        else some (false, record h { sync_byte = byte p 0 }))
unfolding parse_header
parse_header_lem h p n = ground (arith, read-byte p 0, read-byte p 1, read-byte p 2, read-byte p 3)

skip_optional-le :
    (af : TsAdaptationField) (field_end pos pos' : ℕ)
    → pos ≤ field_end
    → skip_optional af field_end pos ≡ some pos'
    → (pos ≤ pos') × (pos' ≤ field_end)
unfolding skip_optional
skip_optional-le af field_end pos pos' h e = ground arith

-- A pointer to `n` bytes, all of them before `limit` in the packet.
pub record Within (p : List ℕ) (limit : ℕ) (pointer : Option (List ℕ)) (n : ℕ) : Type 0 where
  pub from : ℕ
  pub points : pointer ≡ some (drop from p)
  pub fits : from + n ≤ limit

-- What the parser of the part behind the length byte leaves: the length and the clock fields that
-- it found, and on success private data inside the field.
abbrev FieldOk : List ℕ → ℕ → TsAdaptationField → Bool × TsAdaptationField → Type 0
FieldOk p field_end af r =
    (r.1.length ≡ af.length)
    × (r.1.pcr_base ≡ af.pcr_base)
    × (r.1.pcr_extension ≡ af.pcr_extension)
    × (r.0 ≡ true
        → r.1.transport_private_data_flag ≡ true
        → Within p field_end r.1.private_data r.1.private_data_length)

module _ (af : TsAdaptationField) (p : List ℕ) (field_end : ℕ) (room : field_end ≤ length p) where
  parse_private_ok : (pos : ℕ) → Returns (parse_private af p field_end pos) (FieldOk p field_end af)
  unfolding parse_private
  parse_private_ok pos = ground (arith, read-byte p pos)

  after_optional : Option ℕ → Option (Bool × TsAdaptationField)
  after_optional o = elim o [ none ↦ some (false, af) | some q ↦ parse_private af p field_end q ]

  after_optional_ok : (o : Option ℕ) → Returns (after_optional o) (FieldOk p field_end af)
  unfolding after_optional
  after_optional_ok none = (refl, refl, refl, λ e. cc)
  after_optional_ok (some q) = parse_private_ok q

parse_flags_ok :
    (af : TsAdaptationField) (p : List ℕ) (field_end pos : ℕ)
    → pos < field_end
    → field_end ≤ length p
    → Returns (parse_flags af p field_end pos) (FieldOk p field_end af)
unfolding parse_flags after_optional
parse_flags_ok af p field_end pos l h =
    let e : read p pos ≡ some (byte p pos) = read-byte p pos (omega arith) in
    rw (e, parse_flags) (after_optional_ok (set_flags af (byte p pos)) p field_end h _)

-- The result of the whole adaptation field, which starts at byte 4.
abbrev AdaptationOk : List ℕ → TsAdaptationField → Bool × TsAdaptationField → Type 0
AdaptationOk p af r =
    (r.1.pcr_base ≡ af.pcr_base)
    × (r.1.pcr_extension ≡ af.pcr_extension)
    × (r.0 ≡ true → r.1.length ≤ 183)
    × (r.0 ≡ true
        → r.1.transport_private_data_flag ≡ true
        → Within p (5 + r.1.length) r.1.private_data r.1.private_data_length)

parse_adaptation_field_ok :
    (af : TsAdaptationField) (p : List ℕ)
    → af.transport_private_data_flag ≡ false
    → 188 ≤ length p
    → Returns (parse_adaptation_field af p 4) (AdaptationOk p af)
unfolding parse_adaptation_field
parse_adaptation_field_ok af p off h =
    ground (
      arith,
      read-byte p 4,
      parse_flags_ok (record af { length = byte p 4 }) p (4 + 1 + byte p 4) 5,
    )

-- What `parse` accepts: the header fields are in range, the payload ends at byte 188 and begins
-- behind the header, and private data lies before it.
pub record Parsed (p : List ℕ) (k : TsPacket) : Type 0 where
  pub starts : byte p 0 ≡ 0x47
  pub is_valid : k.valid ≡ true
  pub pid_bits : k.header.pid < 8192
  pub cc_bits : k.header.continuity_counter < 16
  pub payload_size_le : k.payload_size ≤ 184
  pub payload : k.has_payload ≡ true → k.payload_data ≡ some (drop (188 - k.payload_size) p)
  pub no_payload : k.has_payload ≡ false → k.payload_size ≡ 0
  pub private :
      k.has_adaptation ≡ true
      → k.adaptation_field.transport_private_data_flag ≡ true
      → Within p
          (188 - k.payload_size)
          k.adaptation_field.private_data
          k.adaptation_field.private_data_length

Within-le :
    (p : List ℕ) (m n : ℕ) (q : Option (List ℕ)) (k : ℕ) → m ≤ n → Within p m q k → Within p n q k
Within-le p m n q k h w = record { from = w.from; points = w.points; fits = omega arith }

-- The last step of `parse`, from any packet with a good header and adaptation field.
set_payload-Parsed :
    (k : TsPacket) (p : List ℕ) (off : ℕ)
    → byte p 0 ≡ 0x47
    → k.header.pid < 8192
    → k.header.continuity_counter < 16
    → k.has_payload ≡ false
    → k.payload_size ≡ 0
    → 4 ≤ off
    → off ≤ 188
    → (k.has_adaptation ≡ true
        → k.adaptation_field.transport_private_data_flag ≡ true
        → Within p off k.adaptation_field.private_data k.adaptation_field.private_data_length)
    → Parsed p (set_payload k p off)
set_payload-Parsed k p off sync pid cc0 fresh size lo hi priv = record {
  starts = ground arith;
  is_valid = ground arith;
  pid_bits = ground arith;
  cc_bits = ground arith;
  payload_size_le = ground arith;
  payload = ground arith;
  no_payload = ground arith;
  private = ground (
    arith,
    Within-le p off 188 k.adaptation_field.private_data k.adaptation_field.private_data_length,
    Within-le p off (188 - (188 - off)) k.adaptation_field.private_data
        k.adaptation_field.private_data_length,
  );
}

-- The result of `parse`: its truth value is the packet's `valid_`, an accepted packet is laid out
-- as `Parsed` says, and the clock fields have their initial values.
abbrev pub ParseOk : List ℕ → Bool × TsPacket → Type 0
ParseOk p r =
    (r.0 ≡ r.1.valid)
    × (r.1.adaptation_field.pcr_base ≡ 0)
    × (r.1.adaptation_field.pcr_extension ≡ 0)
    × (r.0 ≡ true → Parsed p r.1)

accept_ok :
    (k : TsPacket) (p : List ℕ) (off : ℕ)
    → k.adaptation_field.pcr_base ≡ 0
    → k.adaptation_field.pcr_extension ≡ 0
    → Parsed p (set_payload k p off)
    → ParseOk p (true, set_payload k p off)
accept_ok k p off base ext parsed = (sym parsed.is_valid, ground arith, ground arith, λ _. parsed)

-- The branches of `parse_body` behind the adaptation field.
module _ (h : TsPacketHeader) (p : List ℕ) where
  with_field : Bool × TsAdaptationField → TsPacket
  with_field r = record new_packet { header = h; has_adaptation = true; adaptation_field = r.1 }

  module _ (sync : byte p 0 ≡ 0x47) (pid : h.pid < 8192) (cc0 : h.continuity_counter < 16) where
    behind_field_ok :
        (r : Bool × TsAdaptationField)
        → AdaptationOk p new_adaptation_field r
        → Returns
            (if r.0
              then some (true, set_payload (with_field r) p (4 + (1 + r.1.length)))
              else some (false, record (with_field r) { valid = false }))
            (ParseOk p)
    unfolding with_field
    behind_field_ok (true, af) (b, e, l, w) =
        accept_ok (record new_packet { header = h; has_adaptation = true; adaptation_field = af }) p
          (4 + (1 + af.length)) b e
          (set_payload-Parsed
            (record new_packet { header = h; has_adaptation = true; adaptation_field = af }) p
            (4 + (1 + af.length)) sync pid cc0 refl refl (omega arith) (omega (arith, l refl))
            (λ _ t. Within-le p (5 + af.length) _ _ _ (omega arith) (w refl t)))
    behind_field_ok (false, af) (b, e, l, w) = (refl, b, e, λ x. cc)

    -- The body of a fresh packet whose header has been read.
    parse_body_ok :
        188 ≤ length p → Returns (parse_body (record new_packet { header = h }) p) (ParseOk p)
    unfolding parse_body with_field
    parse_body_ok n = elim (Bool-cases (announces_adaptation h.adaptation_control)) [
      | inl e ↦
          rw (e, parse_body)
            (Returns->>= _ _ (parse_adaptation_field new_adaptation_field p 4) _
              (parse_adaptation_field_ok new_adaptation_field p refl n) behind_field_ok)
      | inr e ↦
          rw (e, parse_body)
            (accept_ok (record new_packet { header = h }) p 4 refl refl
              (set_payload-Parsed (record new_packet { header = h }) p 4 sync pid cc0 refl refl
                (omega arith) (omega arith) (λ x. cc)))
    ]

parse_header_ok :
    (h : TsPacketHeader) (p : List ℕ)
    → 4 ≤ length p
    → IsBytes p
    → Returns
        (parse_header h p)
        (λ r. r.0 ≡ true → (byte p 0 ≡ 0x47) × (r.1.pid < 8192) × (r.1.continuity_counter < 16))
parse_header_ok h p n bytes =
    rw (parse_header_lem h p n)
      (ground (arith, byte-lt p 1 bytes, byte-lt p 2 bytes, byte-lt p 3 bytes))

-- The branches of `parse` behind the header.
behind_header_ok :
    (p : List ℕ) (r : Bool × TsPacketHeader)
    → 188 ≤ length p
    → (r.0 ≡ true → (byte p 0 ≡ 0x47) × (r.1.pid < 8192) × (r.1.continuity_counter < 16))
    → Returns
        (if r.0
          then parse_body (record new_packet { header = r.1 }) p
          else some (false, record new_packet { header = r.1 }))
        (ParseOk p)
behind_header_ok p (true, h) n ok = let f = ok refl in parse_body_ok h p f.0 f.1 f.2 n
behind_header_ok p (false, h) n ok = (refl, refl, refl, λ x. cc)

-- On any memory of at least 188 bytes `TSPacket::parse` stays inside it and returns whether the
-- packet is valid. What it accepts starts with the sync byte and has a 13-bit PID and a 4-bit
-- continuity counter; its payload has at most 184 bytes and ends at byte 188, and its private data
-- lies before the payload. Whatever the bytes are, the clock fields of the adaptation field stay 0.
pub parse_ok :
    (p : List ℕ) → 188 ≤ length p → IsBytes p → Returns (parse new_packet (some p)) (ParseOk p)
unfolding parse
parse_ok p n bytes =
    Returns->>= _ _ (parse_header new_header p) _ (parse_header_ok new_header p (omega arith) bytes)
      λ r f. behind_header_ok p r n f
