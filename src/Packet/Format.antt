-- ===== src/Packet/Format.antt =====
-- The packet format of ISO/IEC 13818-1 written out, and parsed back.
use minimal_mpegts_std_impl.Prelude.{
  ℕ, suc, ◌+◌, ◌*◌, ◌/◌, ◌%◌, ◌≤◌, ◌<◌, ◌≡◌, ◌≢◌, refl, Bool, true, false, some, List, [], ◌∷◌,
  ◌++◌, arith, length, drop, drop-append, bit, ◌∙◌, ap,
}
use minimal_mpegts_std_impl.Types.{
  AdaptationFieldControl, reserved, payload_only, adaptation_only, adaptation_payload,
}
use minimal_mpegts_std_impl.Packet.{
  TsPacketHeader, TsAdaptationField, new_packet, new_header, new_adaptation_field, parse,
  parse_header, parse_body, parse_adaptation_field, parse_flags, parse_private, skip_optional,
  control_of_bits, header_of_bytes, header_ok,
}

abbrev pub flag : Bool → ℕ
flag true = 1
flag false = 0

abbrev pub control_bits : AdaptationFieldControl → ℕ
control_bits reserved = 0
control_bits payload_only = 1
control_bits adaptation_only = 2
control_bits adaptation_payload = 3

-- The header fields that the four bytes can carry, in a packet without a transport error.
pub record IsHeader (h : TsPacketHeader) : Type 0 where
  pub sync : h.sync_byte ≡ 0x47
  pub no_error : h.transport_error_indicator ≡ false
  pub pid_bits : h.pid < 8192
  pub scrambling_bits : h.scrambling_control < 4
  pub cc_bits : h.continuity_counter < 16

abbrev pub byte1 : TsPacketHeader → ℕ
byte1 h = flag h.payload_unit_start * 64 + flag h.transport_priority * 32 + h.pid / 256

abbrev pub byte3 : TsPacketHeader → ℕ
byte3 h = h.scrambling_control * 64 + control_bits h.adaptation_control * 16 + h.continuity_counter

abbrev pub header_bytes : TsPacketHeader → List ℕ
header_bytes h = 0x47 ∷ byte1 h ∷ (h.pid % 256) ∷ byte3 h ∷ []

-- The fields come back out of the bytes.
byte1_bits :
    (a b : Bool) (n : ℕ)
    → n < 32
    → (bit (flag a * 64 + flag b * 32 + n) 7 ≡ false)
      × (bit (flag a * 64 + flag b * 32 + n) 6 ≡ a)
      × (bit (flag a * 64 + flag b * 32 + n) 5 ≡ b)
      × ((flag a * 64 + flag b * 32 + n) % 32 ≡ n)
byte1_bits true true n h = ground arith
byte1_bits true false n h = ground arith
byte1_bits false true n h = ground arith
byte1_bits false false n h = ground arith

control_of_bits-control_bits : (c : AdaptationFieldControl) → control_of_bits (control_bits c) ≡ c
unfolding control_of_bits
control_of_bits-control_bits reserved = refl
control_of_bits-control_bits payload_only = refl
control_of_bits-control_bits adaptation_only = refl
control_of_bits-control_bits adaptation_payload = refl

control_bits-lt : (c : AdaptationFieldControl) → control_bits c < 4
control_bits-lt reserved = omega arith
control_bits-lt payload_only = omega arith
control_bits-lt adaptation_only = omega arith
control_bits-lt adaptation_payload = omega arith

byte3_fields :
    (h : TsPacketHeader)
    → IsHeader h
    → (byte3 h / 64 % 4 ≡ h.scrambling_control)
      × (control_of_bits (byte3 h / 16 % 4) ≡ h.adaptation_control)
      × (byte3 h % 16 ≡ h.continuity_counter)
byte3_fields h v =
    let b : control_bits h.adaptation_control < 4 = control_bits-lt h.adaptation_control in
    let s : h.scrambling_control < 4 = v.scrambling_bits in
    let c : h.continuity_counter < 16 = v.cc_bits in
    let e : byte3 h / 16 % 4 ≡ control_bits h.adaptation_control = omega arith in
    (omega arith, rw e (control_of_bits-control_bits h.adaptation_control), omega arith)

header_of_bytes_lem :
    (h : TsPacketHeader)
    → IsHeader h
    → header_of_bytes (record new_header { sync_byte = 0x47 }) (byte1 h) (h.pid % 256) (byte3 h) ≡ h
header_of_bytes_lem h v =
    ground
      (arith, byte1_bits h.payload_unit_start h.transport_priority (h.pid / 256), byte3_fields h v)

header_ok_lem :
    (h : TsPacketHeader) → IsHeader h → h.adaptation_control ≢ reserved → header_ok h ≡ true
header_ok_lem h v n = let e : h.transport_error_indicator ≡ false = v.no_error in ground arith

-- The header parser reads a header's four bytes back, whatever follows.
pub parse_header-header_bytes :
    (h : TsPacketHeader) (rest : List ℕ)
    → IsHeader h
    → h.adaptation_control ≢ reserved
    → parse_header new_header (header_bytes h ++ rest) ≡ some (true, h)
unfolding parse_header
parse_header-header_bytes h rest v n =
    ap (λ (x : TsPacketHeader). some (header_ok x, x)) (header_of_bytes_lem h v)
    ∙ ap (λ (b : Bool). some (b, h)) (header_ok_lem h v n)

-- A packet of header and payload alone parses into that header and a pointer at that payload.
pub parse-payload_packet :
    (h : TsPacketHeader) (payload rest : List ℕ)
    → IsHeader h
    → h.adaptation_control ≡ payload_only
    → length payload ≡ 184
    → parse new_packet (some (header_bytes h ++ (payload ++ rest)))
      ≡ some (
        true,
        record new_packet {
          header = h;
          has_payload = true;
          payload_data = some (payload ++ rest);
          payload_size = 184;
          valid = true;
        },
      )
unfolding parse parse_body
parse-payload_packet h payload rest v c n =
    let e : parse_header new_header (header_bytes h ++ (payload ++ rest)) ≡ some (true, h) =
      parse_header-header_bytes h (payload ++ rest) v (λ r. cc) in
    rw (e, parse) (ground arith)

-- The adaptation field that carries private data and none of the optional fields before it.
abbrev pub private_flags : Bool → Bool → Bool → Bool → ℕ
private_flags discontinuity random_access priority extension =
    flag discontinuity * 128 + flag random_access * 64 + flag priority * 32 + 2 + flag extension

module _ (discontinuity random_access priority extension : Bool) where
  abbrev pub private_field : List ℕ → List ℕ → TsAdaptationField
  private_field private tail = record new_adaptation_field {
    length = 2 + length private;
    discontinuity_indicator = discontinuity;
    random_access_indicator = random_access;
    es_priority_indicator = priority;
    transport_private_data_flag = true;
    adaptation_extension_flag = extension;
    private_data_length = length private;
    private_data = some (private ++ tail);
  }

  abbrev pub private_bytes : List ℕ → List ℕ → List ℕ
  private_bytes private tail =
      (2 + length private)
      ∷ private_flags discontinuity random_access priority extension
      ∷ length private
      ∷ (private ++ tail)

  private_flags_bits :
      let f : ℕ = private_flags discontinuity random_access priority extension in
      (bit f 7 ≡ discontinuity)
      × (bit f 6 ≡ random_access)
      × (bit f 5 ≡ priority)
      × (bit f 4 ≡ false)
      × (bit f 3 ≡ false)
      × (bit f 2 ≡ false)
      × (bit f 1 ≡ true)
      × (bit f 0 ≡ extension)
  private_flags_bits = flags_bits discontinuity random_access priority extension
    where
      flags_bits :
          (a b c d : Bool)
          → let f : ℕ = private_flags a b c d in
            (bit f 7 ≡ a)
            × (bit f 6 ≡ b)
            × (bit f 5 ≡ c)
            × (bit f 4 ≡ false)
            × (bit f 3 ≡ false)
            × (bit f 2 ≡ false)
            × (bit f 1 ≡ true)
            × (bit f 0 ≡ d)
      flags_bits a b c d = ground arith

  drop_field :
      (h : TsPacketHeader) (private tail : List ℕ)
      → drop (4 + (1 + (2 + length private))) (header_bytes h ++ private_bytes private tail) ≡ tail
  drop_field h private tail =
      let e : 4 + (1 + (2 + length private))
          ≡ suc (suc (suc (suc (suc (suc (suc (length private))))))) =
        omega arith in
      rw e (drop-append private tail)

  parse_adaptation_field-private_bytes :
      (b0 b1 b2 b3 : ℕ) (private tail : List ℕ)
      → length private ≤ 181
      → parse_adaptation_field new_adaptation_field
          (b0 ∷ b1 ∷ b2 ∷ b3 ∷ private_bytes private tail)
          4
        ≡ some (true, private_field private tail)
  unfolding parse_adaptation_field parse_flags parse_private skip_optional
  parse_adaptation_field-private_bytes b0 b1 b2 b3 private tail h =
      ground (arith, private_flags_bits)

  -- A packet whose adaptation field carries private data and no clock reference or splice countdown
  -- parses into its header, the flags of that field, a pointer at the private data with its length,
  -- and a pointer at the payload, which takes up the rest of the 188 bytes.
  pub parse-private_packet :
      (h : TsPacketHeader) (private payload rest : List ℕ)
      → IsHeader h
      → h.adaptation_control ≡ adaptation_payload
      → length private + length payload ≡ 181
      → parse new_packet (some (header_bytes h ++ private_bytes private (payload ++ rest)))
        ≡ some (
          true,
          record {
            header = h;
            adaptation_field = private_field private (payload ++ rest);
            payload_data = some (payload ++ rest);
            payload_size = length payload;
            has_adaptation = true;
            has_payload = true;
            valid = true;
          },
        )
  unfolding parse parse_body
  parse-private_packet h private payload rest v c n =
      let e : parse_header new_header (header_bytes h ++ private_bytes private (payload ++ rest))
          ≡ some (true, h) =
        parse_header-header_bytes h (private_bytes private (payload ++ rest)) v (λ r. cc) in
      let f : parse_adaptation_field new_adaptation_field
            (header_bytes h ++ private_bytes private (payload ++ rest)) 4
          ≡ some (true, private_field private (payload ++ rest)) =
        parse_adaptation_field-private_bytes 0x47 (byte1 h) (h.pid % 256) (byte3 h) private
          (payload ++ rest) (omega arith) in
      let g : drop (4 + (1 + (2 + length private)))
            (header_bytes h ++ private_bytes private (payload ++ rest))
          ≡ payload ++ rest =
        drop_field h private (payload ++ rest) in
      rw (e, parse) (ground (arith, f, g))
