-- ===== src/Demuxer/Tiles.antt =====
-- An iteration's segments cover its data: what the packets carried, in order, each byte once.
use minimal_mpegts_std_impl.Prelude.{
  ℕ, ◌+◌, ◌≤◌, ◌<◌, ◌≡◌, refl, sym, ap, ap₂, ◌∙◌, ◌||◌, Bool, true, false, Option, none, some, List,
  [], ◌∷◌, ◌++◌, arith, Returns, Returns->>=, Returns-if, ◌>>=◌, Returns-mono, read_span,
  read_span_returns, take, length, length-append, length-take, ltb, ◌&&◌, not, ◌==◌, if◌then◌else◌,
}
use mathlib.Core.List.{append-nil, append_assoc}
use minimal_mpegts_std_impl.Types.{
  PayloadType, payload_normal, payload_private, PayloadSegment, IterationData,
}
use minimal_mpegts_std_impl.Packet.{TsPacket, get_private_data, get_private_data_length}
use minimal_mpegts_std_impl.Demuxer.Iteration.{
  append_segment, add_private, add_normal, check_discontinuity, extend_iteration,
  announces_discontinuity, next_cc,
}

-- The segments stand one behind the other from byte `start` to byte `end`, none of them empty.
abbrev pub Covers : ℕ → List PayloadSegment → ℕ → Type 0
Covers start [] stop = start ≡ stop
Covers start (s ∷ r) stop =
    (s.offset_in_stream ≡ start) × (0 < s.length) × Covers (start + s.length) r stop

abbrev pub Tiled : IterationData → Type 0
Tiled it = Covers 0 it.payloads (length it.payload_data)

pub Covers-snoc :
    (start : ℕ) (xs : List PayloadSegment) (stop : ℕ) (s : PayloadSegment) (stop' : ℕ)
    → Covers start xs stop
    → s.offset_in_stream ≡ stop
    → 0 < s.length
    → stop' ≡ stop + s.length
    → Covers start (xs ++ s ∷ []) stop'
Covers-snoc start [] stop s stop' h o l e = (omega arith, l, omega arith)
Covers-snoc start (x ∷ xs) stop s stop' h o l e =
    (h.0, h.1, Covers-snoc (start + x.length) xs stop s stop' h.2 o l e)

append_segment-Tiled :
    (it : IterationData) (t : PayloadType) (bytes : List ℕ) (n : ℕ)
    → Tiled it
    → 0 < n
    → length bytes ≡ n
    → Tiled (append_segment it t bytes n)
unfolding append_segment
append_segment-Tiled it t bytes n h l e =
    Covers-snoc 0 it.payloads (length it.payload_data) _ _ h refl l
      (omega (arith, length-append it.payload_data bytes))

-- A pointer that a read of `n` bytes may follow.
abbrev pub Readable : Option (List ℕ) → ℕ → Type 0
Readable none n = n ≡ 0
Readable (some p) n = n ≤ length p

-- The packet's pointers reach as far as its lengths say.
pub record IsUsable (k : TsPacket) : Type 0 where
  pub private : Readable (get_private_data k) (get_private_data_length k)
  pub payload : k.has_payload ≡ true → Readable k.payload_data k.payload_size

abbrev pub bytes_of : Option (List ℕ) → ℕ → List ℕ
bytes_of none n = []
bytes_of (some p) n = take n p

-- What a packet carries: its private data, then its payload.
abbrev pub private_of : TsPacket → List ℕ
private_of k = bytes_of (get_private_data k) (get_private_data_length k)

abbrev pub normal_of : TsPacket → List ℕ
normal_of k = if k.has_payload then bytes_of k.payload_data k.payload_size else []

-- The segment of bytes that are added at an offset: none for no bytes.
abbrev pub segment_of : PayloadType → ℕ → List ℕ → List PayloadSegment
segment_of t start [] = []
segment_of t start (b ∷ bytes) =
    record { type = t; pointer = none; length = length (b ∷ bytes); offset_in_stream = start } ∷ []

-- One kind of data added to an iteration: the bytes and their segment at its end, all else as before.
pub record Added (it : IterationData) (t : PayloadType) (bytes : List ℕ) (it' : IterationData)
    : Type 0 where
  pub tiled : Tiled it'
  pub segments_of : it'.payloads ≡ it.payloads ++ segment_of t (length it.payload_data) bytes
  pub data_of : it'.payload_data ≡ it.payload_data ++ bytes
  pub same_first : it'.first_cc ≡ it.first_cc
  pub same_last : it'.last_cc ≡ it.last_cc
  pub same_count : it'.packet_count ≡ it.packet_count
  pub same_flag : it'.discontinuity_detected ≡ it.discontinuity_detected
  pub same_start : it'.payload_unit_start_seen ≡ it.payload_unit_start_seen

segment_of_lem :
    (t : PayloadType) (start : ℕ) (bytes : List ℕ) (n : ℕ)
    → 0 < n
    → length bytes ≡ n
    → record { type = t; pointer = none; length = n; offset_in_stream = start } ∷ []
      ≡ segment_of t start bytes
segment_of_lem t start [] n l e = absurd (omega arith)
segment_of_lem t start (b ∷ bytes) n l e =
    ap (λ (m : ℕ). record { type = t; pointer = none; length = m; offset_in_stream = start } ∷ [])
      (sym e)

append_segment-Added :
    (it : IterationData) (t : PayloadType) (bytes : List ℕ) (n : ℕ)
    → Tiled it
    → 0 < n
    → length bytes ≡ n
    → Added it t bytes (append_segment it t bytes n)
unfolding append_segment
append_segment-Added it t bytes n h l e = record {
  tiled = append_segment-Tiled it t bytes n h l e;
  segments_of =
      ap (λ (x : List PayloadSegment). it.payloads ++ x)
        (segment_of_lem t (length it.payload_data) bytes n l e);
  data_of = refl;
  same_first = refl;
  same_last = refl;
  same_count = refl;
  same_flag = refl;
  same_start = refl;
}

take_length : (p : List ℕ) (n : ℕ) → n ≤ length p → length (take n p) ≡ n
take_length p n h = omega (arith, length-take n p)

Added-none : (it : IterationData) (t : PayloadType) → Tiled it → Added it t [] it
Added-none it t h = record {
  tiled = h;
  segments_of = sym (append-nil it.payloads);
  data_of = sym (append-nil it.payload_data);
  same_first = refl;
  same_last = refl;
  same_count = refl;
  same_flag = refl;
  same_start = refl;
}

-- Adding data through a pointer: nothing for no bytes, otherwise one segment.
add_through :
    (it : IterationData) (t : PayloadType) (q : Option (List ℕ)) (n : ℕ)
    → Tiled it
    → Readable q n
    → Returns
        (if ltb 0 n
          then (q >>= λ p. read_span p n >>= λ bytes. some (append_segment it t bytes n))
          else some it)
        (Added it t (bytes_of q n))
add_through it t none n h r =
    Returns-if _ (ltb 0 n) _ _ (λ pos. absurd (ground arith)) (λ _. Added-none it t h)
add_through it t (some p) n h r =
    Returns-if _ (ltb 0 n) _ _
      (λ pos. Returns->>= _ _ (read_span p n) _ (read_span_returns p n r) λ bytes e.
        rw e (append_segment-Added it t (take n p) n h (ground arith) (take_length p n r)))
      (λ neg. let z : n ≡ 0 = ground arith in rw z (Added-none it t h))

add_private_returns :
    (it : IterationData) (k : TsPacket)
    → Tiled it
    → IsUsable k
    → Returns (add_private it k) (Added it payload_private (private_of k))
unfolding add_private
add_private_returns it k h u =
    add_through it payload_private (get_private_data k) (get_private_data_length k) h u.private

add_normal_cases :
    (it : IterationData) (k : TsPacket) (b : Bool)
    → (b ≡ true → Readable k.payload_data k.payload_size)
    → Tiled it
    → Returns
        (if b && ltb 0 k.payload_size
          then (k.payload_data >>= λ p. read_span p k.payload_size >>= λ bytes.
              some (append_segment it payload_normal bytes k.payload_size))
          else some it)
        (Added it payload_normal (if b then bytes_of k.payload_data k.payload_size else []))
add_normal_cases it k true r h =
    add_through it payload_normal k.payload_data k.payload_size h (r refl)
add_normal_cases it k false r h = Added-none it payload_normal h

add_normal_returns :
    (it : IterationData) (k : TsPacket)
    → Tiled it
    → IsUsable k
    → Returns (add_normal it k) (Added it payload_normal (normal_of k))
unfolding add_normal
add_normal_returns it k h u = add_normal_cases it k k.has_payload u.payload h

-- The flag that the discontinuity check leaves.
abbrev pub flagged : Bool → Option ℕ → TsPacket → Bool
flagged before none k = before
flagged before (some last) k =
    before || (not (k.header.continuity_counter == next_cc last) && announces_discontinuity k)

-- What one packet does to the iteration of its PID.
pub record Extended (it : IterationData) (last : Option ℕ) (k : TsPacket) (it' : IterationData)
    : Type 0 where
  pub tiled : Tiled it'
  pub data_of : it'.payload_data ≡ it.payload_data ++ (private_of k ++ normal_of k)
  pub segments_of :
      it'.payloads
      ≡ it.payloads
        ++ (segment_of payload_private (length it.payload_data) (private_of k)
            ++ segment_of payload_normal
                (length it.payload_data + length (private_of k))
                (normal_of k))
  pub first_kept : it'.first_cc ≡ it.first_cc
  pub last_set : it'.last_cc ≡ k.header.continuity_counter
  pub counted : it'.packet_count ≡ it.packet_count + 1
  pub flag_of : it'.discontinuity_detected ≡ flagged it.discontinuity_detected last k
  pub start_kept : it'.payload_unit_start_seen ≡ it.payload_unit_start_seen

check_discontinuity_lem :
    (it : IterationData) (last : Option ℕ) (k : TsPacket)
    → check_discontinuity it last k
      ≡ record it { discontinuity_detected = flagged it.discontinuity_detected last k }
unfolding check_discontinuity
check_discontinuity_lem it none k = refl
check_discontinuity_lem it (some last) k = ground arith

-- A packet with readable data extends its iteration by exactly the bytes that it carries, private
-- data first, and by one segment for each kind that it carries, with that kind, length and offset,
-- so that the segments cover the iteration's data without gap or overlap; the first counter and the
-- start flag stay, the last counter is the packet's, the packet is counted, and the discontinuity
-- flag is raised exactly when the counter does not follow the last one seen and the packet announces
-- a discontinuity.
pub extend_iteration_returns :
    (it : IterationData) (last : Option ℕ) (k : TsPacket)
    → Tiled it
    → IsUsable k
    → Returns (extend_iteration it last k) (Extended it last k)
unfolding extend_iteration
extend_iteration_returns it last k h u =
    rw (check_discontinuity_lem, extend_iteration)
      (Returns->>= _ _ (add_private _ k) _ (add_private_returns _ k h u) λ it1 a1.
        Returns-mono _ _ (add_normal it1 k) (add_normal_returns it1 k a1.tiled u) λ it2 a2. record {
          tiled = a2.tiled;
          segments_of =
              let l : length it1.payload_data ≡ length it.payload_data + length (private_of k) =
                omega (
                  arith,
                  ap (λ (x : List ℕ). length x) a1.data_of,
                  length-append it.payload_data (private_of k),
                ) in
              a2.segments_of
              ∙ ap₂
                  (λ (x : List PayloadSegment) (n : ℕ).
                    x ++ segment_of payload_normal n (normal_of k))
                  a1.segments_of l
              ∙ append_assoc it.payloads _ _;
          data_of =
              a2.data_of
              ∙ ap (λ l. l ++ normal_of k) a1.data_of
              ∙ append_assoc it.payload_data (private_of k) (normal_of k);
          first_kept = a2.same_first ∙ a1.same_first;
          last_set = a2.same_last ∙ a1.same_last;
          counted = a2.same_count ∙ a1.same_count;
          flag_of = a2.same_flag ∙ a1.same_flag;
          start_kept = a2.same_start ∙ a1.same_start;
        })
