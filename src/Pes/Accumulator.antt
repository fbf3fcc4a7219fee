-- ===== src/Pes/Accumulator.antt =====
-- `PESAccumulator`: PES packets assembled from packet payloads.
use minimal_mpegts_std_impl.Prelude.{
  ℕ, ◌+◌, ◌==◌, ltb, leb, if◌then◌else◌, Bool, true, false, not, ◌&&◌, Option, none, some, List, [],
  ◌++◌, ◌>>=◌, read, read_span, length, join,
}
use minimal_mpegts_std_impl.Pes.Header.{
  new_pes_header, get_header_size, verify_start_code, parse_header,
}
use minimal_mpegts_std_impl.Pes.Packet.{PesPacket, parse_packet}

pub record PesAccumulator : Type 0 where
  pub buffer : List ℕ
  pub expected_length : ℕ
  pub synced : Bool
  pub complete : Bool

abbrev pub new_pes_accumulator : PesAccumulator
new_pes_accumulator = record { buffer = []; expected_length = 0; synced = false; complete = false }

abbrev pub reset_pes : PesAccumulator → PesAccumulator
reset_pes a = record a { buffer = []; expected_length = 0; synced = false; complete = false }

-- A packet of unbounded length counts as complete with its header.
unfoldable pub check_unbounded : PesAccumulator → Option (Bool × PesAccumulator)
check_unbounded a = do
  (accepted, h) ← parse_header (some a.buffer) (length a.buffer) new_pes_header
  if accepted && leb (get_header_size h) (length a.buffer)
      then some (true, record a { expected_length = 0; complete = true })
      else some (false, a)

abbrev pub check_bounded : PesAccumulator → ℕ → Bool × PesAccumulator
check_bounded a n =
    if leb (6 + n) (length a.buffer)
    then (true, record a { expected_length = 6 + n; complete = true })
    else (false, record a { expected_length = 6 + n })

-- `parseAndCheckComplete`.
unfoldable pub parse_and_check_complete : PesAccumulator → Option (Bool × PesAccumulator)
parse_and_check_complete a = if ltb (length a.buffer) 6 then some (false, a) else do
  starts ← verify_start_code a.buffer
  if not starts then some (false, reset_pes a) else do
    b4 ← read a.buffer 4
    b5 ← read a.buffer 5
    if join b4 8 b5 == 0 then check_unbounded a else some (check_bounded a (join b4 8 b5))

-- `addData` behind its first tests.
unfoldable pub append_pes : PesAccumulator → List ℕ → ℕ → Option (Bool × PesAccumulator)
append_pes a p n = if not a.synced then some (false, a) else do
  bytes ← read_span p n
  parse_and_check_complete (record a { buffer = a.buffer ++ bytes })

-- `addData`; the pointer `none` is nullptr.
unfoldable pub add_pes_data :
    PesAccumulator → Option (List ℕ) → ℕ → Bool → Option (Bool × PesAccumulator)
add_pes_data a none n payload_unit_start = some (false, a)
add_pes_data a (some p) n payload_unit_start =
    if n == 0
    then some (false, a)
    else if payload_unit_start
    then append_pes (record (reset_pes a) { synced = true }) p n
    else append_pes a p n

-- `getPacket`: whether a packet was there, the packet and the new state.
unfoldable pub get_packet : PesAccumulator → PesPacket → Option (Bool × PesPacket × PesAccumulator)
get_packet a k = if not a.complete then some (false, k, a) else do
  (result, k') ← parse_packet a.buffer (length a.buffer) k
  some (result, k', if result then reset_pes a else a)
