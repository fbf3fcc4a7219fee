-- ===== src/Storage.antt =====
-- include/mpegts_storage.hpp and src/mpegts_storage.cpp: the finished iterations, stream by stream.
pub mod Lookup
use minimal_mpegts_std_impl.Prelude.{
  ℕ, ◌+◌, ◌%◌, ◌^◌, ◌==◌, ltb, if◌then◌else◌, Bool, true, false, Option, none, some, List, [], ◌∷◌,
  ◌++◌, map, length,
}
use minimal_mpegts_std_impl.Prelude.Assoc.{Assoc, lookup, insert, member, keys, insert_set}
use minimal_mpegts_std_impl.Types.{PayloadSegment, IterationData}

-- `StreamIterations`.
pub record Stream : Type 0 where
  pub pid : ℕ
  pub iterations : List (ℕ × IterationData)
  pub observed_cc_values : List ℕ

abbrev pub new_stream : ℕ → Stream
new_stream pid = record { pid = pid; iterations = []; observed_cc_values = [] }

-- One round of the loop that fixes the segment pointers of the copied iteration.
abbrev pub fix_pointer : ℕ → PayloadSegment → PayloadSegment
fix_pointer size s =
    if ltb s.offset_in_stream size then record s { pointer = some s.offset_in_stream } else s

abbrev pub fix_pointers : IterationData → IterationData
fix_pointers d = record d { payloads = map (fix_pointer (length d.payload_data)) d.payloads }

unfoldable pub add_iteration : Stream → ℕ → IterationData → Stream
add_iteration s id d = record s {
  iterations = s.iterations ++ (id, fix_pointers d) ∷ [];
  observed_cc_values = insert_set d.last_cc (insert_set d.first_cc s.observed_cc_values);
}

-- `find_if` on the identifier.
unfoldable pub find_iteration : ℕ → List (ℕ × IterationData) → Option IterationData
find_iteration id [] = none
find_iteration id ((i, d) ∷ r) = if i == id then some d else find_iteration id r

unfoldable pub get_iteration : Stream → ℕ → Option IterationData
unfolding find_iteration
get_iteration s id = find_iteration id s.iterations

-- Only the first match is erased.
unfoldable pub erase_iteration : ℕ → List (ℕ × IterationData) → List (ℕ × IterationData)
erase_iteration id [] = []
erase_iteration id ((i, d) ∷ r) = if i == id then r else (i, d) ∷ erase_iteration id r

unfoldable pub remove_iteration : Stream → ℕ → Stream
unfolding erase_iteration
remove_iteration s id = record s { iterations = erase_iteration id s.iterations }

unfoldable pub clear_iterations : Stream → Stream
clear_iterations s = record s { iterations = []; observed_cc_values = [] }

unfoldable pub any_discontinuity : List (ℕ × IterationData) → Bool
any_discontinuity [] = false
any_discontinuity ((i, d) ∷ r) = if d.discontinuity_detected then true else any_discontinuity r

unfoldable pub has_discontinuity : Stream → Bool
unfolding any_discontinuity
has_discontinuity s = any_discontinuity s.iterations

unfoldable pub get_iteration_count : Stream → ℕ
get_iteration_count s = length s.iterations

-- `DemuxerStreamStorage`.
pub record Storage : Type 0 where
  pub streams : Assoc Stream
  pub next_iteration_id : ℕ

abbrev pub new_storage : Storage
new_storage = record { streams = []; next_iteration_id = 1 }

-- The reference that the code returns is the stream; a caller that changes it puts it back by
-- `put_stream`.
unfoldable pub get_or_create_stream : Storage → ℕ → Stream × Storage
get_or_create_stream st pid = elim (lookup pid st.streams) [
  | some s ↦ (s, st)
  | none ↦ (new_stream pid, record st { streams = insert pid (new_stream pid) st.streams })
]

abbrev pub put_stream : Storage → ℕ → Stream → Storage
put_stream st pid s = record st { streams = insert pid s st.streams }

unfoldable pub get_stream : Storage → ℕ → Option Stream
get_stream st pid = lookup pid st.streams

-- The identifier is a uint32_t and wraps.
unfoldable pub generate_iteration_id : Storage → ℕ × Storage
generate_iteration_id st =
    (st.next_iteration_id, record st { next_iteration_id = (st.next_iteration_id + 1) % 2 ^ 32 })

unfoldable pub clear_stream : Storage → ℕ → Storage
clear_stream st pid = elim (lookup pid st.streams) [
  | some s ↦ put_stream st pid (clear_iterations s)
  | none ↦ st
]

unfoldable pub clear : Storage → Storage
clear st = record { streams = []; next_iteration_id = 1 }

-- The streams are kept by PID, so the set of their PIDs is the list of keys.
unfoldable pub get_discovered_pids : Storage → List ℕ
get_discovered_pids st = keys st.streams

unfoldable pub has_stream : Storage → ℕ → Bool
has_stream st pid = member pid st.streams
