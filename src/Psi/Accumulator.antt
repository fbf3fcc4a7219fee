-- ===== src/Psi/Accumulator.antt =====
-- `PSIAccumulator`: sections assembled from packet payloads.
use minimal_mpegts_std_impl.Prelude.{
  ℕ, ◌+◌, ◌-◌, ◌==◌, ltb, leb, if◌then◌else◌, Bool, true, false, ◌&&◌, Option, some, List, [], ◌++◌,
  ◌>>=◌, read, read_span, drop, length,
}
use minimal_mpegts_std_impl.Psi.Section.{section_length_of}

pub record PsiAccumulator : Type 0 where
  pub buffer : List ℕ
  pub expected_length : ℕ
  pub complete : Bool
  pub synced : Bool

abbrev pub new_accumulator : PsiAccumulator
new_accumulator = record { buffer = []; expected_length = 0; complete = false; synced = false }

-- `reset` assigns every field.
abbrev pub reset : PsiAccumulator → PsiAccumulator
reset a = record a { buffer = []; expected_length = 0; complete = false; synced = false }

-- The expected length, once three bytes are there.
unfoldable pub update_expected : PsiAccumulator → Option PsiAccumulator
update_expected a =
    if (a.expected_length == 0) && leb 3 (length a.buffer)
    then (do
      b1 ← read a.buffer 1
      b2 ← read a.buffer 2
      some (record a { expected_length = 3 + section_length_of b1 b2 }))
    else some a

-- The test at the end of `addData`.
abbrev pub check_complete : PsiAccumulator → Bool × PsiAccumulator
check_complete a =
    if ltb 0 a.expected_length && leb a.expected_length (length a.buffer)
    then (true, record a { complete = true })
    else (false, a)

-- From the test of `synced_` on, with the data that is left.
unfoldable pub append_data : PsiAccumulator → List ℕ → ℕ → Option (Bool × PsiAccumulator)
append_data a p n =
    if a.synced
    then (do
      bytes ← read_span p n
      a' ← update_expected (record a { buffer = a.buffer ++ bytes })
      some (check_complete a'))
    else some (false, a)

-- The branch of a payload unit start: `pointer` bytes are skipped.
unfoldable pub start_section : PsiAccumulator → List ℕ → ℕ → Option (Bool × PsiAccumulator)
start_section a p n =
    if ltb 0 n
    then (do
      pointer ← read p 0
      if ltb pointer (n - 1)
          then append_data (record (reset a) { synced = true }) (drop (1 + pointer) p)
              (n - 1 - pointer)
          else some (false, reset a))
    else append_data (record (reset a) { synced = true }) p n

-- `addData`: whether a section is complete, and the new state.
unfoldable pub add_data : PsiAccumulator → List ℕ → ℕ → Bool → Option (Bool × PsiAccumulator)
add_data a p n payload_unit_start =
    if payload_unit_start then start_section a p n else append_data a p n

-- `getSection`: the length returned, the section (unchanged where none is complete) and the state.
unfoldable pub get_section : PsiAccumulator → List ℕ → Option (ℕ × List ℕ × PsiAccumulator)
get_section a section =
    if a.complete
    then (do bytes ← read_span a.buffer a.expected_length; some (length bytes, bytes, reset a))
    else some (0, section, a)
