-- ===== src/Pes/Manager.antt =====
-- `PESManager`: one accumulator for each PID.
use minimal_mpegts_std_impl.Prelude.{ℕ, Bool, none, some, List, []}
use minimal_mpegts_std_impl.Prelude.Assoc.{Assoc, lookup, insert, erase, member, keys}
use minimal_mpegts_std_impl.Pes.Accumulator.{PesAccumulator, new_pes_accumulator}

pub record PesManager : Type 0 where
  pub accumulators : Assoc PesAccumulator

-- The accumulator that the returned reference names, and the state with it; a caller that changes
-- it puts it back by `put_accumulator`.
unfoldable pub get_accumulator : PesManager → ℕ → PesAccumulator × PesManager
get_accumulator m pid = elim (lookup pid m.accumulators) [
  | some a ↦ (a, m)
  | none ↦ (
    new_pes_accumulator,
    record m { accumulators = insert pid new_pes_accumulator m.accumulators },
  )
]

unfoldable pub put_accumulator : PesManager → ℕ → PesAccumulator → PesManager
put_accumulator m pid a = record m { accumulators = insert pid a m.accumulators }

unfoldable pub has_accumulator : PesManager → ℕ → Bool
has_accumulator m pid = member pid m.accumulators

unfoldable pub remove_accumulator : PesManager → ℕ → PesManager
remove_accumulator m pid = record m { accumulators = erase pid m.accumulators }

unfoldable pub clear_accumulators : PesManager → PesManager
clear_accumulators m = record { accumulators = [] }

unfoldable pub get_pids : PesManager → List ℕ
get_pids m = keys m.accumulators
