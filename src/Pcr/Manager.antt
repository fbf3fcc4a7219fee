-- ===== src/Pcr/Manager.antt =====
-- `PCRManager`: one tracker for each PID that carries clock references.
use minimal_mpegts_std_impl.Prelude.{ℕ, Option, none, some, List, [], ◌∷◌}
use minimal_mpegts_std_impl.Prelude.Assoc.{Assoc, lookup, insert, keys}
use minimal_mpegts_std_impl.Prelude.Double.{Double}
use minimal_mpegts_std_impl.Pcr.Clock.{Pcr}
use minimal_mpegts_std_impl.Pcr.Tracker
use minimal_mpegts_std_impl.Pcr.Tracker.{PcrTracker, PcrStats, new_tracker, get_stats}

module _ (F : Double) where
  pub record PcrManager : Type 0 where
    pub trackers : Assoc (PcrTracker F)

  abbrev pub new_manager : PcrManager
  new_manager = record { trackers = [] }

  abbrev pub tracker_or_new : Option (PcrTracker F) → ℕ → PcrTracker F
  tracker_or_new none pid = new_tracker F pid
  tracker_or_new (some t) pid = t

  -- `PCRManager::addPCR`.
  unfoldable pub add_pcr : PcrManager → ℕ → Pcr → ℕ → ℕ → PcrManager
  add_pcr m pid pcr n c =
      let t = tracker_or_new (lookup pid m.trackers) pid in
      record { trackers = insert pid (Tracker.add_pcr F t pcr n c) m.trackers }

  unfoldable pub get_tracker : PcrManager → ℕ → Option (PcrTracker F)
  get_tracker m pid = lookup pid m.trackers

  unfoldable pub stats_of : Assoc (PcrTracker F) → List (PcrStats F)
  stats_of [] = []
  stats_of ((pid, t) ∷ r) = get_stats F t ∷ stats_of r

  unfoldable pub get_all_stats : PcrManager → List (PcrStats F)
  unfolding stats_of
  get_all_stats m = stats_of m.trackers

  unfoldable pub get_pids_with_pcr : PcrManager → List ℕ
  get_pids_with_pcr m = keys m.trackers

  unfoldable pub clear : PcrManager → PcrManager
  clear m = record { trackers = [] }
