-- ===== src/Pcr/Tracker.antt =====
-- `PCRTracker`: the recent clock references of one PID and their statistics.
use minimal_mpegts_std_impl.Prelude.{
  ℕ, ◌+◌, ◌-◌, ◌/◌, ◌%◌, ◌^◌, ◌==◌, ltb, leb, if◌then◌else◌, Bool, true, false, ◌&&◌, ◌||◌, Option,
  none, some, List, [], ◌∷◌, ◌++◌, length, drop, min,
}
use minimal_mpegts_std_impl.Prelude.Int.{pos}
use minimal_mpegts_std_impl.Prelude.Double.{Double}
use minimal_mpegts_std_impl.Pcr.Clock.{Pcr, get_value_27_mhz, pcr_difference, pcr_difference_ms}

pub record PcrSample : Type 0 where
  pub pcr : Pcr
  pub packet_number : ℕ
  pub continuity_counter : ℕ

abbrev pub max_samples : ℕ
max_samples = 1000

-- `samples_.back()`.
unfoldable pub last_sample : List PcrSample → Option PcrSample
last_sample [] = none
last_sample (s ∷ []) = some s
last_sample (s ∷ t ∷ r) = last_sample (t ∷ r)

-- The history with the new sample, and without its oldest where there are too many.
unfoldable pub push_sample : List PcrSample → PcrSample → List PcrSample
push_sample samples s =
    if ltb max_samples (length (samples ++ s ∷ []))
    then drop 1 (samples ++ s ∷ [])
    else samples ++ s ∷ []

-- The last sample at or before a packet number and the first one behind it, as the loop of
-- `interpolatePCR` leaves them; `before` also carries the sample ahead of it.
pub record Around : Type 0 where
  pub ahead : Option PcrSample
  pub before : Option PcrSample
  pub after : Option PcrSample

unfoldable pub find_around : ℕ → Option PcrSample → Option PcrSample → List PcrSample → Around
find_around n ahead before [] = record { ahead = ahead; before = before; after = none }
find_around n ahead before (s ∷ r) =
    let rest = find_around n before (some s) r in
    if leb s.packet_number n
    then rest
    else record { ahead = ahead; before = before; after = some s }

module _ (F : Double) where
  open F use {Carrier, of_int, add, sub, mul, div, abs, less, to_uint64}

  pub record PcrStats : Type 0 where
    pub pid : ℕ
    pub pcr_count : ℕ
    pub first_pcr : Option Pcr
    pub last_pcr : Option Pcr
    pub average_interval_ms : Carrier
    pub max_jitter_ms : Carrier
    pub discontinuity_detected : Bool

  pub record PcrTracker : Type 0 where
    pub pid : ℕ
    pub samples : List PcrSample
    pub average_interval_ms : Carrier
    pub max_jitter_ms : Carrier
    pub discontinuity_detected : Bool

  abbrev pub new_tracker : ℕ → PcrTracker
  new_tracker pid = record {
    pid = pid;
    samples = [];
    average_interval_ms = of_int (pos 0);
    max_jitter_ms = of_int (pos 0);
    discontinuity_detected = false;
  }

  abbrev pub calculate_interval : PcrSample → PcrSample → Carrier
  calculate_interval s1 s2 = pcr_difference_ms F s1.pcr s2.pcr

  -- `DISCONTINUITY_THRESHOLD_MS`.
  abbrev pub discontinuity_threshold_ms : Carrier
  discontinuity_threshold_ms = of_int (pos 100)

  -- `EXPECTED_PCR_INTERVAL_MS`.
  abbrev pub expected_pcr_interval_ms : Carrier
  expected_pcr_interval_ms = of_int (pos 40)

  abbrev pub is_break : Carrier → Bool
  is_break i = less i (of_int (pos 0)) || less discontinuity_threshold_ms i

  abbrev pub is_regular : Carrier → Bool
  is_regular i = less (of_int (pos 0)) i && less i discontinuity_threshold_ms

  -- `std::max(max_jitter_ms_, jitter)`.
  abbrev pub larger : Carrier → Carrier → Carrier
  larger a b = if less a b then b else a

  -- The checks of `addPCR` against the last sample.
  unfoldable pub note_interval : PcrTracker → Carrier → PcrTracker
  note_interval t i =
      let t' = if is_break i then record t { discontinuity_detected = true } else t in
      if is_regular i
      then record t' {
        max_jitter_ms = larger t'.max_jitter_ms (abs (sub i expected_pcr_interval_ms));
      }
      else t'

  -- The loop of `updateStatistics` over adjacent samples: the total and the number of regular
  -- intervals.
  unfoldable pub sum_intervals : Carrier → ℕ → List PcrSample → Carrier × ℕ
  sum_intervals total count [] = (total, count)
  sum_intervals total count (s ∷ []) = (total, count)
  sum_intervals total count (s ∷ t ∷ r) =
      let i = calculate_interval s t in
      sum_intervals (if is_regular i then add total i else total)
        (if is_regular i then count + 1 else count) (t ∷ r)

  unfoldable pub update_statistics : PcrTracker → PcrTracker
  update_statistics t =
      if ltb (length t.samples) 2
      then t
      else (let recent = drop (length t.samples - min (length t.samples) 100) t.samples in
          let (total, count) = sum_intervals (of_int (pos 0)) 0 recent in
          if ltb 0 count
          then record t { average_interval_ms = div total (of_int (pos count)) }
          else t)

  abbrev pub note_last : PcrTracker → Option PcrSample → PcrSample → PcrTracker
  note_last t none s = t
  note_last t (some last) s = note_interval t (calculate_interval last s)

  -- `PCRTracker::addPCR`.
  unfoldable pub add_pcr : PcrTracker → Pcr → ℕ → ℕ → PcrTracker
  add_pcr t pcr n c =
      let s : PcrSample = record { pcr = pcr; packet_number = n; continuity_counter = c } in
      let t' = note_last t (last_sample t.samples) s in
      update_statistics (record t' { samples = push_sample t'.samples s })

  abbrev pub first_of_samples : List PcrSample → Option Pcr
  first_of_samples [] = none
  first_of_samples (s ∷ r) = some s.pcr

  abbrev pub last_of_samples : Option PcrSample → Option Pcr
  last_of_samples none = none
  last_of_samples (some s) = some s.pcr

  unfoldable pub get_stats : PcrTracker → PcrStats
  get_stats t = record {
    pid = t.pid;
    pcr_count = length t.samples;
    first_pcr = first_of_samples t.samples;
    last_pcr = last_of_samples (last_sample t.samples);
    average_interval_ms = t.average_interval_ms;
    max_jitter_ms = t.max_jitter_ms;
    discontinuity_detected = t.discontinuity_detected;
  }

  unfoldable pub get_last_pcr : PcrTracker → Option Pcr
  get_last_pcr t = last_of_samples (last_sample t.samples)

  unfoldable pub clear_tracker : PcrTracker → PcrTracker
  clear_tracker t = record t {
    samples = [];
    average_interval_ms = of_int (pos 0);
    max_jitter_ms = of_int (pos 0);
    discontinuity_detected = false;
  }

  -- A 27 MHz value as a clock reference; `ext` is a uint16_t.
  abbrev pub pcr_of_value : ℕ → Pcr
  pcr_of_value v = record { base = v / 300; extension = v % 300 % 2 ^ 16 }

  -- Between two samples. `after` lies behind the target and `before` does not, so that neither
  -- difference of packet numbers wraps.
  unfoldable pub interpolate_between : PcrSample → PcrSample → ℕ → Pcr
  interpolate_between before after n =
      let total = after.packet_number - before.packet_number in
      if total == 0
      then before.pcr
      else (let ratio = div (of_int (pos (n - before.packet_number))) (of_int (pos total)) in
          pcr_of_value (
            (get_value_27_mhz before.pcr
              + to_uint64 (mul (of_int (pcr_difference before.pcr after.pcr)) ratio))
            % 2 ^ 64))

  -- Behind the last sample, from the two before it; `packet_diff` is a uint64_t.
  unfoldable pub extrapolate_from : PcrSample → PcrSample → ℕ → Option Pcr
  extrapolate_from s1 s2 n =
      let interval = calculate_interval s1 s2 in
      let packet_diff = (s2.packet_number + 2 ^ 64 - s1.packet_number) % 2 ^ 64 in
      if ltb 0 packet_diff && less (of_int (pos 0)) interval
      then (let per_packet = div interval (of_int (pos packet_diff)) in
          let ms = mul per_packet (of_int (pos (n - s2.packet_number))) in
          some (
            pcr_of_value
              ((get_value_27_mhz s2.pcr + to_uint64 (mul ms (of_int (pos 27000)))) % 2 ^ 64)))
      else none

  abbrev pub extrapolate_ahead : Option PcrSample → PcrSample → ℕ → Option Pcr
  extrapolate_ahead none before n = none
  extrapolate_ahead (some s1) before n = extrapolate_from s1 before n

  abbrev pub interpolate_before : Option PcrSample → Option PcrSample → PcrSample → ℕ → Option Pcr
  interpolate_before ahead none before n = extrapolate_ahead ahead before n
  interpolate_before ahead (some after) before n = some (interpolate_between before after n)

  abbrev pub interpolate_around : Around → ℕ → Option Pcr
  interpolate_around a n = elim a.before [
    | none ↦ none
    | some before ↦ interpolate_before a.ahead a.after before n
  ]

  -- `PCRTracker::interpolatePCR`.
  unfoldable pub interpolate_pcr : PcrTracker → ℕ → Option Pcr
  interpolate_pcr t n =
      if ltb (length t.samples) 2
      then none
      else interpolate_around (find_around n none none t.samples) n
