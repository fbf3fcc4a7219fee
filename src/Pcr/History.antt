-- ===== src/Pcr/History.antt =====
-- The history of clock references: bounded, and its newest entry is the last one added.
use minimal_mpegts_std_impl.Prelude.{
  ℕ, ◌≤◌, ◌≡◌, ◌≢◌, refl, ap, ◌∙◌, Option, none, some, List, [], ◌∷◌, ◌++◌, arith, length,
  length-append, length-drop, if_either, ltb,
}
use minimal_mpegts_std_impl.Prelude.Assoc.{
  lookup, lookup-insert, AllValues, AllValues-lookup, AllValues-insert,
}
use minimal_mpegts_std_impl.Prelude.Double.{Double}
use minimal_mpegts_std_impl.Pcr.Clock.{Pcr}
use minimal_mpegts_std_impl.Pcr.Tracker.{
  PcrSample, PcrTracker, last_sample, push_sample, max_samples, new_tracker, get_last_pcr,
  note_interval, note_last, update_statistics, sum_intervals,
}
use minimal_mpegts_std_impl.Pcr.Tracker
use minimal_mpegts_std_impl.Pcr.Manager.{PcrManager, add_pcr, get_tracker, tracker_or_new}

last_sample-snoc : (xs : List PcrSample) (s : PcrSample) → last_sample (xs ++ s ∷ []) ≡ some s
unfolding last_sample
last_sample-snoc [] s = refl
last_sample-snoc (x ∷ []) s = refl
last_sample-snoc (x ∷ y ∷ r) s = last_sample-snoc (y ∷ r) s

last_sample-push_sample :
    (xs : List PcrSample) (s : PcrSample) → last_sample (push_sample xs s) ≡ some s
unfolding push_sample last_sample
last_sample-push_sample [] s = refl
last_sample-push_sample (x ∷ xs) s =
    if_either (λ l. last_sample l ≡ some s) (ltb max_samples (length ((x ∷ xs) ++ s ∷ [])))
      (last_sample-snoc xs s) (last_sample-snoc (x ∷ xs) s)

length-push_sample :
    (xs : List PcrSample) (s : PcrSample)
    → length xs ≤ max_samples
    → length (push_sample xs s) ≤ max_samples
unfolding push_sample last_sample
length-push_sample xs s h = ground (arith, length-append xs (s ∷ []), length-drop 1 (xs ++ s ∷ []))

module _ (F : Double) where
  samples-note_interval :
      (t : PcrTracker F) (i : F.Carrier) → (note_interval F t i).samples ≡ t.samples
  unfolding note_interval
  samples-note_interval t i = ground arith

  samples-note_last :
      (t : PcrTracker F) (o : Option PcrSample) (s : PcrSample)
      → (note_last F t o s).samples ≡ t.samples
  samples-note_last t none s = refl
  samples-note_last t (some last) s = samples-note_interval t _

  samples-update_statistics : (t : PcrTracker F) → (update_statistics F t).samples ≡ t.samples
  unfolding update_statistics
  samples-update_statistics t =
      if_either (λ (u : PcrTracker F). u.samples ≡ t.samples) (ltb (length t.samples) 2) refl
        (if_either (λ (u : PcrTracker F). u.samples ≡ t.samples) (ltb 0 _) refl refl)

  samples-add_pcr :
      (t : PcrTracker F) (c : Pcr) (n k : ℕ)
      → (Tracker.add_pcr F t c n k).samples
        ≡ push_sample t.samples (record { pcr = c; packet_number = n; continuity_counter = k })
  unfolding Tracker.add_pcr
  samples-add_pcr t c n k =
      samples-update_statistics _
      ∙ ap (λ l. push_sample l _) (samples-note_last t (last_sample t.samples) _)

  -- Each tracker keeps at most 1000 samples.
  abbrev pub HasRoom : PcrTracker F → Type 0
  HasRoom t = length t.samples ≤ max_samples

  abbrev pub IsBounded : PcrManager F → Type 0
  IsBounded m = AllValues HasRoom m.trackers

  tracker_or_new-HasRoom :
      (o : Option (PcrTracker F)) (pid : ℕ)
      → ((t : PcrTracker F) → o ≡ some t → HasRoom t)
      → HasRoom (tracker_or_new F o pid)
  tracker_or_new-HasRoom none pid h = omega arith
  tracker_or_new-HasRoom (some t) pid h = h t refl

  -- What `addPCR` on one PID leaves: every history still within 1000 samples, the new clock
  -- reference as the last one of its PID, and the trackers of all other PIDs as they were.
  pub add_pcr-IsBounded :
      (m : PcrManager F) (pid : ℕ) (c : Pcr) (n k : ℕ)
      → IsBounded m
      → let m' = add_pcr F m pid c n k in
        IsBounded m'
        × ((t : PcrTracker F) × (get_tracker F m' pid ≡ some t)
            × (Tracker.get_last_pcr F t ≡ some c))
        × ((q : ℕ) → q ≢ pid → get_tracker F m' q ≡ get_tracker F m q)
  unfolding add_pcr get_tracker Tracker.get_last_pcr
  add_pcr-IsBounded m pid c n k b =
      let old = tracker_or_new F (lookup pid m.trackers) pid in
      let new = Tracker.add_pcr F old c n k in
      let s : PcrSample = record { pcr = c; packet_number = n; continuity_counter = k } in
      let e : new.samples ≡ push_sample old.samples s = samples-add_pcr old c n k in
      let room : HasRoom old =
        tracker_or_new-HasRoom (lookup pid m.trackers) pid
          (λ t f. AllValues-lookup HasRoom pid m.trackers b f) in
      (
        AllValues-insert HasRoom pid new m.trackers (rw e (length-push_sample old.samples s room))
            b,
        (
          new,
          ground (arith, lookup-insert pid pid new m.trackers),
          rw (e, last_sample-push_sample old.samples s) refl,
        ),
        λ q d. ground (arith, lookup-insert q pid new m.trackers),
      )
