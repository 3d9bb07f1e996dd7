-- ===== src/System/Severe/Schedule.antt =====
-- No severe event is lost, whatever the schedule.
use mathlib.Core.List.{map-append}
use epics_logfile.Base.{
  ℕ, ◌^◌, ◌<◌, ◌≡◌, refl, sym, ap, ◌∙◌, true, List, [], ◌∷◌, ◌++◌, append_assoc, some, keep_if,
  keep_if-append, Bytes, map,
}
use epics_logfile.Base.Map.{nat_key}
use epics_logfile.Event.{LogEvent}
use epics_logfile.OutputStream.{StreamClass, OutputStream, recorded, clears}
use epics_logfile.LogThread.{LogThread}
use epics_logfile.LogThread.Handed.{history}
use epics_logfile.LogThread.History.{addresses, stamped, occurrences, log_all-Logged}
use epics_logfile.System.{Action, logs, retries, act, act_all}
use epics_logfile.System.Kept.{is_severe, severe_only, log_all_one}
use epics_logfile.System.Severe.{IsWellFormed, Survive, unchanged, retry-Survive}

module _ {S : Type 0} (cls : StreamClass S) where
  abbrev rec : StreamClass (S × List LogEvent)
  rec = recorded cls

  -- The events that a schedule logs.
  abbrev pub logged : List Action → List LogEvent
  logged [] = []
  logged (logs e ∷ rest) = e ∷ logged rest
  logged (retries a now ∷ rest) = logged rest

  -- The clock readings of the schedule fit 64 bits, in nanoseconds.
  abbrev InTime : List Action → Type 0
  InTime [] = Unit {0}
  InTime (logs e ∷ rest) = InTime rest
  InTime (retries a now ∷ rest) = (now < 2 ^ 63) × InTime rest

  Survive-trans :
      (xs ys : List LogEvent) (strftime : ℕ → Bytes) (b : ℕ) (o : OutputStream (S × List LogEvent))
      (t t1 t2 : LogThread (S × List LogEvent)) (s : Survive cls xs strftime b o t t1)
      → Survive cls ys strftime b s.after t1 t2
      → Survive cls (xs ++ ys) strftime b o t t2
  Survive-trans xs ys strftime b o t t1 t2 s r =
      let through = keep_if (clears o.min_log_level) in
      let first = through (map (stamped strftime) xs) in
      let second = through (map (stamped strftime) ys) in
      record {
        own =
            (rw s.minimum at r.own)
            ∙ keep_if-append is_severe (history b t1) second
            ∙ ap (λ d. d ++ severe_only second) s.own
            ∙ sym (keep_if-append is_severe (history b t ++ first) second)
            ∙ ap severe_only (
                append_assoc (history b t) first second
                ∙ ap (λ d. history b t ++ d)
                    (sym (keep_if-append (clears o.min_log_level) (map (stamped strftime) xs) _)
                      ∙ ap through (sym (map-append (stamped strftime) xs ys))));
        after = r.after;
        stays = r.stays;
        minimum = r.minimum ∙ s.minimum;
        same_streams = r.same_streams ∙ s.same_streams;
        valid = r.valid;
      }

  log-Survive :
      (strftime : ℕ → Bytes) (e : LogEvent) (b : ℕ) (o : OutputStream (S × List LogEvent))
      (t : LogThread (S × List LogEvent))
      → IsWellFormed cls t
      → occurrences b (addresses t) ≡ 1
      → t.heap b ≡ some o
      → (t' : LogThread (S × List LogEvent)) × (act rec true strftime (logs e) t ≡ some t')
        × Survive cls (e ∷ []) strftime b o t t'
  unfolding act
  log-Survive strftime e b o t v once h =
      let (t', step, s) = log_all-Logged cls strftime (e ∷ []) b o t v.live once h in
      (
        t',
        log_all_one rec strftime e t ∙ step,
        record {
          own = ap severe_only s.own;
          after = s.after;
          stays = s.stays;
          minimum = s.minimum;
          same_streams = s.same_streams;
          valid = record { live = s.live; retry_live = s.retry_live v.retry_live };
        },
      )

  act-Survive :
      (strftime : ℕ → Bytes) (x : Action) (b : ℕ) (o : OutputStream (S × List LogEvent))
      (t : LogThread (S × List LogEvent))
      → InTime (x ∷ [])
      → IsWellFormed cls t
      → occurrences b (addresses t) ≡ 1
      → t.heap b ≡ some o
      → (t' : LogThread (S × List LogEvent)) × (act rec true strftime x t ≡ some t')
        × Survive cls (logged (x ∷ [])) strftime b o t t'
  act-Survive strftime (logs e) b o t time v once h = log-Survive strftime e b o t v once h
  act-Survive strftime (retries a now) b o t time v once h =
      unfold act in retry-Survive cls strftime a now b o t time.0 v h

  -- Whatever the sinks do, and however the retry threads take their turns, no severe event is lost
  -- or reordered: after the schedule, each stream listed once has been delivered, or has waiting,
  -- its earlier severe events and then the severe events that were logged and that its minimum lets
  -- through, each once and in order. No step of the schedule faults.
  pub act_all-severe :
      (strftime : ℕ → Bytes) (xs : List Action) (b : ℕ) (o : OutputStream (S × List LogEvent))
      (t : LogThread (S × List LogEvent))
      → InTime xs
      → IsWellFormed cls t
      → occurrences b (addresses t) ≡ 1
      → t.heap b ≡ some o
      → (t' : LogThread (S × List LogEvent)) × (act_all rec true strftime xs t ≡ some t')
        × Survive cls (logged xs) strftime b o t t'
  unfolding act_all
  act_all-severe strftime [] b o t time v once h = (t, refl, unchanged cls strftime b o t v h)
  act_all-severe strftime (logs e ∷ xs) b o t time v once h =
      let (t1, step, s) = act-Survive strftime (logs e) b o t tt v once h in
      let (t2, later, r) =
        act_all-severe strftime xs b s.after t1 time s.valid (rw s.same_streams once) s.stays in
      (t2, rw step later, Survive-trans (e ∷ []) (logged xs) strftime b o t t1 t2 s r)
  act_all-severe strftime (retries a now ∷ xs) b o t time v once h =
      let (t1, step, s) = act-Survive strftime (retries a now) b o t (time.0, tt) v once h in
      let (t2, later, r) =
        act_all-severe strftime xs b s.after t1 time.1 s.valid (rw s.same_streams once) s.stays in
      (t2, rw step later, Survive-trans [] (logged xs) strftime b o t t1 t2 s r)
