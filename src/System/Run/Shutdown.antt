-- ===== src/System/Run/Shutdown.antt =====
-- The log thread to its end: what has become of the events by then.
use epics_logfile.Base.{
  ℕ, ◌≡◌, refl, sym, ap, ◌∙◌, subst, true, List, [], ◌∷◌, ◌++◌, append-nil, append_assoc, Option,
  none, some, arith, ◌≢◌, Bytes,
}
use epics_logfile.Base.Map.{nat_key, find}
use epics_logfile.Event.{LogEvent}
use epics_logfile.OutputStream.{StreamClass, OutputStream, recorded, delivered}
use epics_logfile.Retry.{Queue}
use epics_logfile.LogThread.{LogThread, RetryPointer, Turn, fault, finished, again, turn}
use epics_logfile.LogThread.Handed.{history, history_of}
use epics_logfile.LogThread.History.{addresses, occurrences}
use epics_logfile.System.Kept.{severe_only}
use epics_logfile.System.Severe.{IsWellFormed}
use epics_logfile.System.Run.{Round, do_run, accepted_turn, accepted}
use epics_logfile.System.Run.Account.{through, through-append, Keeps, Keeps-trans}
use epics_logfile.System.Run.Rounds.{ends_in, InTime, turn-Keeps, turn_last, round-Keeps}

module _ {S : Type 0} (cls : StreamClass S) (strftime : ℕ → Bytes) (b : ℕ) where
  abbrev rec : StreamClass (S × List LogEvent)
  rec = recorded cls

  abbrev Ends :
      List LogEvent
      → OutputStream (S × List LogEvent)
      → LogThread (S × List LogEvent)
      → LogThread (S × List LogEvent)
      → Type 0
  Ends es o t t' =
      Keeps cls strftime es b o t t'
      × (t'.events ≡ [])
      × ((q : Queue) → find b t'.retry_map ≢ some (some q))

  -- What the loop comes to from a state on, when it ends.
  abbrev EndsWell : List Round → Type 0
  EndsWell rounds =
      (o : OutputStream (S × List LogEvent)) (t t' : LogThread (S × List LogEvent))
      → IsWellFormed cls t
      → occurrences b (addresses t) ≡ 1
      → t.heap b ≡ some o
      → do_run rec true strftime rounds t ≡ finished t'
      → Ends (accepted rec true strftime rounds t) o t t'

  do_run-EndsWell : (rounds : List Round) → InTime rounds → EndsWell rounds
  unfolding do_run accepted ends_in
  do_run-EndsWell [] time o t t' v once h e = ground arith
  do_run-EndsWell (r ∷ rounds) time o t t' v once h e =
      go (do_run-EndsWell rounds time.1) (turn rec true strftime r.arrivals t) refl
    where
      go :
          EndsWell rounds
          → (x : Turn (S × List LogEvent)) → turn rec true strftime r.arrivals t ≡ x
          → Ends (accepted rec true strftime (r ∷ rounds) t) o t t'
      go rest fault x = ground (arith, rw (x, do_run) at e)
      go rest (finished t1) x =
          let last : turn rec true strftime r.arrivals t ≡ finished t' =
            x ∙ (rw (x, do_run) at e) in
          let (empty, quiet) = turn_last cls strftime b r.arrivals o t t' v once h last in
          (
            subst (λ es. Keeps cls strftime es b o t t')
                (sym (rw (x, accepted) (append-nil (accepted_turn rec true strftime r.arrivals t))))
                (turn-Keeps cls strftime b r.arrivals o t t' v once h (ap ends_in last)),
            empty,
            quiet,
          )
      go rest (again t1) x =
          let came = accepted_turn rec true strftime r.arrivals t in
          let (t2, step, s) = round-Keeps cls strftime b r o t t1 time.0 v once h x in
          let (later, empty, quiet) =
            rest s.after t2 t' s.valid (rw s.same_streams once) s.stays
              (rw (x, step, do_run) at e) in
          let more = accepted rec true strftime rounds t2 in
          (
            subst (λ es. Keeps cls strftime es b o t t')
                (append_assoc came r.queued more ∙ sym (rw (x, step, accepted)))
                (Keeps-trans cls strftime (came ++ r.queued) more b o t t2 t' s later),
            empty,
            quiet,
          )

  history-delivered :
      (t : LogThread (S × List LogEvent)) (o : OutputStream (S × List LogEvent))
      → t.heap b ≡ some o
      → ((q : Queue) → find b t.retry_map ≢ some (some q))
      → history b t ≡ delivered o
  history-delivered t o h none_left = rw h (go (find b t.retry_map) none_left)
    where
      go :
          (r : Option RetryPointer)
          → ((q : Queue) → r ≢ some (some q))
          → history_of (some o) r ≡ delivered o
      go none n = refl
      go (some none) n = refl
      go (some (some q)) n = ground (arith, n q refl)

  pub do_run-IsWellFormed :
      (rounds : List Round) (o : OutputStream (S × List LogEvent))
      (t t' : LogThread (S × List LogEvent))
      → InTime rounds
      → IsWellFormed cls t
      → occurrences b (addresses t) ≡ 1
      → t.heap b ≡ some o
      → do_run rec true strftime rounds t ≡ finished t'
      → (t'.streams ≡ t.streams)
        × IsWellFormed cls t'
        × ((q : Queue) → find b t'.retry_map ≢ some (some q))
  do_run-IsWellFormed rounds o t t' time v once h e =
      let (s, _, quiet) = do_run-EndsWell rounds time o t t' v once h e in
      (s.same_streams, s.valid, quiet)

  -- When do_run returns, no event is left in the queue of the log thread, and each stream listed
  -- once has been delivered its severe events from before the run, delivered or waiting, then those
  -- that waited for the log thread, and then those that came in during the run, as far as its
  -- minimum lets them through, each once and in order. No stream in use was deleted before, retry
  -- threads can be started, and clock readings are below 2^63 ns.
  pub do_run-finished :
      (rounds : List Round) (o : OutputStream (S × List LogEvent))
      (t t' : LogThread (S × List LogEvent))
      → InTime rounds
      → IsWellFormed cls t
      → occurrences b (addresses t) ≡ 1
      → t.heap b ≡ some o
      → do_run rec true strftime rounds t ≡ finished t'
      → (t'.events ≡ [])
        × (o' : OutputStream (S × List LogEvent)) × (t'.heap b ≡ some o')
        × (severe_only (delivered o')
            ≡ severe_only (
                history b t
                ++ through strftime o.min_log_level
                    (t.events ++ accepted rec true strftime rounds t)))
  do_run-finished rounds o t t' time v once h e =
      let (s, empty, quiet) = do_run-EndsWell rounds time o t t' v once h e in
      let l = o.min_log_level in
      let came = accepted rec true strftime rounds t in
      (
        empty,
        s.after,
        s.stays,
        ap severe_only (
              sym (history-delivered t' s.after s.stays quiet)
              ∙ sym (append-nil (history b t'))
              ∙ ap (λ es. history b t' ++ through strftime l es) (sym empty))
            ∙ s.own
            ∙ ap severe_only (
                append_assoc (history b t) (through strftime l t.events) (through strftime l came)
                ∙ ap (λ d. history b t ++ d) (sym (through-append strftime l t.events came))),
      )
