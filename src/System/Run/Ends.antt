-- ===== src/System/Run/Ends.antt =====
-- The log thread with sinks that do not fail: it comes to its end.
use epics_logfile.Base.{
  ℕ, ◌≡◌, refl, ap, ◌∙◌, true, false, List, [], ◌∷◌, ◌++◌, none, some, inl, inr, arith, ◌⊎◌,
  Bool-cases, Option-cases, ◌&&◌, Bytes,
}
use epics_logfile.Base.Map.{nat_key, find}
use epics_logfile.Event.{LogEvent}
use epics_logfile.OutputStream.{StreamClass, OutputStream, recorded, write}
use epics_logfile.LogThread.{
  LogThread, Arrivals, finished, again, push_all, sweep, conclude, try_finish, is_idle, write_now,
  deliver, deliver_all, log, log_all, turn,
}
use epics_logfile.LogThread.Deliver.{deliver_all-HandedAll}
use epics_logfile.LogThread.History.{addresses, stamped, AllLive, HandedAll-live}
use epics_logfile.LogThread.Finish.{push_all_keeps, no_arrivals}
use epics_logfile.LogThread.Teardown.{push_all-streams}
use epics_logfile.System.{retry}
use epics_logfile.System.Run.{Round, retry_all, do_run}

module _ {S : Type 0} (cls : StreamClass S) (strftime : ℕ → Bytes)
    (works : (e : LogEvent) (s : S) → (cls.do_write e s).0 ≡ true) where
  abbrev rec : StreamClass (S × List LogEvent)
  rec = recorded cls

  write_works : (e : LogEvent) (o : OutputStream (S × List LogEvent)) → (write rec e o).0 ≡ true
  unfolding write
  write_works e o = ground (arith, works e o.sink.0)

  -- The end was asked for, no stream in use is deleted, and there is no retry thread.
  pub record IsQuiet (t : LogThread (S × List LogEvent)) : Type 0 where
    pub live : AllLive t
    pub no_retries : t.retry_map ≡ []
    pub ending : t.do_terminate ≡ true

  deliver_quiet :
      (e : LogEvent) (a : ℕ) (t t' : LogThread (S × List LogEvent))
      → t.retry_map ≡ []
      → deliver rec true e a t ≡ some t'
      → (t'.retry_map ≡ []) × (t'.do_terminate ≡ t.do_terminate)
  unfolding deliver write_now find
  deliver_quiet e a t t' none_left step = elim (Option-cases (t.heap a)) [
    | inl gone ↦ ground (arith, rw (none_left, gone, deliver, write_now) at step)
    | inr (o, h) ↦ ground (arith, rw (none_left, h, deliver, write_now) at step, write_works e o)
  ]

  deliver_all_quiet :
      (e : LogEvent) (at : List ℕ) (t t' : LogThread (S × List LogEvent))
      → t.retry_map ≡ []
      → deliver_all rec true e at t ≡ some t'
      → (t'.retry_map ≡ []) × (t'.do_terminate ≡ t.do_terminate)
  unfolding deliver_all
  deliver_all_quiet e [] t t' none_left step =
      let same : some t ≡ some t' = step in
      let back : t' ≡ t = cc same in
      (ap (λ x. x.retry_map) back ∙ none_left, ap (λ x. x.do_terminate) back)
  deliver_all_quiet e (a ∷ at) t t' none_left step = elim (Option-cases (deliver rec true e a t)) [
    | inl gone ↦ ground (arith, rw (gone, deliver_all) at step)
    | inr (t1, first) ↦
        let (quiet, same) = deliver_quiet e a t t1 none_left first in
        let (quiet', same') =
          deliver_all_quiet e at t1 t' quiet (rw (first, deliver_all) at step) in
        (quiet', same' ∙ same)
  ]

  log_all-IsQuiet :
      (es : List LogEvent) (t : LogThread (S × List LogEvent))
      → IsQuiet t
      → (t' : LogThread (S × List LogEvent)) × (log_all rec true strftime es t ≡ some t')
        × IsQuiet t'
        × (t'.events ≡ t.events)
  unfolding log_all log stamped
  log_all-IsQuiet [] t q = (t, refl, q, refl)
  log_all-IsQuiet (e ∷ es) t q =
      let (t1, step, s) = deliver_all-HandedAll cls (stamped strftime e) (addresses t) t q.live in
      let (quiet, same) =
        deliver_all_quiet (stamped strftime e) (addresses t) t t1 q.no_retries step in
      let (t2, later, q', same') = log_all-IsQuiet es t1 (record {
        live = HandedAll-live (stamped strftime e) (addresses t) t t1 s q.live;
        no_retries = quiet;
        ending = same ∙ q.ending;
      }) in
      (t2, rw step later, q', same' ∙ s.same_events)

  push_all-IsQuiet :
      (es : List LogEvent) (t : LogThread (S × List LogEvent)) → IsQuiet t → IsQuiet (push_all es t)
  push_all-IsQuiet es t q =
      let (heap, retry_map, do_terminate) = push_all_keeps es t in
      record {
        live = rw (heap, push_all-streams es t) q.live;
        no_retries = retry_map ∙ q.no_retries;
        ending = do_terminate ∙ q.ending;
      }

  retry_all_quiet :
      (rs : List (ℕ × ℕ)) (t : LogThread (S × List LogEvent))
      → t.retry_map ≡ []
      → retry_all rec true strftime rs t ≡ some t
  unfolding retry_all retry find
  retry_all_quiet [] t h = refl
  retry_all_quiet ((a, now) ∷ rs) t h =
      let none_here : find a t.retry_map ≡ none = ap (find a) h in
      let step : retry rec true strftime a now t ≡ some t = rw (none_here, retry) in
      rw (step, retry_all) (retry_all_quiet rs t h)

  try_finish-IsQuiet :
      (es : List LogEvent) (t : LogThread (S × List LogEvent))
      → IsQuiet t
      → (t' : LogThread (S × List LogEvent)) × IsQuiet t'
        × ((try_finish es t ≡ again t') ⊎ (try_finish es t ≡ finished t'))
  unfolding try_finish sweep conclude
  try_finish-IsQuiet es t q =
      let t' = push_all es (record t { retry_map = [] }) in
      (
        t',
        push_all-IsQuiet es (record t { retry_map = [] })
            (record { live = q.live; no_retries = refl; ending = q.ending }),
        rw (q.no_retries, try_finish) (go t'.events t'),
      )
    where
      go :
          (arrived : List LogEvent) (t' : LogThread (S × List LogEvent))
          → (conclude false arrived t' ≡ again t') ⊎ (conclude false arrived t' ≡ finished t')
      go [] t' = inr refl
      go (x ∷ arrived) t' = inl refl

  turn-IsQuiet :
      (env : Arrivals) (t : LogThread (S × List LogEvent))
      → IsQuiet t
      → (t' : LogThread (S × List LogEvent)) × IsQuiet t'
        × ((turn rec true strftime env t ≡ again t') ⊎ (turn rec true strftime env t ≡ finished t'))
  unfolding turn
  turn-IsQuiet env t q =
      let (t1, step, q1, same) =
        log_all-IsQuiet t.events (record t { events = [] })
          (record { live = q.live; no_retries = q.no_retries; ending = q.ending }) in
      let t2 = push_all env.during_log t1 in
      let q2 = push_all-IsQuiet env.during_log t1 q1 in
      elim (Bool-cases (t2.do_terminate && is_idle t2)) [
        | inl idle ↦
            let (t3, q3, ends) = try_finish-IsQuiet env.during_sweep t2 q2 in
            (t3, q3, rw (step, idle, turn) ends)
        | inr busy ↦ (t2, q2, inl (rw (step, busy, turn)))
      ]

  turn_alone :
      (t : LogThread (S × List LogEvent))
      → IsQuiet t
      → (t' : LogThread (S × List LogEvent)) × (turn rec true strftime no_arrivals t ≡ finished t')
  unfolding turn try_finish sweep conclude is_idle push_all
  turn_alone t q =
      let (t1, step, q1, same) =
        log_all-IsQuiet t.events (record t { events = [] })
          (record { live = q.live; no_retries = q.no_retries; ending = q.ending }) in
      (record t1 { retry_map = [] }, ground (arith, step, same, q1.ending, q1.no_retries))

  -- Once the end is asked for, do_run returns in the first turn during which no other thread queues
  -- an event, if it has not returned before, whatever came in until then: nothing faults. The sinks
  -- take every event, no stream in use was deleted, and there is no retry thread.
  pub do_run_terminates :
      (rounds : List Round) (retries : List (ℕ × ℕ)) (queued : List LogEvent)
      (t : LogThread (S × List LogEvent))
      → IsQuiet t
      → (t' : LogThread (S × List LogEvent)) × (do_run rec true strftime
            (rounds ++ record { arrivals = no_arrivals; queued = queued; retries = retries } ∷ [])
            t
          ≡ finished t')
  unfolding do_run
  do_run_terminates [] retries queued t q = let (t', e) = turn_alone t q in (t', rw (e, do_run))
  do_run_terminates (r ∷ rounds) retries queued t q =
      let (t1, q1, ends) = turn-IsQuiet r.arrivals t q in
      elim ends [
        | inr e ↦ (t1, rw (e, do_run))
        | inl e ↦
            let t2 = push_all r.queued t1 in
            let q2 = push_all-IsQuiet r.queued t1 q1 in
            let (t', later) = do_run_terminates rounds retries queued t2 q2 in
            (t', rw (e, retry_all_quiet r.retries t2 q2.no_retries, do_run) later)
      ]
