-- ===== src/LogThread/Finish.antt =====
-- The end of the log thread: what it leaves, and the sweeps over the retry threads before it.
use epics_logfile.Base.{
  ℕ, ◌≡◌, refl, sym, ap, ◌∙◌, Bool, true, false, List, [], ◌∷◌, append-nil, ◌++◌, none, some, inl,
  inr, keep_if, arith, Option-cases, Option-cases, Bytes, map,
}
use epics_logfile.Base.Map.{nat_key, find}
use epics_logfile.Event.{LogEvent}
use epics_logfile.OutputStream.{StreamClass, OutputStream, recorded, delivered, clears}
use epics_logfile.LogThread.{
  LogThread, RetryPointer, finished, Arrivals, push, push_all, sweep, is_idle, conclude, try_finish,
  log_all, turn,
}
use epics_logfile.LogThread.Handed.{history, history_of}
use epics_logfile.LogThread.History.{addresses, stamped, occurrences, AllLive, log_all-Logged}

-- A null pointer in the map, and a retry thread that has nothing left.
has_null : List (ℕ × RetryPointer) → Bool
has_null [] = false
has_null ((a, none) ∷ m) = true
has_null ((a, some q) ∷ m) = has_null m

unfoldable pub has_quiet : List (ℕ × RetryPointer) → Bool
has_quiet [] = false
has_quiet ((a, some []) ∷ m) = true
has_quiet ((a, some (x ∷ q)) ∷ m) = has_quiet m
has_quiet ((a, none) ∷ m) = has_quiet m

-- Where a sweep finds no active thread, nothing waits for any stream.
sweep_quiet :
    {S : Type 0} (m m' : List (ℕ × RetryPointer)) (b : ℕ) (o : OutputStream (S × List LogEvent))
    → sweep m ≡ some (m', false)
    → history_of (some o) (find b m) ≡ delivered o
unfolding sweep find
sweep_quiet [] m' b o e = refl
sweep_quiet ((a, none) ∷ m) m' b o e = cc
sweep_quiet ((a, some []) ∷ m) m' b o e = elim (Option-cases (sweep m)) [
  | inl none_left ↦ cc (rw none_left at e)
  | inr ((rest, other), swept) ↦ ground (arith, append-nil (delivered o), sweep_quiet m rest b o)
]
sweep_quiet ((a, some (x ∷ q)) ∷ m) m' b o e = elim (Option-cases (sweep m)) [
  | inl none_left ↦ cc (rw none_left at e)
  | inr ((rest, other), swept) ↦ cc (rw swept at e)
]

-- No other thread queues anything during the turn.
abbrev pub no_arrivals : Arrivals
no_arrivals = record { during_log = []; during_sweep = [] }

module _ {S : Type 0} where
  pub push_all_keeps :
      (es : List LogEvent) (t : LogThread S)
      → ((push_all es t).heap ≡ t.heap)
        × ((push_all es t).retry_map ≡ t.retry_map)
        × ((push_all es t).do_terminate ≡ t.do_terminate)
  unfolding push_all
  push_all_keeps [] t = (refl, refl, refl)
  push_all_keeps (e ∷ es) t = push_all_keeps es (push e t)

  pub conclude-finished :
      (still : Bool) (es : List LogEvent) (t t' : LogThread S)
      → conclude still es t ≡ finished t'
      → (still ≡ false) × (es ≡ []) × (t ≡ t')
  unfolding conclude
  conclude-finished true es t t' e = cc
  conclude-finished false [] t t' e = (refl, refl, cc)
  conclude-finished false (x ∷ es) t t' e = cc

  pub try_finish-finished :
      (arrived : List LogEvent) (t t' : LogThread S)
      → try_finish arrived t ≡ finished t'
      → (m : List (ℕ × RetryPointer)) × (sweep t.retry_map ≡ some (m, false))
        × (t' ≡ push_all arrived (record t { retry_map = m }))
        × (t'.events ≡ [])
  unfolding try_finish
  try_finish-finished arrived t t' e = elim (Option-cases (sweep t.retry_map)) [
    | inl none_left ↦ cc (rw (none_left, try_finish) at e)
    | inr ((m, still), swept) ↦
        let (quiet, empty, same) = conclude-finished still _ _ t' (rw (swept, try_finish) at e) in
        (m, swept ∙ ap (λ s. some (m, s)) quiet, sym same, sym (ap (λ x. x.events) same) ∙ empty)
  ]

  pub turn-finished :
      (cls : StreamClass S) (strftime : ℕ → Bytes) (env : Arrivals) (t t1 t' : LogThread S)
      → log_all cls true strftime t.events (record t { events = [] }) ≡ some t1
      → turn cls true strftime env t ≡ finished t'
      → try_finish env.during_sweep (push_all env.during_log t1) ≡ finished t'
  unfolding turn is_idle
  turn-finished cls strftime env t t1 t' step e = ground (arith, rw (step, turn) at e)

-- When the thread ends, no event is left in its queue, and a stream listed once has been delivered
-- all of its history and all events of the last turn, in order: nothing waits for a retry.
turn_finishes :
    {S : Type 0} (cls : StreamClass S) (strftime : ℕ → Bytes) (env : Arrivals) (b : ℕ)
    (o : OutputStream (S × List LogEvent)) (t t' : LogThread (S × List LogEvent))
    → AllLive t
    → occurrences b (addresses t) ≡ 1
    → t.heap b ≡ some o
    → turn (recorded cls) true strftime env t ≡ finished t'
    → (t'.events ≡ [])
      × (o' : OutputStream (S × List LogEvent)) × (t'.heap b ≡ some o')
      × (delivered o'
          ≡ history b t ++ keep_if (clears o.min_log_level) (map (stamped strftime) t.events))
turn_finishes cls strftime env b o t t' live once h e =
    let (t1, step, s) =
      log_all-Logged cls strftime t.events b o (record t { events = [] }) live once h in
    let t2 = push_all env.during_log t1 in
    let (m, swept, same, empty) =
      try_finish-finished env.during_sweep t2 t'
        (turn-finished (recorded cls) strftime env t t1 t' step e) in
    let kept = push_all_keeps env.during_log t1 in
    let kept' = push_all_keeps env.during_sweep (record t2 { retry_map = m }) in
    (
      empty,
      s.after,
      ap (λ x. x.heap b) same ∙ ap (λ f. f b) kept'.0 ∙ ap (λ f. f b) kept.0 ∙ s.stays,
      sym (sweep_quiet t1.retry_map m b s.after (ap sweep (sym kept.1) ∙ swept))
          ∙ ap (λ x. history_of x (find b t1.retry_map)) (sym s.stays)
          ∙ s.own,
    )
