-- ===== src/System/Run/Rounds.antt =====
-- A turn of the log thread, and a round, keep the account of a stream.
use epics_logfile.Base.{
  ℕ, ◌^◌, ◌<◌, ◌≡◌, refl, sym, ap, ◌∙◌, subst, Bool, true, false, List, [], ◌∷◌, ◌++◌, append-nil,
  Option, none, some, inl, inr, keep_if-append, arith, ◌≢◌, Bool-cases, ◌&&◌, Option-cases, Bytes,
  All,
}
use epics_logfile.Base.Map.{nat_key, find}
use epics_logfile.Event.{LogEvent}
use epics_logfile.OutputStream.{StreamClass, OutputStream, recorded}
use epics_logfile.Retry.{Queue}
use epics_logfile.LogThread.{
  LogThread, RetryPointer, Turn, fault, finished, again, Arrivals, push_all, sweep, conclude,
  try_finish, is_idle, turn,
}
use epics_logfile.LogThread.Handed.{history}
use epics_logfile.LogThread.History.{addresses, occurrences}
use epics_logfile.LogThread.Finish.{push_all_keeps, try_finish-finished, turn-finished}
use epics_logfile.LogThread.Teardown.{sweep_cleared}
use epics_logfile.System.{retry, retry_with}
use epics_logfile.System.Kept.{is_severe, severe_only}
use epics_logfile.System.Severe.{IsWellFormed, retry-Survive}
use epics_logfile.System.Run.{Round, retry_all, accepted_turn}
use epics_logfile.System.Run.Account.{through, account, Keeps, Keeps-trans}
use epics_logfile.System.Run.Steps.{take-Keeps, push_all-Keeps, sweep-Keeps, unchanged-Keeps}

-- The state in which a turn leaves the loop of the log thread, unless it faults.
unfoldable pub ends_in : {S : Type 0} → Turn S → Option (LogThread S)
ends_in fault = none
ends_in (finished t) = some t
ends_in (again t) = some t

conclude-ends_in :
    {S : Type 0} (still : Bool) (es : List LogEvent) (t : LogThread S)
    → ends_in (conclude still es t) ≡ some t
unfolding conclude ends_in
conclude-ends_in true es t = refl
conclude-ends_in false [] t = refl
conclude-ends_in false (e ∷ es) t = refl

-- The clock readings of the retry threads fit 64 bits, in nanoseconds.
abbrev pub RetriesInTime : List (ℕ × ℕ) → Type 0
RetriesInTime = All (λ r. r.1 < 2 ^ 63)

abbrev pub InTime : List Round → Type 0
InTime = All (λ r. RetriesInTime r.retries)

retry-events :
    {S : Type 0} (cls : StreamClass S) (strftime : ℕ → Bytes) (a now : ℕ) (t t' : LogThread S)
    → retry cls true strftime a now t ≡ some t'
    → t'.events ≡ t.events
unfolding retry retry_with
retry-events cls strftime a now t t' e = go (find a t.retry_map) (t.heap a) refl refl
  where
    go :
        (r : Option RetryPointer) (p : Option _)
        → find a t.retry_map ≡ r
        → t.heap a ≡ p
        → t'.events ≡ t.events
    go none p r h = cc (rw (r, retry) at e)
    go (some none) p r h = cc (rw (r, retry) at e)
    go (some (some [])) p r h = cc (rw (r, retry) at e)
    go (some (some (d ∷ q))) none r h = cc (rw (r, h, retry) at e)
    go (some (some (d ∷ q))) (some o) r h =
        sym (ap (λ x. elim x [ none ↦ t.events | some y ↦ y.events ]) (rw (r, h, retry) at e))

module _ {S : Type 0} (cls : StreamClass S) (strftime : ℕ → Bytes) (b : ℕ) where
  abbrev rec : StreamClass (S × List LogEvent)
  rec = recorded cls

  retry-Keeps :
      (a now : ℕ) (o : OutputStream (S × List LogEvent)) (t : LogThread (S × List LogEvent))
      → now < 2 ^ 63
      → IsWellFormed cls t
      → t.heap b ≡ some o
      → (t' : LogThread (S × List LogEvent)) × (retry rec true strftime a now t ≡ some t')
        × Keeps cls strftime [] b o t t'
  retry-Keeps a now o t time v h =
      let (t', step, s) = retry-Survive cls strftime a now b o t time v h in
      let l = o.min_log_level in
      let rest = through strftime l t.events in
      (
        t',
        step,
        record {
          own =
              ap (λ es. severe_only (history b t' ++ through strftime l es))
                (retry-events rec strftime a now t t' step)
              ∙ keep_if-append is_severe (history b t') rest
              ∙ ap (λ d. d ++ severe_only rest) (s.own ∙ ap severe_only (append-nil (history b t)))
              ∙ sym (keep_if-append is_severe (history b t) rest)
              ∙ ap severe_only (sym (append-nil (account strftime l b t)));
          after = s.after;
          stays = s.stays;
          minimum = s.minimum;
          same_streams = s.same_streams;
          valid = s.valid;
        },
      )

  pub retry_all-Keeps :
      (rs : List (ℕ × ℕ)) (o : OutputStream (S × List LogEvent)) (t : LogThread (S × List LogEvent))
      → RetriesInTime rs
      → IsWellFormed cls t
      → t.heap b ≡ some o
      → (t' : LogThread (S × List LogEvent)) × (retry_all rec true strftime rs t ≡ some t')
        × Keeps cls strftime [] b o t t'
  unfolding retry_all
  retry_all-Keeps [] o t time v h = (t, refl, unchanged-Keeps cls strftime b o t v h)
  retry_all-Keeps ((a, now) ∷ rs) o t time v h =
      let (t1, step, s) = retry-Keeps a now o t time.0 v h in
      let (t2, later, r) = retry_all-Keeps rs s.after t1 time.1 s.valid s.stays in
      (t2, rw (step, retry_all) later, Keeps-trans cls strftime [] [] b o t t1 t2 s r)

  try_finish-Keeps :
      (arrived : List LogEvent) (o : OutputStream (S × List LogEvent))
      (t t' : LogThread (S × List LogEvent))
      → IsWellFormed cls t
      → t.heap b ≡ some o
      → ends_in (try_finish arrived t) ≡ some t'
      → Keeps cls strftime arrived b o t t'
  unfolding try_finish ends_in
  try_finish-Keeps arrived o t t' v h e = elim (Option-cases (sweep t.retry_map)) [
    | inl none_left ↦ ground (arith, rw (none_left, try_finish) at e)
    | inr ((m, still), swept) ↦
        let t1 = record t { retry_map = m } in
        let t2 = push_all arrived t1 in
        let s = sweep-Keeps cls strftime b o t m still v h swept in
        let r = push_all-Keeps cls strftime b s.after t1 arrived s.valid s.stays in
        let at_end : some t2 ≡ some t' =
          sym (conclude-ends_in still t2.events t2) ∙ (rw (swept, try_finish) at e) in
        subst (Keeps cls strftime arrived b o t) (cc at_end)
          (Keeps-trans cls strftime [] arrived b o t t1 t2 s r)
  ]

  pub turn-Keeps :
      (env : Arrivals) (o : OutputStream (S × List LogEvent)) (t t' : LogThread (S × List LogEvent))
      → IsWellFormed cls t
      → occurrences b (addresses t) ≡ 1
      → t.heap b ≡ some o
      → ends_in (turn rec true strftime env t) ≡ some t'
      → Keeps cls strftime (accepted_turn rec true strftime env t) b o t t'
  unfolding turn ends_in accepted_turn
  turn-Keeps env o t t' v once h e =
      let (t1, step, s) = take-Keeps cls strftime b o t v once h in
      let r = push_all-Keeps cls strftime b s.after t1 env.during_log s.valid s.stays in
      let t2 = push_all env.during_log t1 in
      let sr = Keeps-trans cls strftime [] env.during_log b o t t1 t2 s r in
      elim (Bool-cases (t2.do_terminate && is_idle t2)) [
        | inl ending ↦
            let during = env.during_sweep in
            subst (λ es. Keeps cls strftime es b o t t') (sym (rw (step, ending, accepted_turn)))
              (Keeps-trans cls strftime env.during_log during b o t t2 t' sr (
                try_finish-Keeps during sr.after t2 t' sr.valid sr.stays
                  (rw (step, ending, turn) at e)))
        | inr going ↦
            let same : some t2 ≡ some t' = rw (step, going, turn, ends_in) at e in
            subst (Keeps cls strftime _ b o t) (cc same) (
              subst (λ es. Keeps cls strftime es b o t t2)
                (sym (rw (step, going, accepted_turn) (append-nil env.during_log))) sr)
      ]

  -- A turn that ends the thread leaves no event in its queue, and none with a retry thread.
  pub turn_last :
      (env : Arrivals) (o : OutputStream (S × List LogEvent)) (t t' : LogThread (S × List LogEvent))
      → IsWellFormed cls t
      → occurrences b (addresses t) ≡ 1
      → t.heap b ≡ some o
      → turn rec true strftime env t ≡ finished t'
      → (t'.events ≡ []) × ((q : Queue) → find b t'.retry_map ≢ some (some q))
  turn_last env o t t' v once h e =
      let (t1, step, s) = take-Keeps cls strftime b o t v once h in
      let t2 = push_all env.during_log t1 in
      let (m, swept, at_end, empty) =
        try_finish-finished env.during_sweep t2 t'
          (turn-finished rec strftime env t t1 t' step e) in
      let (_, same, _) = push_all_keeps env.during_sweep (record t2 { retry_map = m }) in
      (
        empty,
        λ q f.
            sweep_cleared t2.retry_map m b q swept
              (ap (find b) (sym (ap (λ x. x.retry_map) at_end ∙ same)) ∙ f),
      )

  pub round-Keeps :
      (r : Round) (o : OutputStream (S × List LogEvent)) (t t1 : LogThread (S × List LogEvent))
      → RetriesInTime r.retries
      → IsWellFormed cls t
      → occurrences b (addresses t) ≡ 1
      → t.heap b ≡ some o
      → turn rec true strftime r.arrivals t ≡ again t1
      → (t' : LogThread (S × List LogEvent)) × (retry_all rec true strftime r.retries
            (push_all r.queued t1)
          ≡ some t')
        × Keeps cls strftime (accepted_turn rec true strftime r.arrivals t ++ r.queued) b o t t'
  unfolding ends_in
  round-Keeps r o t t1 time v once h e =
      let env = accepted_turn rec true strftime r.arrivals t in
      let t2 = push_all r.queued t1 in
      let s = turn-Keeps r.arrivals o t t1 v once h (ap ends_in e) in
      let p = push_all-Keeps cls strftime b s.after t1 r.queued s.valid s.stays in
      let sp = Keeps-trans cls strftime env r.queued b o t t1 t2 s p in
      let (t3, step, k) = retry_all-Keeps r.retries sp.after t2 time sp.valid sp.stays in
      (
        t3,
        step,
        subst (λ es. Keeps cls strftime es b o t t3) (append-nil (env ++ r.queued))
            (Keeps-trans cls strftime (env ++ r.queued) [] b o t t2 t3 sp k),
      )
