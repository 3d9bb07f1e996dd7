-- ===== src/System/Interleave/Steps.antt =====
-- Each step keeps what holds.
use epics_logfile.Base.{
  ◌≡◌, ◌⊎◌, inl, inr, refl, sym, ap, subst, ◌∙◌, true, false, List, [], ◌∷◌, ◌++◌, keep_if, drop,
  arith,
}
use epics_logfile.Level.{Level}
use epics_logfile.Event.{LogEvent}
use epics_logfile.OutputStream.{
  StreamClass, OutputStream, write, recorded, delivered, clears, write_ok, write_failed,
  write-min_log_level,
}
use epics_logfile.Retry.{enqueue, expire}
use epics_logfile.Retry.Laws.{active_iff}
use epics_logfile.System.Kept.{severe_only}
use epics_logfile.System.Interleave.{LogPc, RetryPc, State, Step, Reach, init}
use epics_logfile.System.Interleave.Conserve.{
  kept, Balance, hand_out, queue_up, log_delivers, retry_delivers, expiry_keeps, in_hand, waiting,
  Front, is_absent, Inv, Holds,
}
use epics_logfile.System.Interleave.Waiting.{
  is_absent-ne, is_absent→absent, waiting-nil, waiting-append, Place_moved, expire-nil,
}

module _ {S : Type 0} (cls : StreamClass S) (m : Level) where
  write-clears :
      (e : LogEvent) (o : OutputStream (S × List LogEvent))
      → o.min_log_level ≡ m
      → (write (recorded cls) e o).0 ≡ true
      → delivered (write (recorded cls) e o).1 ≡ delivered o ++ keep_if (clears m) (e ∷ [])
  write-clears e o h done =
      write_ok cls e o done ∙ ap (λ x. delivered o ++ keep_if (clears x) (e ∷ [])) h

  log_at :
      (s : State (S × List LogEvent)) {lp : LogPc}
      → s.log_pc ≡ lp
      → Holds m s
      → Inv m lp s.retry_pc s.queue s.stream s.logged s.lost
  log_at s e h = subst (λ p. Inv m p s.retry_pc s.queue s.stream s.logged s.lost) e h

  retry_at :
      (s : State (S × List LogEvent)) {rp : RetryPc}
      → s.retry_pc ≡ rp
      → Holds m s
      → Inv m s.log_pc rp s.queue s.stream s.logged s.lost
  retry_at s e h = subst (λ p. Inv m s.log_pc p s.queue s.stream s.logged s.lost) e h

  -- The retry thread moves, the waiting events stay.
  retry_moves :
      (s : State (S × List LogEvent)) {rp rp' : RetryPc}
      → s.retry_pc ≡ rp
      → is_absent rp ≡ false
      → is_absent rp' ≡ false
      → waiting rp' s.queue ≡ waiting rp s.queue
      → Front rp' s.queue
      → Holds m s
      → Holds m (record s { retry_pc = rp' })
  retry_moves s {rp} {rp'} a b b' w f h =
      let k = retry_at s a h in
      record {
        minimum = k.minimum;
        own = λ c.
            subst (λ x. Balance m (delivered s.stream) x (in_hand s.log_pc) s.logged) (sym w)
              (k.own c);
        front = f;
        place = Place_moved s.log_pc rp rp' s.queue s.queue b b' (λ e. e) k.place;
      }

  -- The event in hand goes to the end of the queue.
  enqueued :
      (s : State (S × List LogEvent)) (e : LogEvent) {lp : LogPc}
      → in_hand lp ≡ e ∷ []
      → is_absent s.retry_pc ≡ false
      → Inv m lp s.retry_pc s.queue s.stream s.logged s.lost
      → Holds m (record s { log_pc = LogPc.idle; queue = enqueue e s.queue })
  unfolding enqueue
  enqueued s e {lp} a b k =
      let (w, f) = waiting-append s.retry_pc s.queue e k.front in
      record {
        minimum = k.minimum;
        own = λ c.
            subst (λ x. Balance m (delivered s.stream) x [] s.logged) (sym w)
              (queue_up m (delivered s.stream) s.logged (waiting s.retry_pc s.queue) e (
                subst (λ x. Balance m (delivered s.stream) (waiting s.retry_pc s.queue) x s.logged)
                  a (k.own c)));
        front = f;
        place = λ c. ground arith;
      }

  -- Nothing waits while the log thread writes.
  nothing_waits :
      (s : State (S × List LogEvent)) (rp : RetryPc) (h : List LogEvent)
      → s.queue ≡ []
      → Balance m (delivered s.stream) (waiting rp s.queue) h s.logged
      → Balance m (delivered s.stream) [] h s.logged
  nothing_waits s rp h q b =
      subst (λ x. Balance m (delivered s.stream) x h s.logged) (waiting-nil rp s.queue q) b

  Step-Holds : {s t : State (S × List LogEvent)} → Step (recorded cls) s t → Holds m s → Holds m t
  Step-Holds {s} (Step.find_none e a b) h =
      let k = log_at s a h in
      let gone = ap is_absent b in
      record {
        minimum = k.minimum;
        own =
            λ c. hand_out m (delivered s.stream) s.logged (waiting s.retry_pc s.queue) e (k.own c);
        front = k.front;
        place = (gone, k.place gone);
      }
  Step-Holds {s} (Step.find_active e a b c) h =
      let k = log_at s a h in
      record {
        minimum = k.minimum;
        own =
            λ c. hand_out m (delivered s.stream) s.logged (waiting s.retry_pc s.queue) e (k.own c);
        front = k.front;
        place = is_absent-ne s.retry_pc b;
      }
  Step-Holds {s} (Step.find_quiet e a b c) h =
      let k = log_at s a h in
      record {
        minimum = k.minimum;
        own =
            λ c. hand_out m (delivered s.stream) s.logged (waiting s.retry_pc s.queue) e (k.own c);
        front = k.front;
        place = (is_absent-ne s.retry_pc b, (active_iff s.queue).0 c);
      }
  Step-Holds {s} (Step.put {e} a) h = let k = log_at s a h in enqueued s e refl k.place k
  Step-Holds {s} (Step.join {e} a b) h =
      let k =
        subst (λ p. Inv m p RetryPc.stopped s.queue s.stream s.logged s.lost) a (retry_at s b h) in
      record {
        minimum = k.minimum;
        own = λ c. nothing_waits s RetryPc.stopped (e ∷ []) k.place.1 (k.own c);
        front = tt;
        place = (refl, refl);
      }
  Step-Holds {s} (Step.log_writes {e} a b) h =
      let k = log_at s a h in
      record {
        minimum = write-min_log_level (recorded cls) e s.stream ∙ k.minimum;
        own = λ c.
            subst (λ d. Balance m d (waiting s.retry_pc s.queue) [] s.logged)
              (sym (write-clears e s.stream k.minimum b))
              (subst
                (λ x. Balance m (delivered s.stream ++ keep_if (clears m) (e ∷ [])) x [] s.logged)
                (sym (waiting-nil s.retry_pc s.queue k.place.1))
                (log_delivers m (delivered s.stream) s.logged e
                  (nothing_waits s s.retry_pc (e ∷ []) k.place.1 (k.own c))));
        front = k.front;
        place = λ c. k.place.1;
      }
  Step-Holds {s} (Step.log_fails {e} a b) h =
      let k = log_at s a h in
      record {
        minimum = write-min_log_level (recorded cls) e s.stream ∙ k.minimum;
        own = λ c.
            subst (λ d. Balance m d (waiting s.retry_pc s.queue) (e ∷ []) s.logged)
              (sym (write_failed cls e s.stream b).0) (k.own c);
        front = k.front;
        place = k.place;
      }
  Step-Holds {s} (Step.start {e} a) h =
      let k = log_at s a h in
      record {
        minimum = k.minimum;
        own = λ c. nothing_waits s s.retry_pc (e ∷ []) k.place.1 (k.own c);
        front = tt;
        place = (refl, refl);
      }
  Step-Holds {s} (Step.start_fails {e} a) h =
      let k = log_at s a h in
      record {
        minimum = k.minimum;
        own = λ c. ground arith;
        front = k.front;
        place = λ c. k.place.1;
      }
  Step-Holds {s} (Step.put_first {e} a) h = let k = log_at s a h in enqueued s e refl k.place.0 k
  Step-Holds {s} (Step.wake a) h = retry_moves s a refl refl refl tt h
  Step-Holds {s} (Step.front {e} {q} a b) h = retry_moves s a refl refl refl (q, b) h
  Step-Holds {s} (Step.drained a b) h = retry_moves s a refl refl refl tt h
  Step-Holds {s} (Step.retry_writes {e} a b) h =
      let k = retry_at s a h in
      let (q, at) = k.front in
      record {
        minimum = write-min_log_level (recorded cls) e s.stream ∙ k.minimum;
        own = λ c.
            subst (λ d. Balance m d (drop 1 s.queue) (in_hand s.log_pc) s.logged)
              (sym (write-clears e s.stream k.minimum b))
              (retry_delivers m (delivered s.stream) s.logged e (drop 1 s.queue) (in_hand s.log_pc)
                (subst (λ x. Balance m (delivered s.stream) x (in_hand s.log_pc) s.logged)
                  (at ∙ ap (λ x. e ∷ drop 1 x) (sym at)) (k.own c)));
        front = k.front;
        place =
            Place_moved s.log_pc (RetryPc.trying e) (RetryPc.written e) s.queue s.queue refl refl
              (λ c. c) k.place;
      }
  Step-Holds {s} (Step.retry_fails {e} a b) h =
      let k = retry_at s a h in
      record {
        minimum = write-min_log_level (recorded cls) e s.stream ∙ k.minimum;
        own = λ c.
            subst (λ d. Balance m d s.queue (in_hand s.log_pc) s.logged)
              (sym (write_failed cls e s.stream b).0) (k.own c);
        front = tt;
        place =
            Place_moved s.log_pc (RetryPc.trying e) RetryPc.expiring s.queue s.queue refl refl
              (λ c. c) k.place;
      }
  Step-Holds {s} (Step.pop {e} {d} {q} a b) h =
      let k = retry_at s a h in
      record {
        minimum = k.minimum;
        own = λ c.
            subst (λ x. Balance m (delivered s.stream) x (in_hand s.log_pc) s.logged)
              (ap (drop 1) b) (k.own c);
        front = tt;
        place =
            Place_moved s.log_pc (RetryPc.written e) RetryPc.draining s.queue q refl refl
              (λ c. ground (arith, b)) k.place;
      }
  Step-Holds {s} (Step.expires now n a) h =
      let k = retry_at s a h in
      record {
        minimum = k.minimum;
        own = λ c.
            expiry_keeps m (delivered s.stream) s.logged now s.queue (in_hand s.log_pc) n (k.own c);
        front = tt;
        place =
            Place_moved s.log_pc RetryPc.expiring RetryPc.checking s.queue (expire now s.queue).0
              refl refl (expire-nil now s.queue) k.place;
      }
  Step-Holds {s} (Step.again a b) h = retry_moves s a refl refl refl tt h
  Step-Holds {s} (Step.stop a b) h = retry_moves s a refl refl refl tt h

  Reach-Holds : {s t : State (S × List LogEvent)} → Reach (recorded cls) s t → Holds m s → Holds m t
  Reach-Holds Reach.here h = h
  Reach-Holds (Reach.next r step) h = Step-Holds step (Reach-Holds r h)

init-Holds :
    {S : Type 0} (o : OutputStream (S × List LogEvent))
    → delivered o ≡ []
    → Holds o.min_log_level (init o)
init-Holds o h = record { minimum = refl; own = λ c. rw h refl; front = tt; place = λ c. refl }

-- In every reachable state, the severe events that were delivered, then those in the queue, then
-- the one that the log thread holds, are those of the logged events that the minimum lets through:
-- none is lost, none comes twice, and they stay in order. The stream has delivered nothing before,
-- its minimum stays, each start of a retry thread has succeeded so far, and the clock readings of
-- the retry thread are below 2^63 ns.
pub severe_in_order :
    {S : Type 0} (cls : StreamClass S) (o : OutputStream (S × List LogEvent))
    (t : State (S × List LogEvent))
    → delivered o ≡ []
    → t.lost ≡ []
    → Reach (recorded cls) (init o) t
    → severe_only (delivered t.stream)
        ++ (kept o.min_log_level (waiting t.retry_pc t.queue)
            ++ kept o.min_log_level (in_hand t.log_pc))
      ≡ kept o.min_log_level t.logged
severe_in_order cls o t h none_lost r =
    let k = Reach-Holds cls o.min_log_level r (init-Holds o h) in k.own none_lost

-- In every reachable state in which the log thread is about to write to the stream, or is behind a
-- write that failed, there is no retry thread, and no event waits: the two never write at once.
pub writer_alone :
    {S : Type 0} (cls : StreamClass S) (o : OutputStream (S × List LogEvent))
    (t : State (S × List LogEvent)) (e : LogEvent)
    → delivered o ≡ []
    → Reach (recorded cls) (init o) t
    → (t.log_pc ≡ LogPc.writing e) ⊎ (t.log_pc ≡ LogPc.failed e)
    → (t.retry_pc ≡ RetryPc.absent) × (t.queue ≡ [])
writer_alone cls o t e h r (inl at) =
    let k = log_at cls o.min_log_level t at (Reach-Holds cls o.min_log_level r (init-Holds o h)) in
    (is_absent→absent t.retry_pc k.place.0, k.place.1)
writer_alone cls o t e h r (inr at) =
    let k = log_at cls o.min_log_level t at (Reach-Holds cls o.min_log_level r (init-Holds o h)) in
    (is_absent→absent t.retry_pc k.place.0, k.place.1)
