-- ===== src/System/Interleave/Stranded.antt =====
-- What the log thread's two separate calls, active() and add_log_event, leave open
-- (log_thread.cpp:94): the retry thread can end in between.
use epics_logfile.Base.{◌≡◌, ◌≢◌, refl, sym, ap, ◌∙◌, Bool, true, false, List, [], ◌∷◌, ◌++◌, arith}
use epics_logfile.Event.{LogEvent}
use epics_logfile.OutputStream.{StreamClass, OutputStream, write}
use epics_logfile.Retry.{Queue, active, enqueue, expire}
use epics_logfile.System.Interleave.{LogPc, RetryPc, State, Step, Reach, init}

-- The log thread is outside of the branch that joins, writes and starts.
abbrev only_queues : LogPc → Bool
only_queues LogPc.idle = true
only_queues (LogPc.checked e) = true
only_queues (LogPc.joining e) = false
only_queues (LogPc.writing e) = false
only_queues (LogPc.failed e) = false
only_queues (LogPc.started e) = false

-- The retry thread has ended, and `d` is the front of its queue.
abbrev pub Stranded : {S : Type 0} → LogEvent → OutputStream S → State S → Type 0
Stranded d o s =
    (only_queues s.log_pc ≡ true)
    × (s.retry_pc ≡ RetryPc.stopped)
    × ((r : Queue) × (s.queue ≡ d ∷ r))
    × (s.stream ≡ o)

not_absent : (r : RetryPc) → r ≡ RetryPc.stopped → r ≢ RetryPc.absent
not_absent r h a = ground arith

module _ {S : Type 0} (cls : StreamClass S) (d : LogEvent) (o : OutputStream S) where
  Step-Stranded : {s t : State S} → Step cls s t → Stranded d o s → Stranded d o t
  unfolding enqueue active
  Step-Stranded {s} (Step.find_none e a b) (h, k, q, l) = ground (arith, sym b ∙ k)
  Step-Stranded {s} (Step.find_active e a b c) (h, k, q, l) = (refl, k, q, l)
  Step-Stranded {s} (Step.find_quiet e a b c) (h, k, (r, q), l) =
      ground (arith, sym (ap active q) ∙ c)
  Step-Stranded {s} (Step.put {e} a) (h, k, (r, q), l) = (refl, k, (r ++ e ∷ [], rw q refl), l)
  Step-Stranded {s} (Step.join {e} a b) (h, k, q, l) = ground (arith, sym (ap only_queues a) ∙ h)
  Step-Stranded {s} (Step.log_writes {e} a b) (h, k, q, l) =
      ground (arith, sym (ap only_queues a) ∙ h)
  Step-Stranded {s} (Step.log_fails {e} a b) (h, k, q, l) =
      ground (arith, sym (ap only_queues a) ∙ h)
  Step-Stranded {s} (Step.start {e} a) (h, k, q, l) = ground (arith, sym (ap only_queues a) ∙ h)
  Step-Stranded {s} (Step.start_fails {e} a) (h, k, q, l) =
      ground (arith, sym (ap only_queues a) ∙ h)
  Step-Stranded {s} (Step.put_first {e} a) (h, k, q, l) = ground (arith, sym (ap only_queues a) ∙ h)
  Step-Stranded {s} (Step.wake a) (h, k, q, l) = ground (arith, sym a ∙ k)
  Step-Stranded {s} (Step.front {e} a b) (h, k, q, l) = ground (arith, sym a ∙ k)
  Step-Stranded {s} (Step.drained a b) (h, k, q, l) = ground (arith, sym a ∙ k)
  Step-Stranded {s} (Step.retry_writes {e} a b) (h, k, q, l) = ground (arith, sym a ∙ k)
  Step-Stranded {s} (Step.retry_fails {e} a b) (h, k, q, l) = ground (arith, sym a ∙ k)
  Step-Stranded {s} (Step.pop {e} a b) (h, k, q, l) = ground (arith, sym a ∙ k)
  Step-Stranded {s} (Step.expires now n a) (h, k, q, l) = ground (arith, sym a ∙ k)
  Step-Stranded {s} (Step.again a b) (h, k, q, l) = ground (arith, sym a ∙ k)
  Step-Stranded {s} (Step.stop a b) (h, k, q, l) = ground (arith, sym a ∙ k)

  Reach-Stranded : {s t : State S} → Reach cls s t → Stranded d o s → Stranded d o t
  Reach-Stranded Reach.here h = h
  Reach-Stranded (Reach.next r step) h = Step-Stranded step (Reach-Stranded r h)

-- The log thread is behind active() for `d` when the retry thread ends.
module _ {S : Type 0} (cls : StreamClass S) (o : OutputStream S) (e d : LogEvent)
    (fails : (write cls e o).0 ≡ false) (succeeds : (write cls e (write cls e o).1).0 ≡ true) where
  abbrev after : OutputStream S
  after = (write cls e (write cls e o).1).1

  abbrev at : LogPc → RetryPc → Queue → OutputStream S → List LogEvent → State S
  at l r q x g = record { log_pc = l; retry_pc = r; queue = q; stream = x; logged = g; lost = [] }

  -- The retry thread has written `e`, and waits to take it from the queue.
  half_way : Reach cls (init o) (at LogPc.idle (RetryPc.written e) (e ∷ []) after (e ∷ []))
  unfolding enqueue
  half_way =
      Reach.next
        (Reach.next
          (Reach.next
            (Reach.next
              (Reach.next
                (Reach.next (Reach.next Reach.here (Step.find_none e refl refl))
                  (Step.log_fails refl fails))
                (Step.start refl))
              (Step.put_first refl))
            (Step.wake refl))
          (Step.front refl refl))
        (Step.retry_writes refl succeeds)

  ends : Reach cls (init o) (at (LogPc.checked d) RetryPc.stopped [] after (e ∷ d ∷ []))
  unfolding expire active
  ends =
      Reach.next
        (Reach.next
          (Reach.next
            (Reach.next (Reach.next half_way (Step.find_active d refl (λ h. ground arith) refl))
              (Step.pop refl refl))
            (Step.drained refl refl))
          (Step.expires 0 (ground arith) refl))
        (Step.stop refl refl)

-- The state that they come to.
abbrev pub stranded_at :
    {S : Type 0} → StreamClass S → OutputStream S → LogEvent → LogEvent → State S
stranded_at cls o e d = record {
  log_pc = LogPc.idle;
  retry_pc = RetryPc.stopped;
  queue = d ∷ [];
  stream = (write cls e (write cls e o).1).1;
  logged = e ∷ d ∷ [];
  lost = [];
}

-- Where a stream fails to write `e` once and then writes it, the two threads can come to a state in
-- which the retry thread has ended with another event `d` in its queue. In every state that can
-- come after that one, the retry thread has ended, `d` is at the front of the queue, the log thread
-- is in the branch that only queues, and the stream has been written to no more.
pub strands :
    {S : Type 0} (cls : StreamClass S) (o : OutputStream S) (e d : LogEvent) (u : State S)
    → (write cls e o).0 ≡ false
    → (write cls e (write cls e o).1).0 ≡ true
    → Reach cls (stranded_at cls o e d) u
    → Reach cls (init o) (stranded_at cls o e d) × Stranded d (write cls e (write cls e o).1).1 u
unfolding enqueue
strands cls o e d u fails succeeds r = (
  Reach.next (ends cls o e d fails succeeds) (Step.put refl),
  Reach-Stranded cls d _ r (refl, refl, ([], refl), refl),
)
