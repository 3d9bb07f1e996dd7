-- ===== src/Examples/Threads.antt =====
-- The two threads of one stream, step by step.
use epics_logfile.Base.{◌≡◌, refl, Bool, true, false, List, [], ◌∷◌, ◌++◌, codes, inr}
use epics_logfile.Level.{fine, info, severe, severity, level_lt}
use epics_logfile.Event.{LogEvent}
use epics_logfile.OutputStream.{OutputStream, StreamClass, recorded, delivered, write}
use epics_logfile.Retry.{enqueue}
use epics_logfile.System.Kept.{severe_only}
use epics_logfile.System.Interleave.{LogPc, RetryPc, State, Step, Reach, init}
use epics_logfile.System.Interleave.Conserve.{kept, in_hand}
use epics_logfile.System.Interleave.Steps.{severe_in_order, writer_alone}
use epics_logfile.System.Interleave.Stranded.{Stranded, stranded_at, strands}
use epics_logfile.Examples.{event, switch, stream}

-- The stream does not work: the write has failed.
abbrev failed : State (Bool × List LogEvent)
failed = record {
  log_pc = LogPc.failed (event severe 5);
  retry_pc = RetryPc.absent;
  queue = [];
  stream = stream false;
  logged = event severe 5 ∷ [];
  lost = [];
}

failed-Reach : Reach (recorded switch) (init (stream false)) failed
unfolding write level_lt severity
failed-Reach =
    Reach.next (Reach.next Reach.here (Step.find_none (event severe 5) refl refl))
      (Step.log_fails refl refl)

-- The event waits in the queue of a retry thread.
abbrev queued : State (Bool × List LogEvent)
queued = record {
  log_pc = LogPc.idle;
  retry_pc = RetryPc.sleeping;
  queue = event severe 5 ∷ [];
  stream = stream false;
  logged = event severe 5 ∷ [];
  lost = [];
}

queued-Reach : Reach (recorded switch) (init (stream false)) queued
unfolding enqueue
queued-Reach = Reach.next (Reach.next failed-Reach (Step.start refl)) (Step.put_first refl)

severe_in_order_example :
    severe_only (delivered (stream false))
      ++ (kept fine (event severe 5 ∷ []) ++ kept fine (in_hand LogPc.idle))
    ≡ kept fine (event severe 5 ∷ [])
severe_in_order_example = severe_in_order switch (stream false) queued refl refl queued-Reach

writer_alone_example : (failed.retry_pc ≡ RetryPc.absent) × (failed.queue ≡ [])
writer_alone_example =
    writer_alone switch (stream false) failed (event severe 5) refl failed-Reach (inr refl)

-- A sink that works from the second write on.
abbrev second_time : StreamClass Bool
second_time = record {
  do_write = λ e s. (s, true);
  name = λ s. codes "slow";
  retry_time = λ s. 30;
  destructor = λ s. true;
}

abbrev slow : OutputStream Bool
slow = record { min_log_level = fine; sink = false }

strands_example :
    Reach second_time (init slow) (stranded_at second_time slow (event info 5) (event severe 6))
    × Stranded
        (event severe 6)
        (write second_time (event info 5) (write second_time (event info 5) slow).1).1
        (stranded_at second_time slow (event info 5) (event severe 6))
unfolding write level_lt severity
strands_example =
    strands second_time slow (event info 5) (event severe 6)
      (stranded_at second_time slow (event info 5) (event severe 6)) refl refl Reach.here
