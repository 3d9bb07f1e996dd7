-- ===== src/Logger/Destroy.antt =====
-- ~logger (logger.cpp): it ends the log thread, and deletes it with the streams.
use epics_logfile.Base.{
  ℕ, ◌<◌, ◌≡◌, ◌≢◌, refl, ap, map, subst, inl, inr, ◌⊎◌, sym, Bool, true, false, List, ◌++◌, Option,
  none, some, Bytes, ◌==◌, if◌then◌else◌,
}
use epics_logfile.Base.Map.{nat_key, find}
use epics_logfile.Event.{LogEvent}
use epics_logfile.OutputStream.{StreamClass, OutputStream, recorded, delivered}
use epics_logfile.Retry.{Queue}
use epics_logfile.LogThread.{LogThread, finished, again, fault, terminate}
use epics_logfile.LogThread.Handed.{history}
use epics_logfile.LogThread.History.{addresses, occurrences, AllLive}
use epics_logfile.LogThread.Teardown.{destroy, destroy-Deletion}
use epics_logfile.System.Kept.{severe_only}
use epics_logfile.System.Severe.{IsWellFormed}
use epics_logfile.System.Run.{Round, do_run, accepted}
use epics_logfile.System.Run.Account.{through}
use epics_logfile.System.Run.Rounds.{InTime}
use epics_logfile.System.Run.Shutdown.{do_run-finished, do_run-IsWellFormed}
use epics_logfile.Logger.{Logger}

-- What the destructor comes to: a fault, or the end of the program in the destructor of a stream; the
-- wait in join, if the log thread still runs after the
-- given rounds; or its end, with what is left of the streams, if the logger had a log thread.
pub data Destroyed (S : Type 0) : Type 0 where
  faulted waiting no_thread : Destroyed S
  deleted : (ℕ → Option (OutputStream S)) → Destroyed S

module _ {S : Type 0} where
  -- `delete m_d->m_thread`.
  unfoldable pub delete_thread : StreamClass S → LogThread S → Destroyed S
  unfolding destroy
  delete_thread cls t = elim (destroy cls t) [
    | none ↦ Destroyed.faulted
    | some heap ↦ Destroyed.deleted heap
  ]

module _ {S : Type 0} (cls : StreamClass S) (can_start : Bool) (strftime : ℕ → Bytes) where
  -- The destructor. The rounds are those of the log thread from the call of terminate on, which
  -- waits for the end of the thread.
  unfoldable pub destroy_logger : List Round → Logger S → Destroyed S
  unfolding do_run terminate delete_thread
  destroy_logger rounds l = elim l.thread [
    | none ↦ Destroyed.no_thread
    | some t ↦ elim (do_run cls can_start strftime rounds (terminate t)) [
      | fault ↦ Destroyed.faulted
      | again t' ↦ Destroyed.waiting
      | finished t' ↦ delete_thread cls t'
    ]
  ]

module _ {S : Type 0} (cls : StreamClass S) (strftime : ℕ → Bytes) where
  abbrev rec : StreamClass (S × List LogEvent)
  rec = recorded cls

  -- What deleting the log thread comes to, for the addresses of its map: each stream there is
  -- deleted once and all others are left, all destructors having returned; or the program ends in
  -- the destructor of a stream.
  abbrev pub Deletes :
      List ℕ → LogThread (S × List LogEvent) → Destroyed (S × List LogEvent) → Type 0
  Deletes at t' result =
      ((heap : ℕ → Option (OutputStream (S × List LogEvent))) × (result ≡ Destroyed.deleted heap)
        × ((a : ℕ) → heap a ≡ (if occurrences a at == 0 then t'.heap a else none))
        × ((a : ℕ) (p : OutputStream (S × List LogEvent))
            → occurrences a at ≡ 1
            → t'.heap a ≡ some p
            → rec.destructor p.sink ≡ true))
      ⊎ ((a : ℕ) × (p : OutputStream (S × List LogEvent)) × (result ≡ Destroyed.faulted)
          × (occurrences a at ≡ 1)
          × (t'.heap a ≡ some p)
          × (rec.destructor p.sink ≡ false))

  delete_thread-Deletes :
      (t : LogThread (S × List LogEvent))
      → AllLive t
      → ((a : ℕ) → occurrences a (addresses t) < 2)
      → Deletes (addresses t) t (delete_thread rec t)
  unfolding delete_thread
  delete_thread-Deletes t live once = elim (destroy-Deletion rec t live once) [
    | inl (heap, step, gone, returned) ↦ inl (heap, rw (step, delete_thread), gone, returned)
    | inr (a, p, step, listed, there, ends) ↦
        inr (a, p, rw (step, delete_thread), listed, there, ends)
  ]

  -- If the log thread ends in the given rounds, by then a stream of its map has no retry thread, and
  -- has been delivered all severe events: its earlier ones, those that waited, and those that came
  -- in before the end, in order, as far as its minimum lets them through. Then ~logger deletes each
  -- stream of the map once and leaves all others, if their destructors return; and otherwise the
  -- program ends in the destructor of one of them. No stream in use was deleted before, none stands
  -- in the map under two names, retry threads can be started, and clock readings are below 2^63 ns.
  pub destroy_logger_lem :
      (rounds : List Round) (l : Logger (S × List LogEvent)) (t t' : LogThread (S × List LogEvent))
      (b : ℕ) (o : OutputStream (S × List LogEvent))
      → InTime rounds
      → IsWellFormed cls t
      → ((a : ℕ) → occurrences a (addresses t) < 2)
      → occurrences b (addresses t) ≡ 1
      → t.heap b ≡ some o
      → l.thread ≡ some t
      → do_run rec true strftime rounds (terminate t) ≡ finished t'
      → ((q : Queue) → find b t'.retry_map ≢ some (some q))
        × ((o' : OutputStream (S × List LogEvent)) × (t'.heap b ≡ some o')
            × (severe_only (delivered o')
                ≡ severe_only (
                    history b t
                    ++ through strftime o.min_log_level
                        (t.events ++ accepted rec true strftime rounds (terminate t)))))
        × Deletes (addresses t) t' (destroy_logger rec true strftime rounds l)
  unfolding destroy_logger terminate
  destroy_logger_lem rounds l t t' b o time v once listed h has_thread e =
      let v' : IsWellFormed cls (terminate t) = record {
        live = v.live;
        retry_live = v.retry_live;
      } in
      let (empty, o', stays, all) =
        do_run-finished cls strftime b rounds o (terminate t) t' time v' listed h e in
      let (same, vt, quiet) =
        do_run-IsWellFormed cls strftime b rounds o (terminate t) t' time v' listed h e in
      let ran : destroy_logger rec true strftime rounds l ≡ delete_thread rec t' =
        rw (has_thread, destroy_logger) (rw e refl) in
      (
        quiet,
        (o', stays, all),
        subst (Deletes (addresses t) t') (sym ran) (
            subst (λ at. Deletes at t' (delete_thread rec t')) (ap (map (λ x. x.1)) same)
              (delete_thread-Deletes t' vt.live (rw same once))),
      )
