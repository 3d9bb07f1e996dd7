-- ===== src/System/Run/Steps.antt =====
-- The account of a stream through what a round of the log thread is made of.
use epics_logfile.Base.{
  ℕ, ◌≡◌, refl, sym, ap, ◌∙◌, Bool, true, List, [], ◌∷◌, ◌++◌, append-nil, append_assoc, Option,
  none, some, inl, inr, arith, Option-cases, Bytes,
}
use epics_logfile.Base.Map.{nat_key, find}
use epics_logfile.Event.{LogEvent}
use epics_logfile.OutputStream.{StreamClass, OutputStream, recorded, delivered}
use epics_logfile.Retry.{Queue}
use epics_logfile.LogThread.{LogThread, RetryPointer, push, push_all, sweep, log_all}
use epics_logfile.LogThread.Handed.{history, history_of}
use epics_logfile.LogThread.History.{addresses, occurrences, log_all-Logged}
use epics_logfile.LogThread.Finish.{push_all_keeps}
use epics_logfile.LogThread.Teardown.{push_all-streams}
use epics_logfile.System.Kept.{severe_only}
use epics_logfile.System.Severe.{IsWellFormed}
use epics_logfile.System.Run.Account.{through, through-append, account, Keeps}

sweep-find :
    {S : Type 0} (m m' : List (ℕ × RetryPointer)) (still : Bool) (b : ℕ)
    (o : Option (OutputStream (S × List LogEvent)))
    → sweep m ≡ some (m', still)
    → history_of o (find b m') ≡ history_of o (find b m)
unfolding sweep find
sweep-find m m' still b none e = refl
sweep-find [] m' still b (some o) e = ground arith
sweep-find ((a, none) ∷ m) m' still b (some o) e = cc
sweep-find ((a, some []) ∷ m) m' still b (some o) e = elim (Option-cases (sweep m)) [
  | inl none_left ↦ cc (rw none_left at e)
  | inr ((rest, other), swept) ↦
      ground
        (arith, append-nil (delivered o), sweep-find m rest other b (some o) swept, rw swept at e)
]
sweep-find ((a, some (x ∷ k)) ∷ m) m' still b (some o) e = elim (Option-cases (sweep m)) [
  | inl none_left ↦ cc (rw none_left at e)
  | inr ((rest, other), swept) ↦
      ground (arith, sweep-find m rest other b (some o) swept, rw swept at e)
]

sweep-queues :
    (m m' : List (ℕ × RetryPointer)) (still : Bool) (b : ℕ) (q : Queue)
    → sweep m ≡ some (m', still)
    → find b m' ≡ some (some q)
    → find b m ≡ some (some q)
unfolding sweep find
sweep-queues [] m' still b q e h = ground arith
sweep-queues ((a, none) ∷ m) m' still b q e h = cc
sweep-queues ((a, some []) ∷ m) m' still b q e h = elim (Option-cases (sweep m)) [
  | inl none_left ↦ cc (rw none_left at e)
  | inr ((rest, other), swept) ↦ ground (arith, sweep-queues m rest other b q swept, rw swept at e)
]
sweep-queues ((a, some (x ∷ k)) ∷ m) m' still b q e h = elim (Option-cases (sweep m)) [
  | inl none_left ↦ cc (rw none_left at e)
  | inr ((rest, other), swept) ↦ ground (arith, sweep-queues m rest other b q swept, rw swept at e)
]

push_all-events :
    {S : Type 0} (es : List LogEvent) (t : LogThread S) → (push_all es t).events ≡ t.events ++ es
unfolding push_all push
push_all-events [] t = sym (append-nil t.events)
push_all-events (e ∷ es) t = push_all-events es (push e t) ∙ append_assoc t.events (e ∷ []) es

module _ {S : Type 0} (cls : StreamClass S) (strftime : ℕ → Bytes) (b : ℕ)
    (o : OutputStream (S × List LogEvent)) (t : LogThread (S × List LogEvent)) where
  abbrev rec : StreamClass (S × List LogEvent)
  rec = recorded cls

  pub take-Keeps :
      IsWellFormed cls t
      → occurrences b (addresses t) ≡ 1
      → t.heap b ≡ some o
      → (t' : LogThread (S × List LogEvent)) × (log_all rec true strftime t.events
            (record t { events = [] })
          ≡ some t')
        × Keeps cls strftime [] b o t t'
  take-Keeps v once h =
      let (t', step, s) =
        log_all-Logged cls strftime t.events b o (record t { events = [] }) v.live once h in
      (
        t',
        step,
        record {
          own = ap severe_only (
              ap (λ es. history b t' ++ through strftime o.min_log_level es) s.same_events
              ∙ append-nil (history b t')
              ∙ s.own
              ∙ sym (append-nil (account strftime o.min_log_level b t)));
          after = s.after;
          stays = s.stays;
          minimum = s.minimum;
          same_streams = s.same_streams;
          valid = record { live = s.live; retry_live = s.retry_live v.retry_live };
        },
      )

  pub push_all-Keeps :
      (es : List LogEvent)
      → IsWellFormed cls t
      → t.heap b ≡ some o
      → Keeps cls strftime es b o t (push_all es t)
  push_all-Keeps es v h =
      let (heap, retry_map, _) = push_all_keeps es t in
      let l = o.min_log_level in
      record {
        own = ap severe_only (
            ap (λ x. history b (push_all es t) ++ through strftime l x) (push_all-events es t)
            ∙ ap (λ x. history b (push_all es t) ++ x) (through-append strftime l t.events es)
            ∙ sym (append_assoc (history b (push_all es t)) (through strftime l t.events) _)
            ∙ rw (heap, retry_map));
        after = o;
        stays = rw heap h;
        minimum = refl;
        same_streams = push_all-streams es t;
        valid = record {
          live = rw (heap, push_all-streams es t) v.live;
          retry_live = rw (heap, retry_map) v.retry_live;
        };
      }

  pub sweep-Keeps :
      (m : List (ℕ × RetryPointer)) (still : Bool)
      → IsWellFormed cls t
      → t.heap b ≡ some o
      → sweep t.retry_map ≡ some (m, still)
      → Keeps cls strftime [] b o t (record t { retry_map = m })
  sweep-Keeps m still v h e = record {
    own = ap severe_only (
        ap (λ x. x ++ through strftime o.min_log_level t.events)
          (sweep-find t.retry_map m still b (t.heap b) e)
        ∙ sym (append-nil (account strftime o.min_log_level b t)));
    after = o;
    stays = h;
    minimum = refl;
    same_streams = refl;
    valid = record {
      live = v.live;
      retry_live = λ a q f. v.retry_live a q (sweep-queues t.retry_map m still a q e f);
    };
  }

  pub unchanged-Keeps : IsWellFormed cls t → t.heap b ≡ some o → Keeps cls strftime [] b o t t
  unchanged-Keeps v h = record {
    own = ap severe_only (sym (append-nil (account strftime o.min_log_level b t)));
    after = o;
    stays = h;
    minimum = refl;
    same_streams = refl;
    valid = v;
  }
