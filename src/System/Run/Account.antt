-- ===== src/System/Run/Account.antt =====
-- The severe events that a stream has been given, and those that still wait for the log thread.
use mathlib.Core.List.{map-append}
use epics_logfile.Base.{
  ℕ, ◌≡◌, sym, ap, ◌∙◌, List, ◌++◌, append_assoc, some, keep_if, keep_if-append, Bytes, map,
}
use epics_logfile.Base.Map.{nat_key}
use epics_logfile.Level.{Level}
use epics_logfile.Event.{LogEvent}
use epics_logfile.OutputStream.{StreamClass, OutputStream, clears}
use epics_logfile.LogThread.{LogThread}
use epics_logfile.LogThread.Handed.{history}
use epics_logfile.LogThread.History.{stamped}
use epics_logfile.System.Kept.{is_severe, severe_only}
use epics_logfile.System.Severe.{IsWellFormed}

module _ (strftime : ℕ → Bytes) where
  -- The events as they are handed out, without those that the minimum holds back.
  abbrev pub through : Level → List LogEvent → List LogEvent
  through l es = keep_if (clears l) (map (stamped strftime) es)

  pub through-append :
      (l : Level) (xs ys : List LogEvent) → through l (xs ++ ys) ≡ through l xs ++ through l ys
  through-append l xs ys =
      ap (keep_if (clears l)) (map-append (stamped strftime) xs ys)
      ∙ keep_if-append (clears l) (map (stamped strftime) xs) (map (stamped strftime) ys)

  -- What was given to the stream, and what waits for it in the queue of the log thread.
  abbrev pub account : {S : Type 0} → Level → ℕ → LogThread (S × List LogEvent) → List LogEvent
  account l b t = history b t ++ through l t.events

module _ {S : Type 0} (cls : StreamClass S) (strftime : ℕ → Bytes) where
  -- The account of the stream at `b` grows by the events `es`, as far as they are severe.
  pub record Keeps (es : List LogEvent) (b : ℕ) (o : OutputStream (S × List LogEvent))
      (t t' : LogThread (S × List LogEvent)) : Type 0 where
    pub own :
        severe_only (account strftime o.min_log_level b t')
        ≡ severe_only (account strftime o.min_log_level b t ++ through strftime o.min_log_level es)
    pub after : OutputStream (S × List LogEvent)
    pub stays : t'.heap b ≡ some after
    pub minimum : after.min_log_level ≡ o.min_log_level
    pub same_streams : t'.streams ≡ t.streams
    pub valid : IsWellFormed cls t'

  pub Keeps-trans :
      (xs ys : List LogEvent) (b : ℕ) (o : OutputStream (S × List LogEvent))
      (t t1 t2 : LogThread (S × List LogEvent)) (s : Keeps xs b o t t1)
      → Keeps ys b s.after t1 t2
      → Keeps (xs ++ ys) b o t t2
  Keeps-trans xs ys b o t t1 t2 s r =
      let l = o.min_log_level in
      let first = through strftime l xs in
      let second = through strftime l ys in
      record {
        own =
            (rw s.minimum at r.own)
            ∙ keep_if-append is_severe (account strftime l b t1) second
            ∙ ap (λ d. d ++ severe_only second) s.own
            ∙ sym (keep_if-append is_severe (account strftime l b t ++ first) second)
            ∙ ap severe_only (
                append_assoc (account strftime l b t) first second
                ∙ ap (λ d. account strftime l b t ++ d) (sym (through-append strftime l xs ys)));
        after = r.after;
        stays = r.stays;
        minimum = r.minimum ∙ s.minimum;
        same_streams = r.same_streams ∙ s.same_streams;
        valid = r.valid;
      }
