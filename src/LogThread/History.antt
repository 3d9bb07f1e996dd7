-- ===== src/LogThread/History.antt =====
-- What becomes of all the events that the log thread takes from its queue.
use epics_logfile.Base.{
  ℕ, ◌+◌, ◌≡◌, refl, sym, ap, ◌∙◌, true, List, [], ◌∷◌, ◌++◌, append-nil, append_assoc, some,
  keep_if, keep_if-append, arith, ◌==◌, if◌then◌else◌, Bytes, All, All-map_fact, map,
}
use epics_logfile.Event.{LogEvent, format_time}
use epics_logfile.OutputStream.{StreamClass, OutputStream, recorded, clears}
use epics_logfile.LogThread.{LogThread, log, log_all}
use epics_logfile.LogThread.Handed.{copies, history, IsLive, RetryLive, HandedAll}
use epics_logfile.LogThread.Deliver.{deliver_all-HandedAll}

-- The addresses of the streams, in the order of the map.
abbrev pub addresses : {S : Type 0} → LogThread S → List ℕ
addresses t = map (λ s. s.1) t.streams

-- The event as the log thread hands it out, with its time as a text.
unfoldable pub stamped : (ℕ → Bytes) → LogEvent → LogEvent
stamped strftime e = record e { time_string = format_time strftime e.time }

-- The stream stands in the map under one name.
unfoldable pub occurrences : ℕ → List ℕ → ℕ
occurrences b [] = 0
occurrences b (a ∷ rest) = (if a == b then 1 else 0) + occurrences b rest

copies_none :
    {A : Type 0} (b : ℕ) (at : List ℕ) (es : List A) → occurrences b at ≡ 0 → copies b at es ≡ []
unfolding occurrences
copies_none b [] es h = refl
copies_none b (a ∷ rest) es h = ground (arith, copies_none b rest es)

copies_one :
    {A : Type 0} (b : ℕ) (at : List ℕ) (es : List A) → occurrences b at ≡ 1 → copies b at es ≡ es
unfolding occurrences
copies_one b [] es h = ground arith
copies_one b (a ∷ rest) es h =
    ground (arith, copies_none b rest es, copies_one b rest es, append-nil es)

module _ {S : Type 0} where
  -- No stream in the map is deleted.
  abbrev pub AllLive : LogThread (S × List LogEvent) → Type 0
  AllLive t = All (IsLive t) (addresses t)

  pub HandedAll-live :
      (e : LogEvent) (at : List ℕ) (t t' : LogThread (S × List LogEvent))
      → HandedAll e at t t'
      → AllLive t
      → AllLive t'
  HandedAll-live e at t t' s live = rw s.same_streams (
      All-map_fact (IsLive t) (IsLive t') (addresses t)
        (λ b l. let (o', h, _) = s.stay b l.0 l.1 in (o', h)) live)

module _ {S : Type 0} (cls : StreamClass S) (strftime : ℕ → Bytes) where
  abbrev rec : StreamClass (S × List LogEvent)
  rec = recorded cls

  pub record Logged (es : List LogEvent) (b : ℕ) (o : OutputStream (S × List LogEvent))
      (t t' : LogThread (S × List LogEvent)) : Type 0 where
    pub own :
        history b t' ≡ history b t ++ keep_if (clears o.min_log_level) (map (stamped strftime) es)
    pub after : OutputStream (S × List LogEvent)
    pub stays : t'.heap b ≡ some after
    pub minimum : after.min_log_level ≡ o.min_log_level
    pub same_streams : t'.streams ≡ t.streams
    pub same_events : t'.events ≡ t.events
    pub live : AllLive t'
    pub retry_live : RetryLive t → RetryLive t'

  -- Events that are logged one after the other, all streams being live, where retry threads can be
  -- started: no step faults, and the history of a stream listed once grows by those that its minimum
  -- level lets through, in order.
  pub log_all-Logged :
      (es : List LogEvent) (b : ℕ) (o : OutputStream (S × List LogEvent))
      (t : LogThread (S × List LogEvent))
      → AllLive t
      → occurrences b (addresses t) ≡ 1
      → t.heap b ≡ some o
      → (t' : LogThread (S × List LogEvent)) × (log_all rec true strftime es t ≡ some t')
        × Logged es b o t t'
  unfolding log_all log stamped
  log_all-Logged [] b o t live once h = (
    t,
    refl,
    record {
      own = sym (append-nil (history b t));
      after = o;
      stays = h;
      minimum = refl;
      same_streams = refl;
      same_events = refl;
      live = live;
      retry_live = λ l. l;
    },
  )
  log_all-Logged (e ∷ es) b o t live once h =
      let (t1, step, s) = deliver_all-HandedAll cls (stamped strftime e) (addresses t) t live in
      let (o1, h1, m1) = s.stay b o h in
      let (t2, later, r) =
        log_all-Logged es b o1 t1 (HandedAll-live (stamped strftime e) (addresses t) t t1 s live)
          (rw s.same_streams once) h1 in
      (
        t2,
        rw step later,
        record {
          own =
              (rw m1 at r.own)
              ∙ ap (λ d. d ++ keep_if (clears o.min_log_level) (map (stamped strftime) es))
                  (s.histories b o h
                    ∙ ap (λ d. history b t ++ d) (copies_one b (addresses t) _ once))
              ∙ append_assoc (history b t) _ _
              ∙ ap (λ d. history b t ++ d)
                  (sym (keep_if-append (clears o.min_log_level) (stamped strftime e ∷ []) _));
          after = r.after;
          stays = r.stays;
          minimum = r.minimum ∙ m1;
          same_streams = r.same_streams ∙ s.same_streams;
          same_events = r.same_events ∙ s.same_events;
          live = r.live;
          retry_live = λ l. r.retry_live (s.retry_live l);
        },
      )
