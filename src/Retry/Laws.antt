-- ===== src/Retry/Laws.antt =====
-- One turn of the retry thread.
use mathlib.Core.List.{append_cancel_right}
use epics_logfile.Base.{
  ℕ, ◌+◌, ◌^◌, ◌≡◌, ◌↔◌, ◌<◌, inl, inr, refl, sym, ap, ◌∙◌, true, false, not, List, [], ◌∷◌, ◌++◌,
  append-nil, append_assoc, arith, keep_if, keep_if-append, length, Bool-cases,
}
use epics_logfile.Level.{severe}
use epics_logfile.Event.{LogEvent}
use epics_logfile.OutputStream.{
  StreamClass, OutputStream, write, recorded, delivered, clears, write_ok, write_failed,
  write-min_log_level,
}
use epics_logfile.Retry.{Queue, active, expire, is_expired, drain, turn}

-- Expiry keeps the events that have not expired, in their order, and counts the others.
pub expire_lem :
    (now : ℕ) (q : Queue)
    → ((expire now q).0 ≡ keep_if (λ e. not (is_expired now e)) q)
      × ((expire now q).1 + length (expire now q).0 ≡ length q)
unfolding expire
expire_lem now [] = (refl, omega arith)
expire_lem now (e ∷ q) = ground (arith, expire_lem now q)

-- An event of level severe never expires, at any time that a 64-bit count of nanoseconds can give.
pub severe_never_expires :
    (now : ℕ) (e : LogEvent) → e.level ≡ severe → now < 2 ^ 63 → is_expired now e ≡ false
unfolding is_expired
severe_never_expires now e h t = ground arith

pub active_iff : (q : Queue) → (active q ≡ false) ↔ (q ≡ [])
unfolding active
active_iff [] = ground arith
active_iff (e ∷ q) = (λ h. cc, λ h. cc)

module _ {S : Type 0} (cls : StreamClass S) where
  -- A sink that never fails empties the queue.
  pub drain_all :
      (q : Queue) (o : OutputStream S)
      → ((e : LogEvent) (s : S) → (cls.do_write e s).0 ≡ true)
      → (drain cls q o).0 ≡ []
  unfolding drain write
  drain_all [] o h = refl
  drain_all (e ∷ q) o h = ground (arith, h e o.sink, drain_all q (write cls e o).1 h)

module _ {S : Type 0} (cls : StreamClass S) where
  abbrev rec : StreamClass (S × List LogEvent)
  rec = recorded cls

  drain-min_log_level :
      (q : Queue) (o : OutputStream (S × List LogEvent))
      → (drain rec q o).1.min_log_level ≡ o.min_log_level
  unfolding drain
  drain-min_log_level [] o = refl
  drain-min_log_level (e ∷ q) o =
      ground (arith, write-min_log_level rec e o, drain-min_log_level q (write rec e o).1)

  -- Draining delivers, in order, the events that the minimum lets through: what was delivered
  -- before and is waiting is the same as what is delivered after and still waits.
  pub drain_conserves :
      (q : Queue) (o : OutputStream (S × List LogEvent))
      → delivered (drain rec q o).1 ++ keep_if (clears o.min_log_level) (drain rec q o).0
        ≡ delivered o ++ keep_if (clears o.min_log_level) q
  unfolding drain
  drain_conserves [] o = refl
  drain_conserves (e ∷ q) o = elim (Bool-cases (write rec e o).0) [
    | inl done ↦ rw done (
        (rw write-min_log_level at (drain_conserves q (write rec e o).1))
        ∙ ap (λ d. d ++ keep_if (clears o.min_log_level) q) (write_ok cls e o done)
        ∙ append_assoc (delivered o) _ _
        ∙ ap (λ d. delivered o ++ d) (sym (keep_if-append (clears o.min_log_level) (e ∷ []) q)))
    | inr failed ↦
        rw failed
          (ap (λ d. d ++ keep_if (clears o.min_log_level) (e ∷ q)) (write_failed cls e o failed).0)
  ]

  -- What is left of the queue is its end, from the first event whose write failed.
  drain-suffix :
      (q : Queue) (o : OutputStream (S × List LogEvent))
      → (written : Queue) × (q ≡ written ++ (drain rec q o).0)
  unfolding drain
  drain-suffix [] o = ([], refl)
  drain-suffix (e ∷ q) o = elim (Bool-cases (write rec e o).0) [
    | inl done ↦ let (w, h) = drain-suffix q (write rec e o).1 in (e ∷ w, rw done (ap (◌∷◌ e) h))
    | inr failed ↦ ([], rw failed)
  ]

  -- A turn delivers a first part of the queue, in order, and of the rest only what has expired goes.
  pub turn_conserves :
      (now : ℕ) (q : Queue) (o : OutputStream (S × List LogEvent))
      → let (kept, o', more) = turn rec now q o in
        (written : Queue) × (unwritten : Queue) × (q ≡ written ++ unwritten)
        × (delivered o' ≡ delivered o ++ keep_if (clears o.min_log_level) written)
        × (kept ≡ keep_if (λ e. not (is_expired now e)) unwritten)
        × (o'.min_log_level ≡ o.min_log_level)
  unfolding turn
  turn_conserves now q o =
      let (written, split) = drain-suffix q o in
      let min = o.min_log_level in
      (
        written,
        (drain rec q o).0,
        split,
        append_cancel_right _ _ (keep_if (clears min) (drain rec q o).0) (
            drain_conserves q o
            ∙ ap (λ d. delivered o ++ keep_if (clears min) d) split
            ∙ ap (λ d. delivered o ++ d) (keep_if-append (clears min) written (drain rec q o).0)
            ∙ sym (append_assoc (delivered o) _ _)),
        (expire_lem now (drain rec q o).0).0,
        drain-min_log_level q o,
      )

  -- A turn ends the thread exactly when it leaves the queue empty.
  pub turn_stops :
      (now : ℕ) (q : Queue) (o : OutputStream S)
      → ((turn cls now q o).2 ≡ false) ↔ ((turn cls now q o).0 ≡ [])
  unfolding turn
  turn_stops now q o = active_iff (expire now (drain cls q o).0).0

  -- Once the sink works again, one turn delivers the whole queue and ends the thread.
  pub turn_recovers :
      (now : ℕ) (q : Queue) (o : OutputStream (S × List LogEvent))
      → ((e : LogEvent) (s : S) → (cls.do_write e s).0 ≡ true)
      → let (kept, o', more) = turn rec now q o in
        (kept ≡ [])
        × (more ≡ false)
        × (delivered o' ≡ delivered o ++ keep_if (clears o.min_log_level) q)
  unfolding turn expire active
  turn_recovers now q o h =
      let emptied = drain_all rec q o (λ e p. h e p.0) in
      (
        rw emptied,
        rw emptied,
        sym (append-nil _)
            ∙ ap (λ d. delivered (drain rec q o).1 ++ keep_if (clears o.min_log_level) d)
                (sym emptied)
            ∙ drain_conserves q o,
      )
