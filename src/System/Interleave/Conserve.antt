-- ===== src/System/Interleave/Conserve.antt =====
-- What holds however the steps of the two threads are interleaved.
use epics_logfile.Base.{
  ℕ, ◌^◌, ◌<◌, ◌≡◌, sym, ap, ◌∙◌, Bool, true, false, not, List, [], ◌∷◌, ◌++◌, append-nil,
  append_assoc, keep_if, keep_if-append, drop,
}
use epics_logfile.Level.{Level}
use epics_logfile.Event.{LogEvent}
use epics_logfile.OutputStream.{OutputStream, delivered, clears}
use epics_logfile.Retry.{Queue, expire, is_expired}
use epics_logfile.Retry.Laws.{expire_lem}
use epics_logfile.System.Kept.{is_severe, severe_only, severe_only-kept, keep_if_swap}
use epics_logfile.System.Interleave.{LogPc, RetryPc, State}

-- The severe events that the minimum lets through.
abbrev pub kept : Level → List LogEvent → List LogEvent
kept m es = severe_only (keep_if (clears m) es)

kept-append : (m : Level) (xs ys : List LogEvent) → kept m (xs ++ ys) ≡ kept m xs ++ kept m ys
kept-append m xs ys =
    ap severe_only (keep_if-append (clears m) xs ys)
    ∙ keep_if-append is_severe (keep_if (clears m) xs) (keep_if (clears m) ys)

-- Delivered, waiting and in hand are, as far as severe events go, all that was logged.
abbrev pub Balance : Level → List LogEvent → Queue → List LogEvent → List LogEvent → Type 0
Balance m d w h l = severe_only d ++ (kept m w ++ kept m h) ≡ kept m l

module _ (m : Level) (d : List LogEvent) (l : List LogEvent) where
  pub hand_out :
      (w : Queue) (e : LogEvent) → Balance m d w [] l → Balance m d w (e ∷ []) (l ++ e ∷ [])
  hand_out w e b =
      sym (append_assoc (severe_only d) (kept m w) _)
      ∙ ap (λ x. (severe_only d ++ x) ++ kept m (e ∷ [])) (sym (append-nil (kept m w)))
      ∙ ap (λ x. x ++ kept m (e ∷ [])) b
      ∙ sym (kept-append m l (e ∷ []))

  pub queue_up :
      (w : Queue) (e : LogEvent) → Balance m d w (e ∷ []) l → Balance m d (w ++ e ∷ []) [] l
  queue_up w e b =
      ap (λ x. severe_only d ++ x) (append-nil (kept m (w ++ e ∷ [])) ∙ kept-append m w (e ∷ []))
      ∙ b

  pub log_delivers :
      (e : LogEvent)
      → Balance m d [] (e ∷ []) l
      → Balance m (d ++ keep_if (clears m) (e ∷ [])) [] [] l
  log_delivers e b = append-nil _ ∙ keep_if-append is_severe d (keep_if (clears m) (e ∷ [])) ∙ b

  pub retry_delivers :
      (e : LogEvent) (w : Queue) (h : List LogEvent)
      → Balance m d (e ∷ w) h l
      → Balance m (d ++ keep_if (clears m) (e ∷ [])) w h l
  retry_delivers e w h b =
      ap (λ x. x ++ (kept m w ++ kept m h))
        (keep_if-append is_severe d (keep_if (clears m) (e ∷ [])))
      ∙ append_assoc (severe_only d) (kept m (e ∷ [])) (kept m w ++ kept m h)
      ∙ ap (λ x. severe_only d ++ x) (sym (append_assoc (kept m (e ∷ [])) (kept m w) (kept m h)))
      ∙ ap (λ x. severe_only d ++ (x ++ kept m h)) (sym (kept-append m (e ∷ []) w))
      ∙ b

  pub expiry_keeps :
      (now : ℕ) (w : Queue) (h : List LogEvent)
      → now < 2 ^ 63
      → Balance m d w h l
      → Balance m d (expire now w).0 h l
  expiry_keeps now w h t b =
      ap (λ x. severe_only d ++ (x ++ kept m h))
        (ap (kept m) (expire_lem now w).0
          ∙ keep_if_swap is_severe (clears m) (keep_if (λ e. not (is_expired now e)) w)
          ∙ ap (keep_if (clears m)) (severe_only-kept now w t)
          ∙ sym (keep_if_swap is_severe (clears m) w))
      ∙ b

-- What the log thread holds outside all queues.
abbrev pub in_hand : LogPc → List LogEvent
in_hand LogPc.idle = []
in_hand (LogPc.checked e) = e ∷ []
in_hand (LogPc.joining e) = e ∷ []
in_hand (LogPc.writing e) = e ∷ []
in_hand (LogPc.failed e) = e ∷ []
in_hand (LogPc.started e) = e ∷ []

-- The queue without a front that is written already.
abbrev pub waiting : RetryPc → Queue → Queue
waiting (RetryPc.written e) q = drop 1 q
waiting r q = q

-- The front that the retry thread has read is still there.
abbrev pub Front : RetryPc → Queue → Type 0
Front (RetryPc.trying e) q = (r : Queue) × (q ≡ e ∷ r)
Front (RetryPc.written e) q = (r : Queue) × (q ≡ e ∷ r)
Front r q = Unit

abbrev pub is_absent : RetryPc → Bool
is_absent RetryPc.absent = true
is_absent r = false

-- Where the log thread writes to the stream, there is no retry thread, and no queue.
abbrev pub Place : LogPc → RetryPc → Queue → Type 0
Place LogPc.idle r q = is_absent r ≡ true → q ≡ []
Place (LogPc.checked e) r q = is_absent r ≡ false
Place (LogPc.joining e) r q = (is_absent r ≡ false) × (q ≡ [])
Place (LogPc.writing e) r q = (is_absent r ≡ true) × (q ≡ [])
Place (LogPc.failed e) r q = (is_absent r ≡ true) × (q ≡ [])
Place (LogPc.started e) r q = (is_absent r ≡ false) × (q ≡ [])

pub record Inv {S : Type 0} (m : Level) (lp : LogPc) (rp : RetryPc) (q : Queue)
    (o : OutputStream (S × List LogEvent)) (l x : List LogEvent) : Type 0 where
  pub minimum : o.min_log_level ≡ m
  pub own : x ≡ [] → Balance m (delivered o) (waiting rp q) (in_hand lp) l
  pub front : Front rp q
  pub place : Place lp rp q

abbrev pub Holds : {S : Type 0} → Level → State (S × List LogEvent) → Type 0
Holds m s = Inv m s.log_pc s.retry_pc s.queue s.stream s.logged s.lost
