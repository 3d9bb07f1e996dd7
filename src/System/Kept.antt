-- ===== src/System/Kept.antt =====
-- The severe events of a queue, through expiry.
use epics_logfile.Base.{
  ℕ, ◌^◌, ◌<◌, ◌≡◌, refl, sym, ap, ◌∙◌, Bool, true, not, List, [], ◌∷◌, ◌++◌, append_assoc, inl,
  inr, keep_if, keep_if-append, arith, ◌==◌, Option-cases, Bytes,
}
use epics_logfile.Base.Map.{nat_key}
use epics_logfile.Level.{Level, severe, severity}
use epics_logfile.Event.{LogEvent}
use epics_logfile.OutputStream.{StreamClass}
use epics_logfile.Retry.{Queue, is_expired}
use epics_logfile.Retry.Laws.{severe_never_expires}
use epics_logfile.LogThread.{LogThread, log, log_all}

unfoldable pub is_severe : LogEvent → Bool
unfolding severity
is_severe e = severity e.level == 6

is_severe→severe : (l : Level) → (severity l == 6) ≡ true → l ≡ severe
unfolding severity
is_severe→severe l h = ground arith

abbrev pub severe_only : List LogEvent → List LogEvent
severe_only = keep_if is_severe

-- Expiry leaves the severe events alone.
pub severe_only-kept :
    (now : ℕ) (q : Queue)
    → now < 2 ^ 63
    → severe_only (keep_if (λ e. not (is_expired now e)) q) ≡ severe_only q
unfolding is_severe
severe_only-kept now [] h = refl
severe_only-kept now (e ∷ q) h =
    ground (arith, severe_only-kept now q h, severe_never_expires now e, is_severe→severe e.level)

-- The filters by level and by minimum can be swapped.
pub keep_if_swap :
    (p r : LogEvent → Bool) (q : Queue) → keep_if p (keep_if r q) ≡ keep_if r (keep_if p q)
keep_if_swap p r [] = refl
keep_if_swap p r (e ∷ q) = ground (arith, keep_if_swap p r q)

-- A turn that wrote `w`, and left `u` to expiry, has kept all severe events.
pub severe_only_split :
    (now : ℕ) (d w u : Queue) (p : LogEvent → Bool)
    → now < 2 ^ 63
    → severe_only ((d ++ keep_if p w) ++ keep_if p (keep_if (λ e. not (is_expired now e)) u))
      ≡ severe_only (d ++ keep_if p (w ++ u))
severe_only_split now d w u p h =
    simp (keep_if-append, append_assoc)
      (ap (λ x. severe_only d ++ (severe_only (keep_if p w) ++ x))
        (keep_if_swap is_severe p (keep_if (λ e. not (is_expired now e)) u)
          ∙ ap (keep_if p) (severe_only-kept now u h)
          ∙ sym (keep_if_swap is_severe p u)))

pub log_all_one :
    {S : Type 0} (cls : StreamClass S) (strftime : ℕ → Bytes) (e : LogEvent) (t : LogThread S)
    → log cls true strftime e t ≡ log_all cls true strftime (e ∷ []) t
unfolding log_all
log_all_one cls strftime e t = elim (Option-cases (log cls true strftime e t)) [
  | inl h ↦ rw h
  | inr (t', h) ↦ rw h
]
