-- ===== src/System/Interleave/Waiting.antt =====
-- The waiting events as the retry thread and its queue change.
use epics_logfile.Base.{ℕ, ◌≡◌, ◌≢◌, refl, ap, true, false, [], ◌∷◌, ◌++◌, drop, arith}
use epics_logfile.Event.{LogEvent}
use epics_logfile.Retry.{Queue, expire}
use epics_logfile.System.Interleave.{LogPc, RetryPc}
use epics_logfile.System.Interleave.Conserve.{waiting, Front, is_absent, Place}

pub is_absent-ne : (r : RetryPc) → r ≢ RetryPc.absent → is_absent r ≡ false
is_absent-ne RetryPc.absent h = absurd (h refl)
is_absent-ne RetryPc.sleeping h = refl
is_absent-ne RetryPc.draining h = refl
is_absent-ne RetryPc.expiring h = refl
is_absent-ne RetryPc.checking h = refl
is_absent-ne RetryPc.stopped h = refl
is_absent-ne (RetryPc.trying e) h = refl
is_absent-ne (RetryPc.written e) h = refl

pub is_absent→absent : (r : RetryPc) → is_absent r ≡ true → r ≡ RetryPc.absent
is_absent→absent RetryPc.absent h = refl
is_absent→absent RetryPc.sleeping h = ground arith
is_absent→absent RetryPc.draining h = ground arith
is_absent→absent RetryPc.expiring h = ground arith
is_absent→absent RetryPc.checking h = ground arith
is_absent→absent RetryPc.stopped h = ground arith
is_absent→absent (RetryPc.trying e) h = ground arith
is_absent→absent (RetryPc.written e) h = ground arith

pub waiting-nil : (r : RetryPc) (q : Queue) → q ≡ [] → waiting r q ≡ []
waiting-nil (RetryPc.written e) q h = ap (drop 1) h
waiting-nil RetryPc.absent q h = h
waiting-nil RetryPc.sleeping q h = h
waiting-nil RetryPc.draining q h = h
waiting-nil RetryPc.expiring q h = h
waiting-nil RetryPc.checking q h = h
waiting-nil RetryPc.stopped q h = h
waiting-nil (RetryPc.trying e) q h = h

-- An event at the end does not touch the front.
pub waiting-append :
    (r : RetryPc) (q : Queue) (e : LogEvent)
    → Front r q
    → (waiting r (q ++ e ∷ []) ≡ waiting r q ++ e ∷ []) × Front r (q ++ e ∷ [])
waiting-append (RetryPc.written d) q e (rest, h) = (rw h refl, (rest ++ e ∷ [], rw h refl))
waiting-append (RetryPc.trying d) q e (rest, h) = (refl, (rest ++ e ∷ [], rw h refl))
waiting-append RetryPc.absent q e h = (refl, tt)
waiting-append RetryPc.sleeping q e h = (refl, tt)
waiting-append RetryPc.draining q e h = (refl, tt)
waiting-append RetryPc.expiring q e h = (refl, tt)
waiting-append RetryPc.checking q e h = (refl, tt)
waiting-append RetryPc.stopped q e h = (refl, tt)

pub Place_moved :
    (l : LogPc) (r r' : RetryPc) (q q' : Queue)
    → is_absent r ≡ false
    → is_absent r' ≡ false
    → (q ≡ [] → q' ≡ [])
    → Place l r q
    → Place l r' q'
Place_moved LogPc.idle r r' q q' a b k h = λ c. ground arith
Place_moved (LogPc.checked e) r r' q q' a b k h = b
Place_moved (LogPc.joining e) r r' q q' a b k h = (b, k h.1)
Place_moved (LogPc.writing e) r r' q q' a b k h = ground arith
Place_moved (LogPc.failed e) r r' q q' a b k h = ground arith
Place_moved (LogPc.started e) r r' q q' a b k h = (b, k h.1)

pub expire-nil : (now : ℕ) (q : Queue) → q ≡ [] → (expire now q).0 ≡ []
unfolding expire
expire-nil now q h = rw h refl
