-- ===== src/LogList/Expiry.antt =====
-- What the loop of expire does to a list whose events are not from the future.
use epics_logfile.Base.{
  ℕ, ◌+◌, ◌-◌, ◌≡◌, refl, ◌∙◌, Bool, true, false, ◌&&◌, ◌||◌, not, List, [], ◌∷◌, none, some,
  length, take, if◌then◌else◌, All, keep_if, arith, append-nil, drop_all,
}
use epics_logfile.Event.{LogEvent}
use epics_logfile.LogList.{
  Signal, is_ahead, is_debug, Expired, remove_run, first_run, behind_run, expire_from, expire,
}

abbrev all_debug : List LogEvent → Bool
all_debug [] = true
all_debug (e ∷ es) = is_debug e && all_debug es

-- No debug entry stands before another entry.
abbrev pub debug_last : List LogEvent → Bool
debug_last [] = true
debug_last (e ∷ es) = if is_debug e then all_debug es else debug_last es

abbrev pub others : List LogEvent → List LogEvent
others = keep_if (λ e. not (is_debug e))

abbrev pub has_debug : List LogEvent → Bool
has_debug [] = false
has_debug (e ∷ es) = is_debug e || has_debug es

others-all_debug : (es : List LogEvent) → all_debug es ≡ true → others es ≡ []
others-all_debug [] h = refl
others-all_debug (e ∷ es) h = ground (arith, others-all_debug es)

others-none : (es : List LogEvent) → has_debug es ≡ false → others es ≡ es
others-none [] h = refl
others-none (e ∷ es) h = ground (arith, others-none es)

take_others : (es : List LogEvent) → debug_last es ≡ true → take (length (others es)) es ≡ others es
take_others [] h = refl
take_others (e ∷ es) h = ground (arith, take_others es, others-all_debug es)

module _ (now : ℕ) (all : List LogEvent) where
  in_run :
      (row first_row : ℕ) (es : List LogEvent)
      → All (λ e. is_ahead now e ≡ false) es
      → expire_from now all row (some first_row) es ≡ (
          if all_debug es
          then remove_run all (row + length es) (some first_row)
          else Expired.invalid_iterator)
  unfolding expire_from first_run behind_run
  in_run row f [] a = ground arith
  in_run row f (e ∷ es) a = ground (arith, a.0, in_run (row + 1) f es a.1)

  before_run :
      (row : ℕ) (es : List LogEvent)
      → All (λ e. is_ahead now e ≡ false) es
      → expire_from now all row none es ≡ (
          if debug_last es
          then remove_run all
              (row + length es)
              (if has_debug es then some (row + length (others es)) else none)
          else Expired.invalid_iterator)
  unfolding expire_from first_run behind_run
  before_run row [] a = ground arith
  before_run row (e ∷ es) a =
      ground
        (arith, a.0, in_run (row + 1) row es a.1, before_run (row + 1) es a.1, others-all_debug es)

-- Where no entry is an hour ahead of the clock, the loop removes all debug entries, however young
-- they are, if they are the last of the list; the views are told of their rows. If a debug entry
-- stands before another entry, the loop goes on with an invalid iterator.
pub expire_lem :
    (now : ℕ) (es : List LogEvent)
    → All (λ e. is_ahead now e ≡ false) es
    → expire now es ≡ (
        if debug_last es
        then Expired.returned
            (if has_debug es
              then some (Signal.remove_rows (length (others es)) (length es - 1))
              else none)
            (others es)
        else Expired.invalid_iterator)
unfolding expire remove_run
expire_lem now es a =
    before_run now es 0 es a
    ∙ ground (arith, take_others es, others-none es, drop_all es, append-nil (others es))
