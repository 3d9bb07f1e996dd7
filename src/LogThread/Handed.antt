-- ===== src/LogThread/Handed.antt =====
-- What a stream has been given, and what handing it an event does.
use epics_logfile.Base.{
  ℕ, ◌≡◌, sym, subst, ◌∙◌, false, List, [], ◌∷◌, ◌++◌, Option, none, some, inl, inr, keep_if, ◌==◌,
  ==_iff, if◌then◌else◌, Bool-cases,
}
use epics_logfile.Base.Map.{nat_key, find}
use epics_logfile.Event.{LogEvent}
use epics_logfile.OutputStream.{OutputStream, delivered, clears}
use epics_logfile.Retry.{Queue}
use epics_logfile.LogThread.{LogThread, RetryPointer}

-- An event once for each time that address `b` stands in the list.
abbrev pub copies : {A : Type 0} → ℕ → List ℕ → List A → List A
copies b [] es = []
copies b (a ∷ rest) es = (if a == b then es else []) ++ copies b rest es

module _ {S : Type 0} where
  -- What a stream was given and has not lost: delivered, or waiting for a retry and let through by
  -- the minimum level.
  abbrev pub history_of :
      Option (OutputStream (S × List LogEvent)) → Option RetryPointer → List LogEvent
  history_of none r = []
  history_of (some o) none = delivered o
  history_of (some o) (some none) = delivered o
  history_of (some o) (some (some q)) = delivered o ++ keep_if (clears o.min_log_level) q

  abbrev pub history : ℕ → LogThread (S × List LogEvent) → List LogEvent
  history a t = history_of (t.heap a) (find a t.retry_map)

  -- The effect of handing `e` to the stream `o` at `a`.
  pub record Handed (e : LogEvent) (a : ℕ) (o : OutputStream (S × List LogEvent))
      (t t' : LogThread (S × List LogEvent)) : Type 0 where
    pub own : history a t' ≡ history a t ++ keep_if (clears o.min_log_level) (e ∷ [])
    pub after : OutputStream (S × List LogEvent)
    pub stays : t'.heap a ≡ some after
    pub minimum : after.min_log_level ≡ o.min_log_level
    pub others :
        (b : ℕ)
        → (a == b) ≡ false
        → (t'.heap b ≡ t.heap b) × (find b t'.retry_map ≡ find b t.retry_map)
    pub same_streams : t'.streams ≡ t.streams
    pub same_events : t'.events ≡ t.events

  -- The address holds a stream that is not deleted.
  abbrev pub IsLive : LogThread (S × List LogEvent) → ℕ → Type 0
  IsLive t a = (o : OutputStream (S × List LogEvent)) × (t.heap a ≡ some o)

  -- No retry thread holds a deleted stream.
  abbrev pub RetryLive : LogThread (S × List LogEvent) → Type 0
  RetryLive t = (a : ℕ) (q : Queue) → find a t.retry_map ≡ some (some q) → IsLive t a

  pub Handed-RetryLive :
      (e : LogEvent) (a : ℕ) (o : OutputStream (S × List LogEvent))
      (t t' : LogThread (S × List LogEvent))
      → Handed e a o t t'
      → RetryLive t
      → RetryLive t'
  Handed-RetryLive e a o t t' s live b q h = elim (Bool-cases (a == b)) [
    | inl same ↦ subst (IsLive t') ((==_iff a b).0 same) (s.after, s.stays)
    | inr other ↦
        let (hb, rb) = s.others b other in let (p, l) = live b q (sym rb ∙ h) in (p, hb ∙ l)
  ]

  -- Handing an event to the streams at a list of addresses, all of them live.
  pub record HandedAll (e : LogEvent) (at : List ℕ) (t t' : LogThread (S × List LogEvent))
      : Type 0 where
    pub histories :
        (b : ℕ) (o : OutputStream (S × List LogEvent))
        → t.heap b ≡ some o
        → history b t' ≡ history b t ++ copies b at (keep_if (clears o.min_log_level) (e ∷ []))
    pub stay :
        (b : ℕ) (o : OutputStream (S × List LogEvent))
        → t.heap b ≡ some o
        → (o' : OutputStream (S × List LogEvent)) × (t'.heap b ≡ some o')
          × (o'.min_log_level ≡ o.min_log_level)
    pub same_streams : t'.streams ≡ t.streams
    pub retry_live : RetryLive t → RetryLive t'
    pub same_events : t'.events ≡ t.events
