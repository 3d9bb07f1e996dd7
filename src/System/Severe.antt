-- ===== src/System/Severe.antt =====
-- A turn of a retry thread loses no severe event.
pub mod Schedule
use mathlib.Core.List.{map-append}
use epics_logfile.Base.{
  ℕ, ◌^◌, ◌<◌, ◌≡◌, refl, sym, ap, ◌∙◌, subst, true, false, List, [], ◌∷◌, ◌++◌, append-nil,
  append_assoc, Option, none, some, inl, inr, keep_if, keep_if-append, arith, ◌==◌, ==_iff,
  Bool-cases, Bytes, All-map_fact, map,
}
use epics_logfile.Base.Map.{nat_key, find, find-assign_self, find-assign_other}
use epics_logfile.Event.{LogEvent}
use epics_logfile.OutputStream.{StreamClass, OutputStream, recorded, delivered, clears}
use epics_logfile.Retry
use epics_logfile.Retry.{Queue, is_expired}
use epics_logfile.Retry.Laws.{turn_conserves}
use epics_logfile.LogThread.{LogThread, RetryPointer}
use epics_logfile.LogThread.Handed.{history, IsLive, RetryLive}
use epics_logfile.LogThread.History.{addresses, stamped, occurrences, AllLive, log_all-Logged}
use epics_logfile.System.{Action, logs, retries, retry, retry_with, act, act_all}
use epics_logfile.System.Kept.{is_severe, severe_only, severe_only_split, log_all_one}

module _ {S : Type 0} (cls : StreamClass S) where
  abbrev rec : StreamClass (S × List LogEvent)
  rec = recorded cls

  turn_severe :
      (now : ℕ) (q : Queue) (o : OutputStream (S × List LogEvent))
      → now < 2 ^ 63
      → let (kept, o', more) = Retry.turn rec now q o in
        (severe_only (delivered o' ++ keep_if (clears o'.min_log_level) kept)
          ≡ severe_only (delivered o ++ keep_if (clears o.min_log_level) q))
        × (o'.min_log_level ≡ o.min_log_level)
  turn_severe now q o h =
      let (written, unwritten, split, given, left, min) = turn_conserves cls now q o in
      (
        rw (min, given, left)
            (severe_only_split now (delivered o) written unwritten (clears o.min_log_level) h
              ∙ ap (λ x. severe_only (delivered o ++ keep_if (clears o.min_log_level) x))
                  (sym split)),
        min,
      )

  -- No stream in use is deleted.
  pub record IsWellFormed (t : LogThread (S × List LogEvent)) : Type 0 where
    pub live : AllLive t
    pub retry_live : RetryLive t

  pub record Survive (es : List LogEvent) (strftime : ℕ → Bytes) (b : ℕ)
      (o : OutputStream (S × List LogEvent)) (t t' : LogThread (S × List LogEvent)) : Type 0 where
    pub own :
        severe_only (history b t')
        ≡ severe_only (history b t ++ keep_if (clears o.min_log_level) (map (stamped strftime) es))
    pub after : OutputStream (S × List LogEvent)
    pub stays : t'.heap b ≡ some after
    pub minimum : after.min_log_level ≡ o.min_log_level
    pub same_streams : t'.streams ≡ t.streams
    pub valid : IsWellFormed t'

  unchanged :
      (strftime : ℕ → Bytes) (b : ℕ) (o : OutputStream (S × List LogEvent))
      (t : LogThread (S × List LogEvent))
      → IsWellFormed t
      → t.heap b ≡ some o
      → Survive [] strftime b o t t
  unchanged strftime b o t v h = record {
    own = ap severe_only (sym (append-nil (history b t)));
    after = o;
    stays = h;
    minimum = refl;
    same_streams = refl;
    valid = v;
  }

  module _ (strftime : ℕ → Bytes) (a now : ℕ) (q : Queue) (p : OutputStream (S × List LogEvent))
      (t : LogThread (S × List LogEvent)) where
    abbrev result : LogThread (S × List LogEvent)
    result = retry_with rec true strftime a now q p t

    abbrev turned : OutputStream (S × List LogEvent)
    turned = (Retry.turn rec now q p).1

    result-IsLive : (c : ℕ) → IsLive t c → IsLive result c
    unfolding retry_with
    result-IsLive c l = elim (Bool-cases (a == c)) [
      | inl same ↦ (turned, rw same)
      | inr other ↦ (l.0, rw other l.1)
    ]

    result-IsWellFormed : t.heap a ≡ some p → IsWellFormed t → IsWellFormed result
    unfolding retry_with
    result-IsWellFormed h v = record {
      live = All-map_fact (IsLive t) (IsLive result) (addresses t) result-IsLive v.live;
      retry_live = λ c k e. elim (Bool-cases (a == c)) [
        | inl same ↦ result-IsLive c (p, subst (λ x. t.heap x ≡ some p) ((==_iff a c).0 same) h)
        | inr other ↦
            result-IsLive c (v.retry_live c k (sym (find-assign_other a c _ t.retry_map other) ∙ e))
      ];
    }

    result_self :
        t.heap a ≡ some p
        → find a t.retry_map ≡ some (some q)
        → now < 2 ^ 63
        → severe_only (history a result) ≡ severe_only (history a t)
    unfolding retry_with
    result_self h r time =
        let eq : (a == a) ≡ true = ground arith in
        rw (eq, h, r, find-assign_self a (some (Retry.turn rec now q p).0) (some q) t.retry_map r)
          ((turn_severe now q p time).0)

    result_other :
        (b : ℕ) → (a == b) ≡ false → (result.heap b ≡ t.heap b) × (history b result ≡ history b t)
    unfolding retry_with
    result_other b other = (
      rw other,
      rw (other, find-assign_other a b (some (Retry.turn rec now q p).0) t.retry_map other),
    )

    result-Survive :
        (b : ℕ) (o : OutputStream (S × List LogEvent))
        → now < 2 ^ 63
        → IsWellFormed t
        → t.heap a ≡ some p
        → find a t.retry_map ≡ some (some q)
        → t.heap b ≡ some o
        → Survive [] strftime b o t result
    unfolding retry_with
    result-Survive b o time v ha r hb = elim (Bool-cases (a == b)) [
      | inl same ↦
          let ab = (==_iff a b).0 same in
          let po : p ≡ o = cc (ap t.heap ab) in
          record {
            own =
                subst (λ x. severe_only (history x result) ≡ severe_only (history x t)) ab
                  (result_self ha r time)
                ∙ ap severe_only (sym (append-nil (history b t)));
            after = turned;
            stays = rw same;
            minimum = (turn_severe now q p time).1 ∙ ap (λ x. x.min_log_level) po;
            same_streams = refl;
            valid = result-IsWellFormed ha v;
          }
      | inr other ↦ record {
        own = ap severe_only ((result_other b other).1 ∙ sym (append-nil (history b t)));
        after = o;
        stays = (result_other b other).0 ∙ hb;
        minimum = refl;
        same_streams = refl;
        valid = result-IsWellFormed ha v;
      }
    ]

  pub retry-Survive :
      (strftime : ℕ → Bytes) (a now b : ℕ) (o : OutputStream (S × List LogEvent))
      (t : LogThread (S × List LogEvent))
      → now < 2 ^ 63
      → IsWellFormed t
      → t.heap b ≡ some o
      → (t' : LogThread (S × List LogEvent)) × (retry rec true strftime a now t ≡ some t')
        × Survive [] strftime b o t t'
  unfolding retry retry_with
  retry-Survive strftime a now b o t time v h0 = go (find a t.retry_map) refl
    where
      go :
          (r : Option RetryPointer)
          → find a t.retry_map ≡ r
          → (t' : LogThread (S × List LogEvent)) × (retry rec true strftime a now t ≡ some t')
            × Survive [] strftime b o t t'
      go none r = (t, rw (r, retry), unchanged strftime b o t v h0)
      go (some none) r = (t, rw (r, retry), unchanged strftime b o t v h0)
      go (some (some [])) r = (t, rw (r, retry), unchanged strftime b o t v h0)
      go (some (some (e ∷ q))) r =
          let (p, h) = v.retry_live a (e ∷ q) r in
          (
            retry_with rec true strftime a now (e ∷ q) p t,
            rw (r, retry) (rw h),
            result-Survive strftime a now (e ∷ q) p t b o time v h r h0,
          )
