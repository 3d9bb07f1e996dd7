-- ===== src/LogThread/Deliver.antt =====
-- What becomes of an event at each stream.
use epics_logfile.Base.{
  ℕ, ◌≡◌, refl, sym, ap, subst, ◌∙◌, true, List, [], ◌∷◌, ◌++◌, append-nil, append_assoc, Option,
  none, some, inl, inr, keep_if, keep_if-append, arith, ◌==◌, ==_iff, if◌then◌else◌, Bool-cases,
  All, All-map_fact,
}
use epics_logfile.Base.Map.{
  nat_key, find, emplace, erase, assign, find-emplace_new, find-erase, find-assign_self,
  find-assign_other,
}
use epics_logfile.Event.{LogEvent}
use epics_logfile.OutputStream.{
  StreamClass, OutputStream, write, recorded, delivered, clears, write_ok, write_failed,
  write-min_log_level,
}
use epics_logfile.LogThread.{LogThread, RetryPointer, store, write_now, deliver, deliver_all}
use epics_logfile.LogThread.Handed.{
  copies, history_of, history, Handed, IsLive, Handed-RetryLive, HandedAll,
}

module _ {S : Type 0} (cls : StreamClass S) where
  abbrev rec : StreamClass (S × List LogEvent)
  rec = recorded cls

  self : (a : ℕ) → (a == a) ≡ true
  self a = ground arith

  write_now-Handed :
      (e : LogEvent) (a : ℕ) (o : OutputStream (S × List LogEvent))
      (t : LogThread (S × List LogEvent))
      → t.heap a ≡ some o
      → find a t.retry_map ≡ none
      → (t' : LogThread (S × List LogEvent)) × (write_now rec true e a t ≡ some t')
        × Handed e a o t t'
  unfolding write_now
  write_now-Handed e a o t h r = elim (Bool-cases (write rec e o).0) [
    | inl done ↦ (
      record t { heap = store t.heap a (some (write rec e o).1) },
      rw (h, write_now) (rw done),
      record {
        own = rw (self a, r, h) (write_ok cls e o done);
        after = (write rec e o).1;
        stays = ground arith;
        minimum = write-min_log_level rec e o;
        others = λ b ne. (ground arith, refl);
        same_streams = refl;
        same_events = refl;
      },
    )
    | inr failed ↦ (
      record t {
        heap = store t.heap a (some (write rec e o).1);
        retry_map = emplace a (some (e ∷ [])) t.retry_map;
      },
      rw (h, write_now) (rw failed),
      record {
        own =
            rw (self a, h, r, find-emplace_new a a (some (e ∷ [])) t.retry_map r, self a)
              (rw (write-min_log_level, (write_failed cls e o failed).0));
        after = (write rec e o).1;
        stays = ground arith;
        minimum = write-min_log_level rec e o;
        others = λ b ne. (ground arith, find-emplace_new a b (some (e ∷ [])) t.retry_map r ∙ rw ne);
        same_streams = refl;
        same_events = refl;
      },
    )
  ]

  -- Taking away a null pointer or a finished thread first changes nothing.
  erase_first :
      (e : LogEvent) (a : ℕ) (o : OutputStream (S × List LogEvent))
      (t : LogThread (S × List LogEvent))
      → history_of (some o) (find a t.retry_map) ≡ delivered o
      → t.heap a ≡ some o
      → (t' : LogThread (S × List LogEvent)) × (write_now rec true e a
            (record t { retry_map = erase a t.retry_map })
          ≡ some t')
        × Handed e a o t t'
  erase_first e a o t empty h =
      let gone = find-erase a a t.retry_map ∙ rw self in
      let (t', step, handed) =
        write_now-Handed e a o (record t { retry_map = erase a t.retry_map }) h gone in
      (
        t',
        step,
        record {
          own = handed.own ∙ rw (h, gone, empty);
          after = handed.after;
          stays = handed.stays;
          minimum = handed.minimum;
          others = λ b ne.
              let (hb, rb) = handed.others b ne in (hb, rb ∙ find-erase a b t.retry_map ∙ rw ne);
          same_streams = handed.same_streams;
          same_events = handed.same_events;
        },
      )

  -- Handing an event to a live stream never faults. The event joins the stream's history at its
  -- end, unless the minimum level holds it back, and no other stream is touched.
  deliver-Handed :
      (e : LogEvent) (a : ℕ) (o : OutputStream (S × List LogEvent))
      (t : LogThread (S × List LogEvent))
      → t.heap a ≡ some o
      → (t' : LogThread (S × List LogEvent)) × (deliver rec true e a t ≡ some t')
        × Handed e a o t t'
  unfolding deliver
  deliver-Handed e a o t h = go (find a t.retry_map) refl
    where
      go :
          (r : Option RetryPointer)
          → find a t.retry_map ≡ r
          → (t' : LogThread (S × List LogEvent)) × (deliver rec true e a t ≡ some t')
            × Handed e a o t t'
      go none r = rw (r, deliver) (write_now-Handed e a o t h r)
      go (some none) r = rw (r, deliver) (erase_first e a o t (rw r) h)
      go (some (some [])) r =
          rw (r, deliver) (erase_first e a o t (rw r (append-nil (delivered o))) h)
      go (some (some (x ∷ q))) r =
          rw (r, deliver)
            (
              record t { retry_map = assign a (some (x ∷ q ++ e ∷ [])) t.retry_map },
              refl,
              record {
                own =
                    rw
                      (
                        h,
                        find-assign_self a (some (x ∷ q ++ e ∷ [])) (some (x ∷ q)) t.retry_map r,
                        r,
                      )
                      (ap (λ d. delivered o ++ d)
                          (keep_if-append (clears o.min_log_level) (x ∷ q) (e ∷ []))
                        ∙ sym (append_assoc (delivered o) _ _));
                after = o;
                stays = h;
                minimum = refl;
                others = λ b ne. (refl, find-assign_other a b _ t.retry_map ne);
                same_streams = refl;
                same_events = refl;
              },
            )

  -- One step as seen from any live stream.
  Handed-stay :
      (e : LogEvent) (a b : ℕ) (o p : OutputStream (S × List LogEvent))
      (t t' : LogThread (S × List LogEvent))
      → Handed e a o t t'
      → t.heap a ≡ some o
      → t.heap b ≡ some p
      → (p' : OutputStream (S × List LogEvent)) × (t'.heap b ≡ some p')
        × (p'.min_log_level ≡ p.min_log_level)
        × (history b t'
            ≡ history b t ++ (if a == b then keep_if (clears p.min_log_level) (e ∷ []) else []))
  Handed-stay e a b o p t t' s ha hb = elim (Bool-cases (a == b)) [
    | inl same ↦
        let ab = (==_iff a b).0 same in
        let op : o ≡ p = cc (ap t.heap ab) in
        (
          s.after,
          subst (λ c. t'.heap c ≡ some s.after) ab s.stays,
          s.minimum ∙ ap (λ x. x.min_log_level) op,
          rw same (
              subst (λ c. history c t' ≡ history c t ++ keep_if (clears p.min_log_level) (e ∷ []))
                ab
                (subst
                  (λ x. history a t' ≡ history a t ++ keep_if (clears x.min_log_level) (e ∷ [])) op
                  s.own)),
        )
    | inr other ↦ (
      p,
      (s.others b other).0 ∙ hb,
      refl,
      rw (other, (s.others b other).0, (s.others b other).1) (sym (append-nil (history b t))),
    )
  ]

  -- Handing an event to live streams never faults. It joins each stream's history at the end, once
  -- for each time the stream is listed, unless the stream's minimum level holds it back.
  pub deliver_all-HandedAll :
      (e : LogEvent) (at : List ℕ) (t : LogThread (S × List LogEvent))
      → All (IsLive t) at
      → (t' : LogThread (S × List LogEvent)) × (deliver_all rec true e at t ≡ some t')
        × HandedAll e at t t'
  unfolding deliver_all
  deliver_all-HandedAll e [] t live = (
    t,
    refl,
    record {
      histories = λ b o h. sym (append-nil (history b t));
      stay = λ b o h. (o, h, refl);
      same_streams = refl;
      retry_live = λ l. l;
      same_events = refl;
    },
  )
  deliver_all-HandedAll e (a ∷ rest) t ((o, h), live) =
      let (t1, step, s) = deliver-Handed e a o t h in
      let live1 =
        All-map_fact (IsLive t) (IsLive t1) rest
          (λ b l. let (p', hp, _, _) = Handed-stay e a b o l.0 t t1 s h l.1 in (p', hp)) live in
      let (t2, later, r) = deliver_all-HandedAll e rest t1 live1 in
      (
        t2,
        rw step later,
        record {
          histories = λ b p hb.
              let (p', hp, mp, h1) = Handed-stay e a b o p t t1 s h hb in
              (rw mp at (r.histories b p' hp))
              ∙ ap (λ d. d ++ copies b rest (keep_if (clears p.min_log_level) (e ∷ []))) h1
              ∙ append_assoc (history b t) _ _;
          stay = λ b p hb.
              let (p', hp, mp, _) = Handed-stay e a b o p t t1 s h hb in
              let (p2, hp2, mp2) = r.stay b p' hp in (p2, hp2, mp2 ∙ mp);
          same_streams = r.same_streams ∙ s.same_streams;
          retry_live = λ l. r.retry_live (Handed-RetryLive e a o t t1 s l);
          same_events = r.same_events ∙ s.same_events;
        },
      )
