-- ===== src/LogThread/Teardown.antt =====
-- ~log_thread (log_thread.cpp), which ~logger calls when the thread has ended.
use epics_logfile.Base.{
  ℕ, ◌<◌, ◌≡◌, ◌≢◌, refl, sym, ◌∙◌, subst, ==_iff, true, false, List, [], ◌∷◌, Option, none, some,
  inl, inr, arith, ◌⊎◌, ◌==◌, if◌then◌else◌, Bool-cases, Option-cases, All,
}
use epics_logfile.Base.Map.{nat_key, find}
use epics_logfile.Event.{LogEvent}
use epics_logfile.OutputStream.{StreamClass, OutputStream}
use epics_logfile.Retry.{Queue}
use epics_logfile.LogThread.{LogThread, RetryPointer, store, push, push_all, sweep}
use epics_logfile.LogThread.History.{addresses, occurrences, AllLive}

module _ {S : Type 0} where
  -- `delete i.second` for each stream. Deleting a stream twice is `none`, and so is a destructor that
  -- ends the program.
  delete_all :
      StreamClass S → List ℕ → (ℕ → Option (OutputStream S)) → Option (ℕ → Option (OutputStream S))
  delete_all cls [] heap = some heap
  delete_all cls (a ∷ rest) heap = elim (heap a) [
    | none ↦ none
    | some o ↦
        let others = delete_all cls rest (store heap a none) in
        if cls.destructor o.sink then others else none
  ]

  -- The destructor: what it leaves of the streams.
  unfoldable pub destroy : StreamClass S → LogThread S → Option (ℕ → Option (OutputStream S))
  unfolding delete_all
  destroy cls t = delete_all cls (addresses t) t.heap

  abbrev Present : (ℕ → Option (OutputStream S)) → ℕ → Type 0
  Present heap a = (o : OutputStream S) × (heap a ≡ some o)

  Present-store :
      (a : ℕ) (at : List ℕ) (heap : ℕ → Option (OutputStream S))
      → occurrences a at ≡ 0
      → All (Present heap) at
      → All (Present (store heap a none)) at
  unfolding occurrences
  Present-store a [] heap once live = tt
  Present-store a (c ∷ rest) heap once ((o, h), live) = elim (Bool-cases (c == a)) [
    | inl same ↦ ground arith
    | inr other ↦ ((o, ground arith), Present-store a rest heap (ground arith) live)
  ]

  -- The deletion of the streams at these addresses: each is deleted once and all others are left, or
  -- the program ends with a destructor that does not return.
  abbrev pub Deletion :
      StreamClass S
      → List ℕ
      → (ℕ → Option (OutputStream S))
      → Option (ℕ → Option (OutputStream S))
      → Type 0
  Deletion cls at heap result =
      ((heap' : ℕ → Option (OutputStream S)) × (result ≡ some heap')
        × ((b : ℕ) → heap' b ≡ (if occurrences b at == 0 then heap b else none))
        × ((b : ℕ) (o : OutputStream S)
            → occurrences b at ≡ 1
            → heap b ≡ some o
            → cls.destructor o.sink ≡ true))
      ⊎ ((b : ℕ) × (o : OutputStream S) × (result ≡ none)
          × (occurrences b at ≡ 1)
          × (heap b ≡ some o)
          × (cls.destructor o.sink ≡ false))

  store_other :
      (a b : ℕ) (p : OutputStream S) (heap : ℕ → Option (OutputStream S))
      → store heap a none b ≡ some p
      → ((a == b) ≡ false) × (heap b ≡ some p)
  store_other a b p heap h = ground (arith, h)

  delete_all_once :
      (cls : StreamClass S) (at : List ℕ) (heap : ℕ → Option (OutputStream S))
      → All (Present heap) at
      → ((b : ℕ) → occurrences b at < 2)
      → Deletion cls at heap (delete_all cls at heap)
  unfolding delete_all occurrences
  delete_all_once cls [] heap live once = inl (heap, refl, λ b. refl, λ b o c. ground (arith, c))
  delete_all_once cls (a ∷ rest) heap ((o, h), live) once =
      let alone : occurrences a rest ≡ 0 = ground (arith, once a) in
      let later =
        delete_all_once cls rest (store heap a none) (Present-store a rest heap alone live)
          (λ b. ground (arith, once b)) in
      elim (Bool-cases (cls.destructor o.sink)) [
        | inr ends ↦ inr (a, o, rw (h, delete_all) (rw ends), ground (arith, alone), h, ends)
        | inl returns ↦ elim later [
          | inl (heap', step, left, fine) ↦ inl (
            heap',
            rw (h, delete_all) (rw returns step),
            λ b. ground (arith, left b),
            λ b p c k. elim (Bool-cases (a == b)) [
              | inl same ↦
                  let po : some o ≡ some p =
                    sym h ∙ subst (λ x. heap x ≡ some p) (sym ((==_iff a b).0 same)) k in
                  let is_o : o ≡ p = cc po in
                  subst (λ (x : OutputStream S). cls.destructor x.sink ≡ true) is_o returns
              | inr other ↦ fine b p (ground (arith, c)) (rw other k)
            ],
          )
          | inr (b, p, step, listed, there, ends) ↦ inr (
            b,
            p,
            rw (h, delete_all) (rw returns step),
            ground (arith, listed, store_other a b p heap there),
            (store_other a b p heap there).1,
            ends,
          )
        ]
      ]

  pub push_all-streams :
      (es : List LogEvent) (t : LogThread S) → (push_all es t).streams ≡ t.streams
  unfolding push_all push
  push_all-streams [] t = refl
  push_all-streams (e ∷ es) t = push_all-streams es (push e t)

-- The destructor, for live streams that stand in the map under one name each.
pub destroy-Deletion :
    {S : Type 0} (cls : StreamClass (S × List LogEvent)) (t : LogThread (S × List LogEvent))
    → AllLive t
    → ((b : ℕ) → occurrences b (addresses t) < 2)
    → Deletion cls (addresses t) t.heap (destroy cls t)
unfolding destroy
destroy-Deletion cls t live once = delete_all_once cls (addresses t) t.heap live once

-- A sweep that finds no active thread leaves null pointers only.
pub sweep_cleared :
    (m m' : List (ℕ × RetryPointer)) (b : ℕ) (q : Queue)
    → sweep m ≡ some (m', false)
    → find b m' ≢ some (some q)
unfolding sweep find
sweep_cleared [] m' b q e h = ground arith
sweep_cleared ((a, none) ∷ m) m' b q e h = cc
sweep_cleared ((a, some []) ∷ m) m' b q e h = elim (Option-cases (sweep m)) [
  | inl none_left ↦ cc (rw none_left at e)
  | inr ((rest, other), swept) ↦ ground (arith, sweep_cleared m rest b q, rw swept at e)
]
sweep_cleared ((a, some (x ∷ k)) ∷ m) m' b q e h = elim (Option-cases (sweep m)) [
  | inl none_left ↦ cc (rw none_left at e)
  | inr ((rest, other), swept) ↦ cc (rw swept at e)
]
