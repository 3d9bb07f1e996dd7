-- ===== src/Stomp/Timeout/Calls.antt =====
-- The calls of the system that reader_thread makes, and what the system gives to them.
use epics_logfile.Base.{
  ℕ, ◌≡◌, refl, sym, ap, ◌∙◌, inl, inr, List, [], ◌∷◌, ◌++◌, append-nil, append_assoc, Bytes,
  Bool-cases,
}
use epics_logfile.Tcp.{System, Got, Socket, select_read}

-- The calls of the system that reader_thread makes.
pub data Call : Type 0 where
  selects receives : ℕ → Call

-- The bytes that a read has given, without an end of the stream.
abbrev pub blocks : Bytes → List Bytes
blocks [] = []
blocks (c ∷ cs) = (c ∷ cs) ∷ []

abbrev pub got_blocks : Got → List Bytes
got_blocks Got.read_failed = []
got_blocks Got.ssl_read_failed = []
got_blocks (Got.got bytes) = blocks bytes

module _ {N A : Type 0} (os : System N A) where
  -- The state of the system after such calls, and the bytes that it has given to them.
  unfoldable pub after : List Call → N → N
  after [] n = n
  after (selects timeout_us ∷ calls) n = after calls (os.select timeout_us n).1
  after (receives len ∷ calls) n = after calls (os.recv len n).1

  unfoldable pub gave : List Call → N → List Bytes
  gave [] n = []
  gave (selects timeout_us ∷ calls) n = gave calls (os.select timeout_us n).1
  gave (receives len ∷ calls) n = got_blocks (os.recv len n).0 ++ gave calls (os.recv len n).1

  -- Some calls take the system from `n` to `n'`, and these are the bytes that it gives to them.
  abbrev pub Took : N → List Bytes → N → Type 0
  Took n bufs n' = (calls : List Call) × (gave calls n ≡ bufs) × (after calls n ≡ n')

  after-append : (xs ys : List Call) (n : N) → after (xs ++ ys) n ≡ after ys (after xs n)
  unfolding after
  after-append [] ys n = refl
  after-append (selects timeout_us ∷ xs) ys n = after-append xs ys (os.select timeout_us n).1
  after-append (receives len ∷ xs) ys n = after-append xs ys (os.recv len n).1

  gave-append : (xs ys : List Call) (n : N) → gave (xs ++ ys) n ≡ gave xs n ++ gave ys (after xs n)
  unfolding gave after
  gave-append [] ys n = refl
  gave-append (selects timeout_us ∷ xs) ys n = gave-append xs ys (os.select timeout_us n).1
  gave-append (receives len ∷ xs) ys n =
      ap (λ x. got_blocks (os.recv len n).0 ++ x) (gave-append xs ys (os.recv len n).1)
      ∙ sym (append_assoc (got_blocks (os.recv len n).0) (gave xs (os.recv len n).1) _)

  pub Took-nothing : (n : N) → Took n [] n
  unfolding gave after
  Took-nothing n = ([], refl, refl)

  pub Took-trans :
      (xs ys : List Bytes) (n n1 n2 : N) → Took n xs n1 → Took n1 ys n2 → Took n (xs ++ ys) n2
  Took-trans xs ys n n1 n2 (cs, g, a) (ds, h, b) = (
    cs ++ ds,
    gave-append cs ds n
        ∙ ap (λ x. x ++ gave ds (after cs n)) g
        ∙ ap (λ x. xs ++ gave ds x) a
        ∙ ap (λ x. xs ++ x) h,
    after-append cs ds n ∙ ap (after ds) a ∙ b,
  )

  pub select_read-Took :
      (timeout_us : ℕ) (s : Socket N) → Took s.net [] (select_read os timeout_us s).1.net
  unfolding select_read gave after
  select_read-Took timeout_us s = elim (Bool-cases s.connected) [
    | inl on ↦ (selects timeout_us ∷ [], refl, rw (on, select_read))
    | inr off ↦ ([], refl, rw (off, select_read))
  ]

  pub recv-Took : (len : ℕ) (n : N) → Took n (got_blocks (os.recv len n).0) (os.recv len n).1
  unfolding gave after
  recv-Took len n = (receives len ∷ [], append-nil (got_blocks (os.recv len n).0), refl)
