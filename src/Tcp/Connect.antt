-- ===== src/Tcp/Connect.antt =====
-- connect: which addresses are tried, and what a success means.
use epics_logfile.Base.{
  ℕ, ◌≡◌, refl, ap, ◌∙◌, true, false, List, [], ◌∷◌, ◌++◌, Bytes, Result, ok, throw, arith,
}
use epics_logfile.Tcp.{
  System, Socket, and_then, write, read, select_read, exchange, start_socks, connect_to_ip,
  connect_first, connect, hello, check_version, check_host, socks_request, resolve, established,
}
use epics_logfile.Tcp.Socks.{and_then_ok}

and_then-connected {ℓ} :
    {N : Type 0} {X Y : Type ℓ} (m : Result X × Socket N) (f : X → Socket N → Result Y × Socket N)
    → ((x : X) (s : Socket N) → (f x s).1.connected ≡ s.connected)
    → (and_then m f).1.connected ≡ m.1.connected
unfolding and_then
and_then-connected (ok x, s) f h = h x s
and_then-connected (throw e, s) f h = refl

module _ {N A : Type 0} (os : System N A) where
  -- If some address in the list can be connected to in every state of the system, wherever it
  -- stands, then the loop over the list ends with a connection.
  pub connect_first_reaches :
      (before after : List A) (address : A) (s : Socket N)
      → ((n : N) → (os.connect_socket address n).0 ≡ true)
      → (connect_first os (before ++ address ∷ after) s).connected ≡ true
  unfolding connect_first connect_to_ip
  connect_first_reaches [] after address s h = ground (arith, h s.net)
  connect_first_reaches (first ∷ before) after address s h =
      ground (arith, connect_first_reaches before after address (connect_to_ip os first s).1 h)

  -- If no address can be connected to, then the socket is not connected.
  pub connect_first_fails :
      (address : A) (addresses : List A) (s : Socket N)
      → ((a : A) (n : N) → (os.connect_socket a n).0 ≡ false)
      → (connect_first os (address ∷ addresses) s).connected ≡ false
  unfolding connect_first connect_to_ip
  connect_first_fails address [] s h = ground (arith, h address s.net)
  connect_first_fails address (next ∷ rest) s h =
      ground
        (arith, h address s.net, connect_first_fails next rest (connect_to_ip os address s).1 h)

  write-connected : (data_ : Bytes) (s : Socket N) → (write os data_ s).1.connected ≡ s.connected
  unfolding write
  write-connected data_ s = ground arith

  read-connected : (n : ℕ) (s : Socket N) → (read os n s).1.connected ≡ s.connected
  unfolding read
  read-connected n s = ground arith

  pub select_read-connected :
      (n : ℕ) (s : Socket N) → (select_read os n s).1.connected ≡ s.connected
  unfolding select_read
  select_read-connected n s = ground arith

  exchange-connected :
      (data_ : Bytes) (n : ℕ) (s : Socket N) → (exchange os data_ n s).1.connected ≡ s.connected
  unfolding exchange
  exchange-connected data_ n s =
      and_then-connected (write os data_ s) _ (λ _ s'.
        and_then-connected (select_read os 0 s') _ (λ _ s''. read-connected n s'')
        ∙ select_read-connected 0 s')
      ∙ write-connected data_ s

  start_socks-connected : (s : Socket N) → (start_socks os s).1.connected ≡ s.connected
  unfolding start_socks
  start_socks-connected s =
      and_then-connected (exchange os hello 2 s) _ (λ version s₁.
        and_then-connected (check_version version, s₁) _
          (λ _ s₂.
            and_then-connected (check_host s₂.m_host, s₂) _
              (λ _ s₃.
                and_then-connected (exchange os (socks_request s₃.m_host s₃.m_port) 10 s₃) _
                  (λ _ _. refl)
                ∙ exchange-connected (socks_request s₃.m_host s₃.m_port) 10 s₃)))
      ∙ exchange-connected hello 2 s

  established_ok :
      (s : Socket N) → (established os s).0 ≡ ok tt → (established os s).1.connected ≡ true
  unfolding established
  established_ok s h = ground (arith, start_socks-connected s)

  -- connect returns only with a connection.
  pub connect_ok : (s : Socket N) → (connect os s).0 ≡ ok tt → (connect os s).1.connected ≡ true
  unfolding connect
  connect_ok s h =
      let (addresses, s', found, done, same) = and_then_ok (resolve os s) _ h in
      ap (λ r. r.1.connected) same ∙ established_ok (connect_first os addresses s') done
