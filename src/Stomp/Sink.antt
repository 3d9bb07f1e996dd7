-- ===== src/Stomp/Sink.antt =====
-- The STOMP sink as a class of output streams (output_stream_stomp.h, output_stream_stomp.cpp).
pub mod Turn
use epics_logfile.Base.{
  ℕ, Bool, true, false, List, [], ◌∷◌, ◌++◌, Option, none, some, Bytes, codes, drop,
}
use epics_logfile.Event.{LogEvent}
use epics_logfile.OutputStream.{StreamClass}
use epics_logfile.ParseUrl.{UrlInfo}
use epics_logfile.Tcp.{System}
use epics_logfile.Stomp.Sanitize.{Entity}
use epics_logfile.Stomp.Packet.{Sender}
use epics_logfile.Stomp.Connection
use epics_logfile.Stomp.Connection.Destroy.{destroy}
use epics_logfile.Stomp.Greeting.{Session}
use epics_logfile.Stomp.Exchange.{Meanwhile, do_write}

-- The session, `none` once a call has ended the program, and what happens during the next calls.
pub record Sink (N : Type 0) : Type 0 where
  pub session : Option (Session N)
  pub ahead : List Meanwhile

-- Where nothing is given, nothing happens.
abbrev pub next_meanwhile : List Meanwhile → Meanwhile
next_meanwhile [] = record {
  idle = [];
  connect_thread = none;
  before = [];
  waiting = [];
  timed_out = true;
}
next_meanwhile (m ∷ ms) = m

unfoldable pub name : UrlInfo → Bytes
name url = codes "stomp: " ++ url.host

module _ {N : Type 0} where
  unfoldable pub retry_time : Option (Session N) → ℕ
  retry_time none = 30
  retry_time (some s) = Connection.retry_time s.connection

  -- Does ~output_stream_stomp return?
  returns : Option (Session N) → Bool
  unfolding destroy
  returns none = false
  returns (some s) = elim (destroy s.connection) [ none ↦ false | some _ ↦ true ]

  unfoldable pub after_call : List Meanwhile → Option (Bool × Session N) → Bool × Sink N
  after_call ms none = (false, record { session = none; ahead = ms })
  after_call ms (some (done, s)) = (done, record { session = some s; ahead = ms })

module _ {N A : Type 0} (os : System N A) (url : UrlInfo) (order : List Entity)
    (texts : Sender) where
  unfoldable pub write_sink : LogEvent → Sink N → Bool × Sink N
  unfolding after_call do_write
  write_sink e k = elim k.session [
    | none ↦ (false, k)
    | some s ↦
        after_call (drop 1 k.ahead) (do_write os url order (next_meanwhile k.ahead) texts e s)
  ]

  unfoldable pub stomp_class : StreamClass (Sink N)
  unfolding write_sink name retry_time returns
  stomp_class = record {
    do_write = write_sink;
    name = λ k. name url;
    retry_time = λ k. retry_time k.session;
    destructor = λ k. returns k.session;
  }
