-- ===== src/Retry.antt =====
-- retry_thread.h, retry_thread.cpp: the queue of a sink that failed, and the thread that empties
-- it.
pub mod Laws
use epics_logfile.Base.{
  ℕ, ◌+◌, ◌-◌, ◌*◌, ◌/◌, ◌^◌, Bool, true, false, List, [], ◌∷◌, ◌++◌, ltb, if◌then◌else◌,
}
use epics_logfile.Level.{Level, finest, finer, fine, config, info, warning, severe}
use epics_logfile.Event.{LogEvent, second}
use epics_logfile.OutputStream.{StreamClass, OutputStream, write}

abbrev pub Queue : Type 0
Queue = List LogEvent

-- retry_thread::active.
unfoldable pub active : Queue → Bool
active [] = false
active (e ∷ q) = true

-- retry_thread::enqueue.
unfoldable pub enqueue : LogEvent → Queue → Queue
enqueue e q = q ++ e ∷ []

-- expiry_time, in seconds. std::time_t has 64 bits.
expiry_time : Level → ℕ
expiry_time finest = 900
expiry_time finer = 900
expiry_time fine = 1800
expiry_time config = 1800
expiry_time info = 3600
expiry_time warning = 10 * 3600
expiry_time severe = 2 ^ 63 - 1

-- The test of the second loop. A clock that was set back gives a negative age: not expired.
unfoldable pub is_expired : ℕ → LogEvent → Bool
unfolding expiry_time
is_expired now e = ltb (expiry_time e.level) ((now - e.time) / second)

-- The second loop: what stays, and `expired`.
unfoldable pub expire : ℕ → Queue → Queue × ℕ
unfolding is_expired
expire now [] = ([], 0)
expire now (e ∷ q) =
    let (kept, expired) = expire now q in
    if is_expired now e then (kept, expired + 1) else (e ∷ kept, expired)

module _ {S : Type 0} (cls : StreamClass S) where
  -- The first loop: write from the front, up to the first failure.
  unfoldable pub drain : Queue → OutputStream S → Queue × OutputStream S
  drain [] o = ([], o)
  drain (e ∷ q) o =
      let (done, o') = write cls e o in let rest = drain q o' in if done then rest else (e ∷ q, o')

  -- One turn of the outer loop, from the end of the sleep: the queue left, the stream, and
  -- whether the thread goes on.
  unfoldable pub turn : ℕ → Queue → OutputStream S → Queue × OutputStream S × Bool
  unfolding drain expire active
  turn now q o =
      let (unwritten, o') = drain q o in
      let (kept, expired) = expire now unwritten in (kept, o', active kept)

  -- run: turns at the given times, with the events that came in during each sleep. The flag tells
  -- that the thread still runs when the turns are over.
  unfoldable pub run : List (Queue × ℕ) → Queue → OutputStream S → Queue × OutputStream S × Bool
  unfolding turn
  run [] q o = (q, o, true)
  run ((arrived, now) ∷ turns) q o =
      let (kept, o', more) = turn now (q ++ arrived) o in
      let rest = run turns kept o' in if more then rest else (kept, o', false)
