-- ===== src/Snapcast/Interleaving/Notify.antt =====
-- The condition variable `cond` of SnapcastComm with one calling thread, beside main's `Exit`: two threads can sleep in
-- it, the class's own in `handle`, which waits for a command, and the caller in `LockWait`, which waits for an answer.
-- This is the class with one client. In the program the client's thread, the server's and main all call it, so that
-- more than one of them can sleep here; what holds of one caller need not hold there.
-- notify_one wakes one of them. Wake-ups without a notification, which the language allows and does not
-- promise, are left out.
use lightning_cast_endpoint.Base.{◌≡◌, Bool, true, false}
use lightning_cast_endpoint.Snapcast.State.{exiting}
use lightning_cast_endpoint.Snapcast.Interleaving.{
  Worker, waiting, in_reply, Threads, init, command, Work, Player, Calling,
}

-- Which of the two sleep in `cond`.
pub record CondSleepers : Type 0 where
  pub threads : Threads
  pub worker_sleeps : Bool
  pub caller_sleeps : Bool

abbrev pub all_awake : CondSleepers
all_awake = record { threads = init; worker_sleeps = false; caller_sleeps = false }

-- `cond.wait(lock, [&] { return ready; })`: the thread sleeps if `ready` is down.
abbrev pub falls_asleep : Worker → Bool → Bool
falls_asleep waiting false = true
falls_asleep w r = false

-- The calls that give a command, and with it call `notify_one`.
abbrev pub gives_command : {s t : Threads} → Calling s t → Bool
gives_command (Calling.call_open f) = true
gives_command (Calling.call_close f) = true
gives_command other = false

-- The step of the reading thread with `LockSignal`.
abbrev pub lock_signals : {s t : Threads} → Player s t → Bool
lock_signals (Player.answers w) = true
lock_signals other = false

-- `cond.notify_one`: one of the threads that sleep wakes, if there is one.
pub data Notified (worker caller : Bool) : Bool → Bool → Type 0 where
  worker_wakes : worker ≡ true → Notified worker caller false caller
  caller_wakes : caller ≡ true → Notified worker caller worker false
  nobody : worker ≡ false → caller ≡ false → Notified worker caller false false

-- The steps of the class's own thread, of the player and of the caller. A thread that wakes and finds its
-- predicate false sleeps again.
pub data CondTurn (s : CondSleepers) : CondSleepers → Type 0 where
  works :
      {t : Threads}
      → s.worker_sleeps ≡ false
      → Work s.threads t
      → CondTurn s (record s { threads = t; worker_sleeps = falls_asleep t.worker t.ready })
  plays :
      {t : Threads}
      → (m : Player s.threads t) → lock_signals m ≡ false
      → CondTurn s (record s { threads = t })
  signals :
      {t : Threads} {w c : Bool}
      → (m : Player s.threads t) → lock_signals m ≡ true
      → Notified s.worker_sleeps s.caller_sleeps w c
      → CondTurn s (record { threads = t; worker_sleeps = w; caller_sleeps = c })
  calls :
      {t : Threads}
      → s.caller_sleeps ≡ false
      → (m : Calling s.threads t) → gives_command m ≡ false
      → CondTurn s (record s { threads = t })
  commands :
      {t : Threads} {w c : Bool}
      → s.caller_sleeps ≡ false
      → (m : Calling s.threads t) → gives_command m ≡ true
      → Notified s.worker_sleeps s.caller_sleeps w c
      → CondTurn s (record { threads = t; worker_sleeps = w; caller_sleeps = c })
  caller_waits :
      s.threads.caller ≡ in_reply
      → s.threads.pending ≡ false
      → CondTurn s (record s { caller_sleeps = true })
  worker_again :
      s.threads.worker ≡ waiting
      → s.threads.ready ≡ false
      → CondTurn s (record s { worker_sleeps = true })

-- `Exit`, from main.
pub data CondExit (s : CondSleepers) : CondSleepers → Type 0 where
  exits :
      {w c : Bool}
      → Notified s.worker_sleeps s.caller_sleeps w c
      → CondExit s
          (record { threads = command exiting s.threads; worker_sleeps = w; caller_sleeps = c })

pub data CondTrace (s : CondSleepers) : CondSleepers → Type 0 where
  start : CondTrace s s
  turn : {t u : CondSleepers} → CondTrace s t → CondTurn t u → CondTrace s u
  leave : {t u : CondSleepers} → CondTrace s t → CondExit t u → CondTrace s u

-- What follows when nobody calls `Exit` any more.
pub data CondTurns (s : CondSleepers) : CondSleepers → Type 0 where
  at_once : CondTurns s s
  then : {t u : CondSleepers} → CondTurns s t → CondTurn t u → CondTurns s u
