-- ===== src/Snapcast/Interleaving.antt =====
-- The two threads of SnapcastComm, interleaved: the one that runs `handle`, and the client's thread that
-- calls it; at the end `main` calls `Exit`. Each critical section is one step; a call that waits on a
-- condition goes on when its predicate holds.
pub mod Safety
pub mod Close
pub mod Exit
pub mod Faults
pub mod Notify
pub mod Unheard
use lightning_cast_endpoint.Base.{◌≡◌, ◌≢◌, ◌⊎◌, Bool, true, false}
use lightning_cast_endpoint.Snapcast.State.{ThreadCmd, idle, opening, closing, exiting}

-- Where `handle` and `do_open` stand.
pub data Worker : Type 0 where
  dispatching : Worker  -- at the `switch`, with the lock
  waiting : Worker  -- in `cond.wait`
  connecting : Worker  -- in `connectServer`
  connected : Worker  -- before `LockfinishCmd`
  testing : Worker  -- at the test of the `while`
  selecting : Worker  -- in select
  reading : Worker  -- in `doRead`, which waits in ::read for the rest of a message
  tearing : Worker  -- before the socket is closed
  exited : Worker

-- Where the calling thread stands.
pub data Caller : Type 0 where
  free : Caller
  in_open in_close : Caller  -- in `cond_sync.wait`
  in_reply : Caller  -- in `LockWait`, after a request

-- The shared members: `fd_open` says that `server_fd` is a socket that has been connected (in `connectServer` it is one
-- that is not), `woken` that the counter
-- of `wake_fd` is not zero.
pub record Threads : Type 0 where
  pub cmd : ThreadCmd
  pub ready : Bool
  pub ready_sync : Bool
  pub pending : Bool
  pub fd_open : Bool
  pub woken : Bool
  pub worker : Worker
  pub caller : Caller

abbrev pub init : Threads
init = record {
  cmd = idle;
  ready = false;
  ready_sync = false;
  pending = false;
  fd_open = false;
  woken = false;
  worker = dispatching;
  caller = free;
}

-- `cmd = c; ready = true; ready_sync = false`
abbrev pub command : ThreadCmd → Threads → Threads
command c s = record s { cmd = c; ready = true; ready_sync = false }

-- `finishCmd` and `LockfinishCmd`
abbrev pub finish : Threads → Threads
finish s = record s { cmd = idle; ready_sync = true }

-- The steps of the class's own thread.
pub data Work (s : Threads) : Threads → Type 0 where
  handle_open : s.worker ≡ dispatching → s.cmd ≡ opening → Work s (record s { worker = connecting })
  handle_close : s.worker ≡ dispatching → s.cmd ≡ closing → Work s (finish s)
  handle_none : s.worker ≡ dispatching → s.cmd ≡ idle → Work s (record s { worker = waiting })
  handle_exit :
      s.worker ≡ dispatching → s.cmd ≡ exiting → Work s (record (finish s) { worker = exited })
  wake_up :
      s.worker ≡ waiting
      → s.ready ≡ true
      → Work s (record s { ready = false; worker = dispatching })
  finish_open : s.worker ≡ connected → Work s (record (finish s) { worker = testing })
  loop_on : s.worker ≡ testing → s.cmd ≡ idle → Work s (record s { worker = selecting })
  loop_off : s.worker ≡ testing → s.cmd ≢ idle → Work s (record s { worker = tearing })
  select_wake :
      s.worker ≡ selecting → s.woken ≡ true → Work s (record s { woken = false; worker = testing })
  tear_down : s.worker ≡ tearing → Work s (record s { fd_open = false; worker = dispatching })

-- What the player and the system do to that thread: the socket connects or not; a message begins to come, or the
-- player hangs up; the message is whole and an answer that is signalled, or `doRead` returns false; select fails.
pub data Player (s : Threads) : Threads → Type 0 where
  connect_fails : s.worker ≡ connecting → Player s s
  connect_works : s.worker ≡ connecting → Player s (record s { fd_open = true; worker = connected })
  begins : s.worker ≡ selecting → Player s (record s { worker = reading })
  answers : s.worker ≡ reading → Player s (record s { pending = true; worker = testing })
  cuts : s.worker ≡ reading → Player s (record s { worker = tearing })
  breaks : s.worker ≡ selecting → Player s (record s { worker = tearing })

-- The steps of the calling thread. `send` is a request that `processSend` reports as sent; it does so from `socket` in
-- `connectServer` on, also where ::write fails since nothing is connected yet. Without a socket the call returns at
-- once.
pub data Calling (s : Threads) : Threads → Type 0 where
  call_open : s.caller ≡ free → Calling s (record (command opening s) { caller = in_open })
  call_close :
      s.caller ≡ free → Calling s (record (command closing s) { woken = true; caller = in_close })
  call_send :
      s.caller ≡ free
      → (s.fd_open ≡ true) ⊎ (s.worker ≡ connecting)
      → Calling s (record s { caller = in_reply })
  return_open :
      s.caller ≡ in_open
      → s.ready_sync ≡ true
      → s.cmd ≡ idle
      → Calling s (record s { caller = free })
  return_close :
      s.caller ≡ in_close
      → s.ready_sync ≡ true
      → s.cmd ≡ idle
      → Calling s (record s { caller = free })
  return_reply :
      s.caller ≡ in_reply
      → s.pending ≡ true
      → Calling s (record s { pending = false; caller = free })

pub data Step (s t : Threads) : Type 0 where
  work : Work s t → Step s t
  player : Player s t → Step s t
  calling : Calling s t → Step s t
  call_exit : t ≡ command exiting s → Step s t

-- Without `Exit`: while the program runs.
pub data Running (s : Threads) : Threads → Type 0 where
  now : Running s s
  next_work : {t u : Threads} → Running s t → Work t u → Running s u
  next_player : {t u : Threads} → Running s t → Player t u → Running s u
  next_call : {t u : Threads} → Running s t → Calling t u → Running s u

pub data Steps (s : Threads) : Threads → Type 0 where
  here : Steps s s
  later : {t u : Threads} → Steps s t → Step t u → Steps s u
