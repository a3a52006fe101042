-- ===== src/Client/Channel.antt =====
-- The threads of LightningCastClient, interleaved: its own, which runs `handle` and `do_open`; the server's,
-- which calls `Open`; and main's, which at the end calls `Exit`. Each critical section is one step; a call that
-- waits on a condition goes on when its predicate holds.
pub mod Safety
pub mod Progress
pub mod Shutdown
pub mod Heard
pub mod Notify
pub mod Wakeups
pub mod Missed
use lightning_cast_endpoint.Base.{◌≡◌, ◌≢◌, Bool, true, false}
use lightning_cast_endpoint.Client.Commands.{ClientCmd, idle, open_server, close_server, exit}

-- Where `handle` and `do_open` stand.
pub data Worker : Type 0 where
  dispatching : Worker  -- at the `switch`, with the lock
  waiting : Worker  -- in `cond.wait`
  connecting : Worker  -- in `connectServer`
  connected : Worker  -- before `setIsOpen(true)`
  announced : Worker  -- before `LockfinishCmd`, with a connection
  refused : Worker  -- before `setIsOpen(false)`, without one
  refusing : Worker  -- before `LockfinishCmd`, without one
  testing : Worker  -- at the test of the `while`
  selecting : Worker  -- in select, or with a message
  ending : Worker  -- before `setIsOpen(false)`, behind the loop
  stopping : Worker  -- in `doStop`
  tearing : Worker  -- before the socket is closed
  exited : Worker

-- Where a calling thread stands in `Open` or `Exit`.
pub data Caller : Type 0 where
  free : Caller
  was_open : Caller  -- `getIsOpen` gave true: in `doStop`
  in_close : Caller  -- in `Close`, in `cond_sync.wait`
  was_closed : Caller  -- behind the `if`
  in_open : Caller  -- in `Open`, in `cond_sync.wait`
  over : Caller  -- `Exit` has returned

-- The shared members: `fd_open` says that `server_fd` is a connected socket, `woken` that the counter of
-- `wake_fd` is not zero.
pub record Threads : Type 0 where
  pub cmd : ClientCmd
  pub ready : Bool
  pub ready_sync : Bool
  pub is_open : Bool
  pub fd_open : Bool
  pub woken : Bool
  pub worker : Worker
  pub server : Caller
  pub main : Caller

abbrev pub init : Threads
init = record {
  cmd = idle;
  ready = false;
  ready_sync = false;
  is_open = false;
  fd_open = false;
  woken = false;
  worker = dispatching;
  server = free;
  main = free;
}

-- `cmd = c; ready = true; ready_sync = false`
abbrev pub command : ClientCmd → Threads → Threads
command c s = record s { cmd = c; ready = true; ready_sync = false }

-- `finishCmd` and `LockfinishCmd`
abbrev pub finish : Threads → Threads
finish s = record s { cmd = idle; ready_sync = true }

-- The steps of the class's own thread.
pub data Work (s : Threads) : Threads → Type 0 where
  handle_open :
      s.worker ≡ dispatching → s.cmd ≡ open_server → Work s (record s { worker = connecting })
  handle_close : s.worker ≡ dispatching → s.cmd ≡ close_server → Work s (finish s)
  handle_none : s.worker ≡ dispatching → s.cmd ≡ idle → Work s (record s { worker = waiting })
  handle_exit :
      s.worker ≡ dispatching → s.cmd ≡ exit → Work s (record (finish s) { worker = exited })
  wake_up :
      s.worker ≡ waiting
      → s.ready ≡ true
      → Work s (record s { ready = false; worker = dispatching })
  announce : s.worker ≡ connected → Work s (record s { is_open = true; worker = announced })
  finish_open : s.worker ≡ announced → Work s (record (finish s) { worker = testing })
  deny : s.worker ≡ refused → Work s (record s { is_open = false; worker = refusing })
  finish_refused : s.worker ≡ refusing → Work s (record (finish s) { worker = dispatching })
  loop_on : s.worker ≡ testing → s.cmd ≡ idle → Work s (record s { worker = selecting })
  loop_off : s.worker ≡ testing → s.cmd ≢ idle → Work s (record s { worker = ending })
  select_wake :
      s.worker ≡ selecting → s.woken ≡ true → Work s (record s { woken = false; worker = testing })
  withdraw : s.worker ≡ ending → Work s (record s { is_open = false; worker = stopping })
  tear_down : s.worker ≡ tearing → Work s (record s { fd_open = false; worker = dispatching })

-- What the phone, the player and the system do to that thread: the socket connects or not; a message has been
-- handled, with the player's calls in it, or select times out and the phone is alive; a message or the clock ends the
-- loop, or select fails; the player's calls in doStop return. None of these need come: a call of the player that does
-- not return is a thread that stays in `selecting`, at a message, or in `stopping`. Program has these calls one by one.
pub data Peer (s : Threads) : Threads → Type 0 where
  connect_works : s.worker ≡ connecting → Peer s (record s { fd_open = true; worker = connected })
  connect_fails : s.worker ≡ connecting → Peer s (record s { worker = refused })
  goes_on : s.worker ≡ selecting → Peer s (record s { worker = testing })
  breaks : s.worker ≡ selecting → Peer s (record s { worker = ending })
  stopped : s.worker ≡ stopping → Peer s (record s { worker = tearing })

-- The steps of `Open`, in the server's thread.
pub data Opening (s : Threads) : Threads → Type 0 where
  open_busy : s.server ≡ free → s.is_open ≡ true → Opening s (record s { server = was_open })
  open_clear : s.server ≡ free → s.is_open ≡ false → Opening s (record s { server = was_closed })
  open_closes :
      s.server ≡ was_open
      → Opening s (record (command close_server s) { woken = true; server = in_close })
  close_returns :
      s.server ≡ in_close
      → s.ready_sync ≡ true
      → s.cmd ≡ idle
      → Opening s (record s { is_open = false; server = was_closed })
  open_asks :
      s.server ≡ was_closed
      → Opening s (record (command open_server s) { is_open = false; server = in_open })
  open_returns :
      s.server ≡ in_open
      → s.ready_sync ≡ true
      → s.cmd ≡ idle
      → Opening s (record s { server = free })

-- The steps of `Exit`, in main's thread.
pub data Exiting (s : Threads) : Threads → Type 0 where
  exit_busy : s.main ≡ free → s.is_open ≡ true → Exiting s (record s { main = was_open })
  exit_clear : s.main ≡ free → s.is_open ≡ false → Exiting s (record s { main = was_closed })
  exit_closes :
      s.main ≡ was_open
      → Exiting s (record (command close_server s) { woken = true; main = in_close })
  exit_closed :
      s.main ≡ in_close
      → s.ready_sync ≡ true
      → s.cmd ≡ idle
      → Exiting s (record s { is_open = false; main = was_closed })
  exit_asks : s.main ≡ was_closed → Exiting s (record (command exit s) { main = over })

pub data Step (s t : Threads) : Type 0 where
  work : Work s t → Step s t
  peer : Peer s t → Step s t
  opening : Opening s t → Step s t
  exiting : Exiting s t → Step s t

pub data Steps (s : Threads) : Threads → Type 0 where
  here : Steps s s
  later : {t u : Threads} → Steps s t → Step t u → Steps s u

-- Without `Exit`: while the program runs.
pub data Running (s : Threads) : Threads → Type 0 where
  now : Running s s
  next_work : {t u : Threads} → Running s t → Work t u → Running s u
  next_peer : {t u : Threads} → Running s t → Peer t u → Running s u
  next_open : {t u : Threads} → Running s t → Opening t u → Running s u
