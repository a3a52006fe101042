-- ===== src/Client/Channel/Progress.antt =====
-- `Open` comes back, and so does the `Close` in it, if connect, the messages of the phone and the calls of the
-- player that the thread is in do.
use lightning_cast_endpoint.Base.{ℕ, ◌<◌, ◌≡◌, ◌≢◌, ◌⊎◌, Bool, true, false, arith}
use lightning_cast_endpoint.Client.Commands.{idle, open_server, close_server, exit}
use lightning_cast_endpoint.Client.Channel.Safety.{is_told}
use lightning_cast_endpoint.Client.Channel.{
  Worker, dispatching, waiting, connecting, connected, announced, refused, refusing, testing,
  selecting, ending, stopping, tearing, exited, in_close, was_closed, in_open, Threads, Work, Peer,
  Opening, Running, now, next_work, next_peer, next_open,
}

-- The thread is past its wait for a command and not yet at the end of the loop of its session.
abbrev pub is_busy : Worker → Bool
is_busy connecting = true
is_busy connected = true
is_busy announced = true
is_busy refused = true
is_busy refusing = true
is_busy testing = true
is_busy selecting = true
is_busy ending = true
is_busy other = false

-- It works on a command to open.
abbrev pub is_starting : Worker → Bool
is_starting connecting = true
is_starting connected = true
is_starting announced = true
is_starting refused = true
is_starting refusing = true
is_starting other = false

-- While the program runs, with no `Exit`.
pub record Tidy (s : Threads) : Type 0 where
  pub no_exit : s.cmd ≢ exit
  pub runs : s.worker ≢ exited
  pub synced : s.ready_sync ≡ true → s.cmd ≡ idle
  pub awake : s.worker ≡ waiting → s.ready ≡ false → s.cmd ≡ idle
  pub by_open : s.cmd ≡ open_server → s.server ≡ in_open
  pub by_close : s.cmd ≡ close_server → s.server ≡ in_close
  pub starting : is_starting s.worker ≡ true → s.cmd ≡ open_server
  pub told : is_told s.worker ≡ true → s.is_open ≡ true
  pub clear : s.server ≡ was_closed → is_busy s.worker ≡ false
  pub closing : s.server ≡ in_close → s.cmd ≡ idle → is_busy s.worker ≡ false
  pub asked : s.cmd ≡ open_server → is_told s.worker ≡ true → s.worker ≡ announced
  pub wakes : s.cmd ≡ close_server → s.worker ≡ selecting → s.woken ≡ true
  pub finished : (s.server ≡ in_open) ⊎ (s.server ≡ in_close) → s.cmd ≡ idle → s.ready_sync ≡ true

Work-Tidy : {s t : Threads} → Work s t → Tidy s → Tidy t
Work-Tidy (Work.handle_open w c) inv = ground arith
Work-Tidy (Work.handle_close w c) inv = ground arith
Work-Tidy (Work.handle_none w c) inv = ground arith
Work-Tidy (Work.handle_exit w c) inv = ground arith
Work-Tidy (Work.wake_up w r) inv = ground arith
Work-Tidy (Work.announce w) inv = ground arith
Work-Tidy (Work.finish_open w) inv = ground arith
Work-Tidy (Work.deny w) inv = ground arith
Work-Tidy (Work.finish_refused w) inv = ground arith
Work-Tidy (Work.loop_on w c) inv = ground arith
Work-Tidy (Work.loop_off w c) inv = ground arith
Work-Tidy (Work.select_wake w k) inv = ground arith
Work-Tidy (Work.withdraw w) inv = ground arith
Work-Tidy (Work.tear_down w) inv = ground arith

Peer-Tidy : {s t : Threads} → Peer s t → Tidy s → Tidy t
Peer-Tidy (Peer.connect_works w) inv = ground arith
Peer-Tidy (Peer.connect_fails w) inv = ground arith
Peer-Tidy (Peer.goes_on w) inv = ground arith
Peer-Tidy (Peer.breaks w) inv = ground arith
Peer-Tidy (Peer.stopped w) inv = ground arith

Opening-Tidy : {s t : Threads} → Opening s t → Tidy s → Tidy t
Opening-Tidy (Opening.open_busy f o) inv = ground arith
Opening-Tidy (Opening.open_clear f o) inv = ground arith
Opening-Tidy (Opening.open_closes f) inv = ground arith
Opening-Tidy (Opening.close_returns f r c) inv = ground arith
Opening-Tidy (Opening.open_asks f) inv = ground arith
Opening-Tidy (Opening.open_returns f r c) inv = ground arith

pub Running-Tidy : {s t : Threads} → Running s t → Tidy s → Tidy t
Running-Tidy now inv = inv
Running-Tidy (next_work path m) inv = Work-Tidy m (Running-Tidy path inv)
Running-Tidy (next_peer path m) inv = Peer-Tidy m (Running-Tidy path inv)
Running-Tidy (next_open path m) inv = Opening-Tidy m (Running-Tidy path inv)

-- How far the thread is from the end of a command.
abbrev pub rank : Worker → ℕ
rank selecting = 11
rank testing = 10
rank ending = 9
rank stopping = 8
rank tearing = 7
rank waiting = 7
rank dispatching = 6
rank connecting = 5
rank connected = 4
rank announced = 3
rank refused = 4
rank refusing = 3
rank exited = 0

-- The command is finished, and the call can return; or it is outstanding and nearer to its end.
abbrev pub Nearer : Threads → Threads → Type 0
Nearer s t =
    ((t.cmd ≡ idle) × (t.ready_sync ≡ true)) ⊎ ((t.cmd ≡ s.cmd) × (rank t.worker < rank s.worker))

-- The thread is in connect, in its select or the handling of a message, or in the doStop at the end of a session: what
-- ends these is outside the class, and need not come.
abbrev pub is_away : Worker → Bool
is_away connecting = true
is_away selecting = true
is_away stopping = true
is_away other = false

abbrev pub Proceeds : Threads → Type 0
Proceeds s = ((t : Threads) × Work s t) ⊎ (is_away s.worker ≡ true)
