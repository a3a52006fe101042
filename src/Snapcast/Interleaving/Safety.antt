-- ===== src/Snapcast/Interleaving/Safety.antt =====
-- What holds of the command channel in every reachable state.
use lightning_cast_endpoint.Base.{◌≡◌, ◌≢◌, Bool, true, false, arith}
use lightning_cast_endpoint.Snapcast.State.{idle}
use lightning_cast_endpoint.Snapcast.Interleaving.{
  Worker, waiting, connected, testing, selecting, reading, tearing, Caller, in_open, in_close,
  Threads, init, Work, Player, Calling, Step, work, player, calling, call_exit, Steps, here, later,
}

-- The thread is between a successful connect and the close of that socket.
abbrev pub in_session : Worker → Bool
in_session connected = true
in_session testing = true
in_session selecting = true
in_session reading = true
in_session tearing = true
in_session other = false

abbrev pub waits_for_command : Caller → Bool
waits_for_command in_open = true
waits_for_command in_close = true
waits_for_command other = false

pub record Inv (s : Threads) : Type 0 where
  -- A call that finds `ready_sync` set finds its command finished: its `while` never spins.
  pub synced : s.ready_sync ≡ true → s.cmd ≡ idle
  -- A thread that waits with `ready` down has no command to do.
  pub awake : s.worker ≡ waiting → s.ready ≡ false → s.cmd ≡ idle
  -- The socket is open just during a session.
  pub session : s.fd_open ≡ in_session s.worker
  -- A call that waits has its command, or `Exit`, outstanding.
  pub outstanding : waits_for_command s.caller ≡ true → s.ready_sync ≡ false → s.cmd ≢ idle

pub Inv-init : Inv init
Inv-init = ground arith

Work-Inv : {s t : Threads} → Work s t → Inv s → Inv t
Work-Inv (Work.handle_open w c) inv = ground arith
Work-Inv (Work.handle_close w c) inv = ground arith
Work-Inv (Work.handle_none w c) inv = ground arith
Work-Inv (Work.handle_exit w c) inv = ground arith
Work-Inv (Work.wake_up w r) inv = ground arith
Work-Inv (Work.finish_open w) inv = ground arith
Work-Inv (Work.loop_on w c) inv = ground arith
Work-Inv (Work.loop_off w c) inv = ground arith
Work-Inv (Work.select_wake w k) inv = ground arith
Work-Inv (Work.tear_down w) inv = ground arith

Player-Inv : {s t : Threads} → Player s t → Inv s → Inv t
Player-Inv (Player.connect_fails w) inv = ground arith
Player-Inv (Player.connect_works w) inv = ground arith
Player-Inv (Player.answers w) inv = ground arith
Player-Inv (Player.breaks w) inv = ground arith
Player-Inv (Player.begins w) inv = ground arith
Player-Inv (Player.cuts w) inv = ground arith

Calling-Inv : {s t : Threads} → Calling s t → Inv s → Inv t
Calling-Inv (Calling.call_open f) inv = ground arith
Calling-Inv (Calling.call_close f) inv = ground arith
Calling-Inv (Calling.call_send f o) inv = ground arith
Calling-Inv (Calling.return_open f r c) inv = ground arith
Calling-Inv (Calling.return_close f r c) inv = ground arith
Calling-Inv (Calling.return_reply f p) inv = ground arith

-- Every step of either thread, of the player and of `Exit` keeps the channel sound: a finished command is
-- seen as finished, a thread that waits unwoken has no command to do, and the socket is open just during a session.
pub Step-Inv : {s t : Threads} → Step s t → Inv s → Inv t
Step-Inv (work m) inv = Work-Inv m inv
Step-Inv (player m) inv = Player-Inv m inv
Step-Inv (calling m) inv = Calling-Inv m inv
Step-Inv (call_exit e) inv = ground arith

pub Steps-Inv : {s t : Threads} → Steps s t → Inv s → Inv t
Steps-Inv here inv = inv
Steps-Inv (later path st) inv = Step-Inv st (Steps-Inv path inv)

-- In every state that the class's own thread, its caller, the player and any number of calls of
-- `Exit` reach from the constructor: a command that is seen as finished is finished, a thread that
-- waits without being woken has no command to do, the socket is open just during a session, and a
-- call that waits for a command has one outstanding.
pub reachable-Inv : {s : Threads} → Steps init s → Inv s
reachable-Inv path = Steps-Inv path Inv-init
