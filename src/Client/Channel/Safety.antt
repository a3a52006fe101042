-- ===== src/Client/Channel/Safety.antt =====
-- What holds of the client's channel in every reachable state.
use lightning_cast_endpoint.Base.{◌≡◌, Bool, true, false, arith}
use lightning_cast_endpoint.Client.Commands.{idle}
use lightning_cast_endpoint.Client.Channel.{
  Worker, waiting, connected, announced, testing, selecting, ending, stopping, tearing, Threads,
  init, Work, Peer, Opening, Exiting, Step, work, peer, opening, exiting, Steps, here, later,
}

-- The thread is between a successful connect and the close of that socket.
abbrev pub has_socket : Worker → Bool
has_socket connected = true
has_socket announced = true
has_socket testing = true
has_socket selecting = true
has_socket ending = true
has_socket stopping = true
has_socket tearing = true
has_socket other = false

-- It is in a session that `is_open` tells of.
abbrev pub is_told : Worker → Bool
is_told announced = true
is_told testing = true
is_told selecting = true
is_told ending = true
is_told other = false

pub record Inv (s : Threads) : Type 0 where
  -- A call that finds `ready_sync` set finds its command finished: its `while` never spins.
  pub synced : s.ready_sync ≡ true → s.cmd ≡ idle
  -- A thread that waits with `ready` down has no command to do.
  pub awake : s.worker ≡ waiting → s.ready ≡ false → s.cmd ≡ idle
  -- The socket is open just during a session.
  pub session : s.fd_open ≡ has_socket s.worker
  -- `is_open` is true only in a session that has not ended.
  pub told : s.is_open ≡ true → is_told s.worker ≡ true
  -- So it is true only with a connection to the phone.
  pub connection : s.is_open ≡ true → s.fd_open ≡ true

pub Inv-init : Inv init
Inv-init = ground arith

Work-Inv : {s t : Threads} → Work s t → Inv s → Inv t
Work-Inv (Work.handle_open w c) inv = ground arith
Work-Inv (Work.handle_close w c) inv = ground arith
Work-Inv (Work.handle_none w c) inv = ground arith
Work-Inv (Work.handle_exit w c) inv = ground arith
Work-Inv (Work.wake_up w r) inv = ground arith
Work-Inv (Work.announce w) inv = ground arith
Work-Inv (Work.finish_open w) inv = ground arith
Work-Inv (Work.deny w) inv = ground arith
Work-Inv (Work.finish_refused w) inv = ground arith
Work-Inv (Work.loop_on w c) inv = ground arith
Work-Inv (Work.loop_off w c) inv = ground arith
Work-Inv (Work.select_wake w k) inv = ground arith
Work-Inv (Work.withdraw w) inv = ground arith
Work-Inv (Work.tear_down w) inv = ground arith

Peer-Inv : {s t : Threads} → Peer s t → Inv s → Inv t
Peer-Inv (Peer.connect_works w) inv = ground arith
Peer-Inv (Peer.connect_fails w) inv = ground arith
Peer-Inv (Peer.goes_on w) inv = ground arith
Peer-Inv (Peer.breaks w) inv = ground arith
Peer-Inv (Peer.stopped w) inv = ground arith

Opening-Inv : {s t : Threads} → Opening s t → Inv s → Inv t
Opening-Inv (Opening.open_busy f o) inv = ground arith
Opening-Inv (Opening.open_clear f o) inv = ground arith
Opening-Inv (Opening.open_closes f) inv = ground arith
Opening-Inv (Opening.close_returns f r c) inv = ground arith
Opening-Inv (Opening.open_asks f) inv = ground arith
Opening-Inv (Opening.open_returns f r c) inv = ground arith

Exiting-Inv : {s t : Threads} → Exiting s t → Inv s → Inv t
Exiting-Inv (Exiting.exit_busy f o) inv = ground arith
Exiting-Inv (Exiting.exit_clear f o) inv = ground arith
Exiting-Inv (Exiting.exit_closes f) inv = ground arith
Exiting-Inv (Exiting.exit_closed f r c) inv = ground arith
Exiting-Inv (Exiting.exit_asks f) inv = ground arith

pub Step-Inv : {s t : Threads} → Step s t → Inv s → Inv t
Step-Inv (work m) inv = Work-Inv m inv
Step-Inv (peer m) inv = Peer-Inv m inv
Step-Inv (opening m) inv = Opening-Inv m inv
Step-Inv (exiting m) inv = Exiting-Inv m inv

Steps-Inv : {s t : Threads} → Steps s t → Inv s → Inv t
Steps-Inv here inv = inv
Steps-Inv (later path st) inv = Step-Inv st (Steps-Inv path inv)

-- In every state that the three threads reach from the constructor, with `Exit` at any moment: a command that
-- is seen as finished is finished; a thread that waits in `cond` with `ready` down has no command to do, so that the
-- predicate of its wait holds whenever it has one; the socket is open just during a session; and `is_open`, which is what
-- `Open` returns, is true only with a connection to the phone.
pub channel-Inv : {s : Threads} → Steps init s → Inv s
channel-Inv path = Steps-Inv path Inv-init
