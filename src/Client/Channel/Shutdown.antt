-- ===== src/Client/Channel/Shutdown.antt =====
-- An `Exit` of the client that is forgotten: nothing brings it back.
use lightning_cast_endpoint.Base.{◌≡◌, ◌≢◌, ◌⊎◌, true, arith}
use lightning_cast_endpoint.Client.Channel.Progress.{is_starting}
use lightning_cast_endpoint.Client.Commands.{exit}
use lightning_cast_endpoint.Client.Channel.{
  exited, over, Threads, Work, Peer, Opening, Exiting, Step, work, peer, opening, exiting,
}

-- `Exit` has returned and the thread still runs; but it is just opening a connection, at the end of which
-- LockfinishCmd overwrites the command, or the command has been overwritten.
pub record Deaf (s : Threads) : Type 0 where
  pub asked : s.main ≡ over
  pub forgot : (is_starting s.worker ≡ true) ⊎ (s.cmd ≢ exit)
  pub runs : s.worker ≢ exited

Work-Deaf : {s t : Threads} → Work s t → Deaf s → Deaf t
Work-Deaf (Work.handle_open w c) x = ground arith
Work-Deaf (Work.handle_close w c) x = ground arith
Work-Deaf (Work.handle_none w c) x = ground arith
Work-Deaf (Work.handle_exit w c) x = ground arith
Work-Deaf (Work.wake_up w r) x = ground arith
Work-Deaf (Work.announce w) x = ground arith
Work-Deaf (Work.finish_open w) x = ground arith
Work-Deaf (Work.deny w) x = ground arith
Work-Deaf (Work.finish_refused w) x = ground arith
Work-Deaf (Work.loop_on w c) x = ground arith
Work-Deaf (Work.loop_off w c) x = ground arith
Work-Deaf (Work.select_wake w k) x = ground arith
Work-Deaf (Work.withdraw w) x = ground arith
Work-Deaf (Work.tear_down w) x = ground arith

Peer-Deaf : {s t : Threads} → Peer s t → Deaf s → Deaf t
Peer-Deaf (Peer.connect_works w) x = ground arith
Peer-Deaf (Peer.connect_fails w) x = ground arith
Peer-Deaf (Peer.goes_on w) x = ground arith
Peer-Deaf (Peer.breaks w) x = ground arith
Peer-Deaf (Peer.stopped w) x = ground arith

Opening-Deaf : {s t : Threads} → Opening s t → Deaf s → Deaf t
Opening-Deaf (Opening.open_busy f o) x = ground arith
Opening-Deaf (Opening.open_clear f o) x = ground arith
Opening-Deaf (Opening.open_closes f) x = ground arith
Opening-Deaf (Opening.close_returns f r c) x = ground arith
Opening-Deaf (Opening.open_asks f) x = ground arith
Opening-Deaf (Opening.open_returns f r c) x = ground arith

Exiting-Deaf : {s t : Threads} → Exiting s t → Deaf s → Deaf t
Exiting-Deaf (Exiting.exit_busy f o) x = ground arith
Exiting-Deaf (Exiting.exit_clear f o) x = ground arith
Exiting-Deaf (Exiting.exit_closes f) x = ground arith
Exiting-Deaf (Exiting.exit_closed f r c) x = ground arith
Exiting-Deaf (Exiting.exit_asks f) x = ground arith

pub Step-Deaf : {s t : Threads} → Step s t → Deaf s → Deaf t
Step-Deaf (work m) x = Work-Deaf m x
Step-Deaf (peer m) x = Peer-Deaf m x
Step-Deaf (opening m) x = Opening-Deaf m x
Step-Deaf (exiting m) x = Exiting-Deaf m x
