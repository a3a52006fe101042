-- ===== src/Client/Channel/Wakeups.antt =====
-- Which wake-ups come, and which do not.
use lightning_cast_endpoint.Base.{Bool, ◌≢◌, ◌≡◌, true, false, arith}
use lightning_cast_endpoint.Client.Channel.{
  free, Threads, init, Work, Peer, Opening, Exiting, work, peer, opening, exiting, Steps, here,
  later,
}
use lightning_cast_endpoint.Client.Channel.Notify.{
  notifies, waits, Sleepers, awake, Inner, Serving, Leaving, Trace, stay, inner, serving, leaving,
}

-- Every run with sleeping threads is, without them, a run of the channel: what holds in all states that the
-- channel reaches holds here too.
pub trace_steps : {s : Sleepers} → Trace awake s → Steps init s.threads
trace_steps stay = here
trace_steps (inner path (Inner.works m n)) = later (trace_steps path) (work m)
trace_steps (inner path (Inner.wakes_server m n z)) = later (trace_steps path) (work m)
trace_steps (inner path (Inner.wakes_main m n z)) = later (trace_steps path) (work m)
trace_steps (inner path (Inner.wakes_nobody m n y z)) = later (trace_steps path) (work m)
trace_steps (inner path (Inner.others m)) = later (trace_steps path) (peer m)
trace_steps (serving path (Serving.serves z m)) = later (trace_steps path) (opening m)
trace_steps (serving path (Serving.server_again w r)) = trace_steps path
trace_steps (leaving path (Leaving.leaves z m)) = later (trace_steps path) (exiting m)
trace_steps (leaving path (Leaving.main_again w r)) = trace_steps path

-- A step of the class's own thread leaves main where it stands, and raises `ready_sync` only with a notification.
abbrev Keeps : (s t : Threads) → Bool → Type 0
Keeps s t n = (t.main ≡ s.main) × (t.server ≡ s.server) × (n ≡ false → t.ready_sync ≡ s.ready_sync)

Work-Keeps : {s t : Threads} (m : Work s t) → Keeps s t (notifies m)
Work-Keeps (Work.handle_open w c) = ground arith
Work-Keeps (Work.handle_close w c) = ground arith
Work-Keeps (Work.handle_none w c) = ground arith
Work-Keeps (Work.handle_exit w c) = ground arith
Work-Keeps (Work.wake_up w r) = ground arith
Work-Keeps (Work.announce w) = ground arith
Work-Keeps (Work.finish_open w) = ground arith
Work-Keeps (Work.deny w) = ground arith
Work-Keeps (Work.finish_refused w) = ground arith
Work-Keeps (Work.loop_on w c) = ground arith
Work-Keeps (Work.loop_off w c) = ground arith
Work-Keeps (Work.select_wake w k) = ground arith
Work-Keeps (Work.withdraw w) = ground arith
Work-Keeps (Work.tear_down w) = ground arith

Peer-Keeps : {s t : Threads} → Peer s t → Keeps s t false
Peer-Keeps (Peer.connect_works w) = ground arith
Peer-Keeps (Peer.connect_fails w) = ground arith
Peer-Keeps (Peer.goes_on w) = ground arith
Peer-Keeps (Peer.breaks w) = ground arith
Peer-Keeps (Peer.stopped w) = ground arith

-- As long as main has not called `Exit`, only the server's thread sleeps, and only with `ready_sync` down.
record Alert (s : Sleepers) : Type 0 where
  main_up : s.threads.main ≡ free → s.main_sleeps ≡ false
  down : s.threads.main ≡ free → s.server_sleeps ≡ true → s.threads.ready_sync ≡ false

Alert-awake : Alert awake
Alert-awake = ground arith

Inner-Alert : {s t : Sleepers} → Inner s t → Alert s → Alert t
Inner-Alert (Inner.works m n) a = ground (arith, Work-Keeps m)
Inner-Alert (Inner.wakes_server m n z) a = ground (arith, Work-Keeps m)
Inner-Alert (Inner.wakes_main m n z) a = ground (arith, Work-Keeps m)
Inner-Alert (Inner.wakes_nobody m n y z) a = ground (arith, Work-Keeps m)
Inner-Alert (Inner.others m) a = ground (arith, Peer-Keeps m)

Opening-down :
    {s t : Threads}
    → Opening s t
    → (t.main ≡ s.main) × (waits t.server ≡ true → t.ready_sync ≡ false)
Opening-down (Opening.open_busy f o) = ground arith
Opening-down (Opening.open_clear f o) = ground arith
Opening-down (Opening.open_closes f) = ground arith
Opening-down (Opening.close_returns f r c) = ground arith
Opening-down (Opening.open_asks f) = ground arith
Opening-down (Opening.open_returns f r c) = ground arith

Serving-Alert : {s t : Sleepers} → Serving s t → Alert s → Alert t
Serving-Alert (Serving.serves z m) a = ground (arith, Opening-down m)
Serving-Alert (Serving.server_again w r) a = ground arith

Exiting-leaves : {s t : Threads} → Exiting s t → t.main ≢ free
Exiting-leaves (Exiting.exit_busy f o) = ground arith
Exiting-leaves (Exiting.exit_clear f o) = ground arith
Exiting-leaves (Exiting.exit_closes f) = ground arith
Exiting-leaves (Exiting.exit_closed f r c) = ground arith
Exiting-leaves (Exiting.exit_asks f) = ground arith

Leaving-Alert : {s t : Sleepers} → Leaving s t → Alert s → Alert t
Leaving-Alert (Leaving.leaves z m) a = ground (arith, Exiting-leaves m)
Leaving-Alert (Leaving.main_again w r) a = ground arith

Trace-Alert : {s : Sleepers} → Trace awake s → Alert s
Trace-Alert stay = Alert-awake
Trace-Alert (inner path m) = Inner-Alert m (Trace-Alert path)
Trace-Alert (serving path m) = Serving-Alert m (Trace-Alert path)
Trace-Alert (leaving path m) = Leaving-Alert m (Trace-Alert path)

-- As long as main has not called `Exit`, notify_one is enough: in every reachable state the server's thread, the
-- only one that waits in `cond_sync`, is awake when `ready_sync` says that its command is finished.
pub finished_awake :
    {s : Sleepers}
    → Trace awake s
    → s.threads.main ≡ free
    → s.threads.ready_sync ≡ true
    → (s.server_sleeps ≡ false) × (s.main_sleeps ≡ false)
finished_awake path f r = let a = Trace-Alert path in ground arith
