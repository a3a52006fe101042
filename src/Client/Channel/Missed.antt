-- ===== src/Client/Channel/Missed.antt =====
-- A wake-up that main misses: `Exit` comes while `Open` waits, and notify_one wakes the other thread.
use lightning_cast_endpoint.Base.{Bool, ◌≡◌, refl, true, false, arith}
use lightning_cast_endpoint.Client.Commands.{idle}
use lightning_cast_endpoint.Client.Channel.{announced, in_close, Threads, Work, Peer, Opening}
use lightning_cast_endpoint.Client.Channel.Progress.{is_starting}
use lightning_cast_endpoint.Client.Channel.Notify.{notifies, Sleepers, awake, Inner, Serving, Trace}

-- What follows as long as no command is given: the thread, the phone and the player go on, and the server's
-- thread comes back from its call.
pub data Quiet (s : Sleepers) : Sleepers → Type 0 where
  still : Quiet s s
  goes_on : {t u : Sleepers} → Quiet s t → Inner t u → Quiet s u
  comes_back : {t u : Sleepers} → Quiet s t → Serving t u → u.threads.cmd ≡ idle → Quiet s u

-- Nobody is going to call notify_one.
abbrev Done : Threads → Type 0
Done s = (s.cmd ≡ idle) × (is_starting s.worker ≡ false)

abbrev AfterWork : Threads → Threads → Bool → Type 0
AfterWork s t n = (n ≡ false) × Done t × (t.main ≡ s.main)

Work-Done : {s t : Threads} (m : Work s t) → Done s → AfterWork s t (notifies m)
Work-Done (Work.handle_open w c) d = ground arith
Work-Done (Work.handle_close w c) d = ground arith
Work-Done (Work.handle_none w c) d = ground arith
Work-Done (Work.handle_exit w c) d = ground arith
Work-Done (Work.wake_up w r) d = ground arith
Work-Done (Work.announce w) d = ground arith
Work-Done (Work.finish_open w) d = ground arith
Work-Done (Work.deny w) d = ground arith
Work-Done (Work.finish_refused w) d = ground arith
Work-Done (Work.loop_on w c) d = ground arith
Work-Done (Work.loop_off w c) d = ground arith
Work-Done (Work.select_wake w k) d = ground arith
Work-Done (Work.withdraw w) d = ground arith
Work-Done (Work.tear_down w) d = ground arith

Peer-Done : {s t : Threads} → Peer s t → Done s → AfterWork s t false
Peer-Done (Peer.connect_works w) d = ground arith
Peer-Done (Peer.connect_fails w) d = ground arith
Peer-Done (Peer.goes_on w) d = ground arith
Peer-Done (Peer.breaks w) d = ground arith
Peer-Done (Peer.stopped w) d = ground arith

Opening-Done : {s t : Threads} → Opening s t → t.cmd ≡ idle → Done s → Done t × (t.main ≡ s.main)
Opening-Done (Opening.open_busy f o) e d = ground arith
Opening-Done (Opening.open_clear f o) e d = ground arith
Opening-Done (Opening.open_closes f) e d = ground arith
Opening-Done (Opening.close_returns f r c) e d = ground arith
Opening-Done (Opening.open_asks f) e d = ground arith
Opening-Done (Opening.open_returns f r c) e d = ground arith

-- Main sleeps, and its command is gone.
record Missed (s : Sleepers) : Type 0 where
  sleeps : s.main_sleeps ≡ true
  stands : s.threads.main ≡ in_close
  over : Done s.threads

Inner-Missed : {s t : Sleepers} → Inner s t → Missed s → Missed t
Inner-Missed (Inner.works m n) x = ground (arith, Work-Done m x.over)
Inner-Missed (Inner.wakes_server m n z) x = ground (arith, Work-Done m x.over)
Inner-Missed (Inner.wakes_main m n z) x = ground (arith, Work-Done m x.over)
Inner-Missed (Inner.wakes_nobody m n y z) x = ground (arith, Work-Done m x.over)
Inner-Missed (Inner.others m) x = ground (arith, Peer-Done m x.over)

Serving-Missed : {s t : Sleepers} → Serving s t → t.threads.cmd ≡ idle → Missed s → Missed t
Serving-Missed (Serving.serves z m) e x = ground (arith, Opening-Done m e x.over)
Serving-Missed (Serving.server_again w r) e x = ground arith

Quiet-Missed : {s t : Sleepers} → Quiet s t → Missed s → Missed t
Quiet-Missed still x = x
Quiet-Missed (goes_on path m) x = Inner-Missed m (Quiet-Missed path x)
Quiet-Missed (comes_back path m e) x = Serving-Missed m e (Quiet-Missed path x)

-- One notify_one for two sleepers: in every reachable state in which the connection for an `Open` has just been
-- announced, the server's thread sleeps in that call, and main sleeps in the `Close` of `Exit`, the next step of
-- the class's own thread can finish the command, close included, and wake the server's thread; main then sleeps on
-- although `ready_sync` is up, as long as no further command is given.
pub wakeup_missed :
    {s : Sleepers}
    → Trace awake s
    → s.threads.worker ≡ announced
    → s.threads.main ≡ in_close
    → s.server_sleeps ≡ true
    → s.main_sleeps ≡ true
    → (t : Sleepers) × Inner s t
      × (t.server_sleeps ≡ false)
      × (t.threads.cmd ≡ idle)
      × (t.threads.ready_sync ≡ true)
      × ((u : Sleepers) → Quiet t u → (u.main_sleeps ≡ true) × (u.threads.main ≡ in_close))
wakeup_missed path w m server_down main_down = (
  _,
  Inner.wakes_server (Work.finish_open w) refl server_down,
  refl,
  refl,
  refl,
  λ u more. let x = Quiet-Missed more (ground arith) in (x.sleeps, x.stands),
)
