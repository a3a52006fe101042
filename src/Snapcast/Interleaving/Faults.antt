-- ===== src/Snapcast/Interleaving/Faults.antt =====
-- Where the channel leaves a thread waiting for good.
use lightning_cast_endpoint.Base.{◌≡◌, refl, true, false, arith}
use lightning_cast_endpoint.Snapcast.State.{idle, opening, exiting}
use lightning_cast_endpoint.Snapcast.Interleaving.{
  connecting, selecting, free, in_open, Threads, command, finish, Work, Player, Calling, work,
  player, Steps, here, later,
}

-- A session is on and nothing wakes the thread's select.
pub record Listening (s : Threads) : Type 0 where
  pub selects : s.worker ≡ selecting
  pub unwoken : s.woken ≡ false

Listening-Work : {s u : Threads} → Listening s → ¬ Work s u
Listening-Work l (Work.handle_open w c) = ground arith
Listening-Work l (Work.handle_close w c) = ground arith
Listening-Work l (Work.handle_none w c) = ground arith
Listening-Work l (Work.handle_exit w c) = ground arith
Listening-Work l (Work.wake_up w r) = ground arith
Listening-Work l (Work.finish_open w) = ground arith
Listening-Work l (Work.loop_on w c) = ground arith
Listening-Work l (Work.loop_off w c) = ground arith
Listening-Work l (Work.select_wake w k) = ground arith
Listening-Work l (Work.tear_down w) = ground arith

unfinished-Calling : {s u : Threads} → s.caller ≡ in_open → s.ready_sync ≡ false → ¬ Calling s u
unfinished-Calling h y (Calling.call_open f) = ground arith
unfinished-Calling h y (Calling.call_close f) = ground arith
unfinished-Calling h y (Calling.call_send f o) = ground arith
unfinished-Calling h y (Calling.return_open f r c) = ground arith
unfinished-Calling h y (Calling.return_close f r c) = ground arith
unfinished-Calling h y (Calling.return_reply f p) = ground arith

-- `Open` during a session whose select nothing wakes does not return of itself: `Open` does not
-- write to `wake_fd`, and after its call neither the class's own thread nor the caller has a step
-- left. Only the player can free them.
pub open_in_session_waits :
    (s u : Threads)
    → Listening s
    → s.caller ≡ free
    → let t = record (command opening s) { caller = in_open } in
      Calling s t × (¬ Work t u) × (¬ Calling t u)
open_in_session_waits s u l f = (
  Calling.call_open f,
  λ m. Listening-Work (record { selects = l.selects; unwoken = l.unwoken }) m,
  λ m. unfinished-Calling refl refl m,
)

-- Three steps after `Exit` came during `connectServer`: connected, finished, and in select.
abbrev pub forgotten : Threads → Threads
forgotten s = record (finish (record (command exiting s) { fd_open = true })) { worker = selecting }

-- `Exit` while the thread connects and nothing has woken it can be forgotten: the end of
-- `connectServer` overwrites the command, and the thread goes on to select, where it has no step
-- of its own.
pub exit_lost :
    (s u : Threads)
    → s.worker ≡ connecting
    → s.woken ≡ false
    → Steps (command exiting s) (forgotten s)
      × ((forgotten s).cmd ≡ idle)
      × ((forgotten s).worker ≡ selecting)
      × (¬ Work (forgotten s) u)
exit_lost s u w k = (
  later (later (later here (player (Player.connect_works w))) (work (Work.finish_open refl)))
      (work (Work.loop_on refl refl)),
  refl,
  refl,
  λ m. Listening-Work (record { selects = refl; unwoken = k }) m,
)
