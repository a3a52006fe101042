-- ===== src/Program/Stranded.antt =====
-- Two states of the player's component behind main's `Exit` that last: its thread does not exit any more, and it
-- has exited while a thread waits in a call.
use lightning_cast_endpoint.Base.{◌⊎◌, ◌<◌, ◌≡◌, ◌≢◌, refl, true, false, List, [], arith}
use lightning_cast_endpoint.Client.Requests.{Request, Follows}
use lightning_cast_endpoint.Snapcast.State.{exiting}
use lightning_cast_endpoint.Snapcast.Interleaving.{
  exited, Caller, in_close, Threads, Work, Player, Calling,
}
use lightning_cast_endpoint.Snapcast.Interleaving.Exit.{is_starting}
use lightning_cast_endpoint.Program.Moves.{rests, works, plays, calls, told, Step-SnapMove}
use lightning_cast_endpoint.Program.Stays.{snap-Work_stays, Player-stays}
use lightning_cast_endpoint.Program.{
  place, seen_from, Program, ThreadStep, MainStep, Step, run, main_step,
}

-- The component's thread does not exit any more: the command has been overwritten, or will be at the end of
-- `connectServer`.
pub record Lost (s : Threads) : Type 0 where
  pub overwritten : (is_starting s.worker ≡ true) ⊎ (s.cmd ≢ exiting)
  pub runs : s.worker ≢ exited

-- A thread is in a call of `Close` that it has still to return from.
pub record InClose (c : Caller) (todo : List Request) : Type 0 where
  pub waits : c ≡ in_close
  pub left : todo ≢ []

-- The component's thread has exited, and the call that came behind it, of the client's or the server's thread, waits.
pub record Stranded (s : Program) : Type 0 where
  pub gone : s.snap.worker ≡ exited
  pub unsynced : s.snap.ready_sync ≡ false
  pub closing : InClose s.by_client s.client_todo ⊎ InClose s.by_server s.server_todo

Work-Lost : {s t : Threads} → Work s t → Lost s → Lost t
Work-Lost (Work.handle_open w c) x = ground arith
Work-Lost (Work.handle_close w c) x = ground arith
Work-Lost (Work.handle_none w c) x = ground arith
Work-Lost (Work.handle_exit w c) x = ground arith
Work-Lost (Work.wake_up w r) x = ground arith
Work-Lost (Work.finish_open w) x = ground arith
Work-Lost (Work.loop_on w c) x = ground arith
Work-Lost (Work.loop_off w c) x = ground arith
Work-Lost (Work.select_wake w k) x = ground arith
Work-Lost (Work.tear_down w) x = ground arith

Player-Lost : {s t : Threads} → Player s t → Lost s → Lost t
Player-Lost (Player.connect_fails w) x = ground arith
Player-Lost (Player.connect_works w) x = ground arith
Player-Lost (Player.answers w) x = ground arith
Player-Lost (Player.breaks w) x = ground arith
Player-Lost (Player.begins w) x = ground arith
Player-Lost (Player.cuts w) x = ground arith

Calling-Lost :
    (s : Threads) (c : Caller) {t : Threads} → Calling (seen_from c s) t → Lost s → Lost t
Calling-Lost s c (Calling.call_open f) x = ground arith
Calling-Lost s c (Calling.call_close f) x = ground arith
Calling-Lost s c (Calling.call_send f o) x = ground arith
Calling-Lost s c (Calling.return_open f r e) x = ground arith
Calling-Lost s c (Calling.return_close f r e) x = ground arith
Calling-Lost s c (Calling.return_reply f p) x = ground arith

pub Step-Lost : {s t : Program} → Step s t → 6 < place s.main → Lost s.snap → Lost t.snap
Step-Lost {s} st on_way x = elim (Step-SnapMove st) [
  | rests same ↦ rw same x
  | works m ↦ Work-Lost m x
  | plays m ↦ Player-Lost m x
  | calls c m ↦ Calling-Lost s.snap c m x
  | told at same ↦ absurd (ground arith)
]

-- Behind the end of the component's thread no call is told that it is finished.
Work-unsynced : {s t : Threads} → Work s t → s.worker ≡ exited → t.ready_sync ≡ s.ready_sync
Work-unsynced (Work.handle_open w c) e = ground arith
Work-unsynced (Work.handle_close w c) e = ground arith
Work-unsynced (Work.handle_none w c) e = ground arith
Work-unsynced (Work.handle_exit w c) e = ground arith
Work-unsynced (Work.wake_up w r) e = ground arith
Work-unsynced (Work.finish_open w) e = ground arith
Work-unsynced (Work.loop_on w c) e = ground arith
Work-unsynced (Work.loop_off w c) e = ground arith
Work-unsynced (Work.select_wake w k) e = ground arith
Work-unsynced (Work.tear_down w) e = ground arith

Player-unsynced : {s t : Threads} → Player s t → t.ready_sync ≡ s.ready_sync
Player-unsynced (Player.connect_fails w) = refl
Player-unsynced (Player.connect_works w) = refl
Player-unsynced (Player.answers w) = refl
Player-unsynced (Player.breaks w) = refl
Player-unsynced (Player.begins w) = refl
Player-unsynced (Player.cuts w) = refl

Calling-unsynced :
    (s : Threads) (c : Caller) {t : Threads}
    → Calling (seen_from c s) t
    → s.ready_sync ≡ false
    → (t.ready_sync ≡ false) × (t.worker ≡ s.worker) × (c ≡ in_close → t.caller ≡ in_close)
Calling-unsynced s c (Calling.call_open f) d = ground arith
Calling-unsynced s c (Calling.call_close f) d = ground arith
Calling-unsynced s c (Calling.call_send f o) d = ground arith
Calling-unsynced s c (Calling.return_open f r e) d = ground arith
Calling-unsynced s c (Calling.return_close f r e) d = ground arith
Calling-unsynced s c (Calling.return_reply f p) d = ground arith

-- A thread that stays in the call keeps its list.
Follows-InClose :
    {c d : Caller} {todo rest : List Request}
    → Follows c todo d rest
    → (c ≡ in_close → d ≡ in_close)
    → InClose c todo
    → InClose d rest
Follows-InClose (Follows.asks r more f e w same) stay x = record {
  waits = stay x.waits;
  left = λ none_left. cc;
}
Follows-InClose (Follows.returns r more w e f same) stay x = absurd (ground (arith, x.waits))
Follows-InClose (Follows.start_refused w e f same) stay x = absurd (ground (arith, x.waits))

pub Step-Stranded : {s t : Program} → Step s t → Stranded s → Stranded t
Step-Stranded (run (ThreadStep.publishes on m e)) x = ground arith
Step-Stranded (run (ThreadStep.snap_works on m)) x =
    ground (arith, snap-Work_stays m, Work-unsynced m)
Step-Stranded (run (ThreadStep.player_acts on m)) x =
    ground (arith, Player-stays m, Player-unsynced m)
Step-Stranded (run (ThreadStep.client_works on f d m)) x = ground arith
Step-Stranded (run (ThreadStep.phone_acts on f d m b)) x = ground arith
Step-Stranded {s} (run (ThreadStep.client_calls on m k)) x =
    let (d, w, stay) = Calling-unsynced s.snap s.by_client m x.unsynced in
    ground (arith, Follows-InClose k stay)
Step-Stranded (run (ThreadStep.client_unsent on f o n k)) x = ground arith
Step-Stranded (run (ThreadStep.server_begins on r q)) x = ground arith
Step-Stranded (run (ThreadStep.server_opens on r q f d m)) x = ground arith
Step-Stranded {s} (run (ThreadStep.server_calls on m k)) x =
    let (d, w, stay) = Calling-unsynced s.snap s.by_server m x.unsynced in
    ground (arith, Follows-InClose k stay)
Step-Stranded (run (ThreadStep.server_unsent on f o n k)) x = ground arith
Step-Stranded (run (ThreadStep.server_read_ends on q f d)) x = ground arith
Step-Stranded (run (ThreadStep.server_ends on q f w r)) x = ground arith
Step-Stranded (main_step (MainStep.start_publisher e)) x = ground arith
Step-Stranded (main_step (MainStep.start_snap e)) x = ground arith
Step-Stranded (main_step (MainStep.start_client e)) x = ground arith
Step-Stranded (main_step (MainStep.start_server e)) x = ground arith
Step-Stranded (main_step (MainStep.quits e)) x = ground arith
Step-Stranded (main_step (MainStep.client_exits e f d m)) x = ground arith
Step-Stranded {s} (main_step (MainStep.main_calls e m k)) x =
    ground (arith, Calling-unsynced s.snap s.by_main m)
Step-Stranded (main_step (MainStep.main_unsent e f o n k)) x = ground arith
Step-Stranded (main_step (MainStep.client_told e o)) x = ground arith
Step-Stranded (main_step (MainStep.snap_exits e)) x = ground arith
Step-Stranded (main_step (MainStep.server_exits e)) x = ground arith
Step-Stranded (main_step (MainStep.unregisters e m p)) x = ground arith
Step-Stranded (main_step (MainStep.asks e m p)) x = ground arith
Step-Stranded (main_step (MainStep.joins_publisher e m p)) x = ground arith
Step-Stranded (main_step (MainStep.joins_snap e w)) x = ground arith
Step-Stranded (main_step (MainStep.joins_client e w)) x = ground arith
Step-Stranded (main_step (MainStep.joins_server e w)) x = ground arith
