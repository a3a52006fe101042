-- ===== src/Program/Unanswered.antt =====
-- A call of the client's thread whose session with the player ends before the answer comes.
use lightning_cast_endpoint.Base.{
  ◌⊎◌, inl, inr, ◌≡◌, ◌≢◌, refl, Bool, true, false, List, [], ◌∷◌, arith,
}
use lightning_cast_endpoint.Client.Channel
use lightning_cast_endpoint.Client.Channel.{Worker}
use lightning_cast_endpoint.Client.Requests.{Request, close_player, halt, Follows, Unsent, halts_in}
use lightning_cast_endpoint.Snapcast.State.{opening}
use lightning_cast_endpoint.Snapcast.Interleaving
use lightning_cast_endpoint.Snapcast.Interleaving.{
  dispatching, waiting, tearing, exited, Caller, in_open, in_reply, Threads, Work, Player, Calling,
}
use lightning_cast_endpoint.Program.Sound.{returned_ended}
use lightning_cast_endpoint.Program.{
  returned, seen_from, Program, start, ThreadStep, MainStep, Step, run, main_step, Steps, here,
  later,
}

-- A doStop, or what is left of one.
abbrev pub Halts : List Request → Type 0
Halts todo = (todo ≡ []) ⊎ (todo ≡ halt) ⊎ (todo ≡ close_player ∷ [])

-- All that the server's thread and main call.
record Halting (s : Program) : Type 0 where
  server : Halts s.server_todo
  main : Halts s.main_todo

halts_in-Halts : (c : Channel.Caller) → Halts (halts_in c)
halts_in-Halts c = ground arith

Follows-Halts :
    {c d : Caller} {todo rest : List Request}
    → Follows c todo d rest
    → Halts todo
    → Halts rest × (d ≢ in_open)
Follows-Halts (Follows.asks r more f e w same) h = ground arith
Follows-Halts (Follows.returns r more w e f same) h = ground arith
Follows-Halts (Follows.start_refused w e f same) h = ground arith

Unsent-Halts : {todo rest : List Request} → Unsent todo rest → Halts todo → Halts rest
Unsent-Halts (Unsent.stop_unsent more e same) h = ground arith
Unsent-Halts (Unsent.start_unsent e same) h = ground arith

Step-Halting : {s t : Program} → Step s t → Halting s → Halting t
Step-Halting (run (ThreadStep.publishes on m e)) h = ground arith
Step-Halting (run (ThreadStep.snap_works on m)) h = ground arith
Step-Halting (run (ThreadStep.player_acts on m)) h = ground arith
Step-Halting (run (ThreadStep.client_works on f d m)) h = ground arith
Step-Halting (run (ThreadStep.phone_acts on f d m b)) h = ground arith
Step-Halting (run (ThreadStep.client_calls on m k)) h = ground arith
Step-Halting (run (ThreadStep.client_unsent on f o n k)) h = ground arith
Step-Halting (run (ThreadStep.server_begins on r q)) h = ground arith
Step-Halting (run (ThreadStep.server_opens {t} on r q f d m)) h =
    ground (arith, halts_in-Halts t.server)
Step-Halting (run (ThreadStep.server_calls on m k)) h = ground (arith, Follows-Halts k h.server)
Step-Halting (run (ThreadStep.server_unsent on f o n k)) h = ground (arith, Unsent-Halts k h.server)
Step-Halting (run (ThreadStep.server_read_ends on q f d)) h = ground arith
Step-Halting (run (ThreadStep.server_ends on q f w r)) h = ground arith
Step-Halting (main_step (MainStep.start_publisher e)) h = ground arith
Step-Halting (main_step (MainStep.start_snap e)) h = ground arith
Step-Halting (main_step (MainStep.start_client e)) h = ground arith
Step-Halting (main_step (MainStep.start_server e)) h = ground arith
Step-Halting (main_step (MainStep.quits e)) h = ground arith
Step-Halting (main_step (MainStep.client_exits {t} e f d m)) h =
    ground (arith, halts_in-Halts t.main)
Step-Halting (main_step (MainStep.main_calls e m k)) h = ground (arith, Follows-Halts k h.main)
Step-Halting (main_step (MainStep.main_unsent e f o n k)) h = ground (arith, Unsent-Halts k h.main)
Step-Halting (main_step (MainStep.client_told e o)) h = ground arith
Step-Halting (main_step (MainStep.snap_exits e)) h = ground arith
Step-Halting (main_step (MainStep.server_exits e)) h = ground arith
Step-Halting (main_step (MainStep.unregisters e m p)) h = ground arith
Step-Halting (main_step (MainStep.asks e m p)) h = ground arith
Step-Halting (main_step (MainStep.joins_publisher e m p)) h = ground arith
Step-Halting (main_step (MainStep.joins_snap e w)) h = ground arith
Step-Halting (main_step (MainStep.joins_client e w)) h = ground arith
Step-Halting (main_step (MainStep.joins_server e w)) h = ground arith

Steps-Halting : {s : Program} → Steps start s → Halting s
Steps-Halting here = record { server = inl refl; main = inl refl }
Steps-Halting (later path st) = Step-Halting st (Steps-Halting path)

-- The component's thread is behind a session.
abbrev pub is_over : Interleaving.Worker → Bool
is_over dispatching = true
is_over waiting = true
is_over tearing = true
is_over exited = true
is_over other = false

-- No answer has come, no session runs, and none is asked for.
record Mute (s : Threads) : Type 0 where
  unanswered : s.pending ≡ false
  over : is_over s.worker ≡ true
  unasked : s.cmd ≢ opening

Work-Mute : {s t : Threads} → Work s t → Mute s → Mute t
Work-Mute (Work.handle_open w c) x = ground arith
Work-Mute (Work.handle_close w c) x = ground arith
Work-Mute (Work.handle_none w c) x = ground arith
Work-Mute (Work.handle_exit w c) x = ground arith
Work-Mute (Work.wake_up w r) x = ground arith
Work-Mute (Work.finish_open w) x = ground arith
Work-Mute (Work.loop_on w c) x = ground arith
Work-Mute (Work.loop_off w c) x = ground arith
Work-Mute (Work.select_wake w k) x = ground arith
Work-Mute (Work.tear_down w) x = ground arith

Player-Mute : {s t : Threads} → Player s t → Mute s → ⊥
Player-Mute (Player.connect_fails w) x = ground arith
Player-Mute (Player.connect_works w) x = ground arith
Player-Mute (Player.answers w) x = ground arith
Player-Mute (Player.breaks w) x = ground arith
Player-Mute (Player.begins w) x = ground arith
Player-Mute (Player.cuts w) x = ground arith

-- A thread that calls no `Open` does not change that, and one that waits for an answer has no step.
Calling-Mute :
    (s : Threads) (c : Caller) {t : Threads}
    → Calling (seen_from c s) t
    → (c ≡ in_reply) ⊎ (t.caller ≢ in_open)
    → Mute s
    → Mute t × (c ≢ in_reply)
Calling-Mute s c (Calling.call_open f) n x = ground arith
Calling-Mute s c (Calling.call_close f) n x = ground arith
Calling-Mute s c (Calling.call_send f o) n x = ground arith
Calling-Mute s c (Calling.return_open f r e) n x = ground arith
Calling-Mute s c (Calling.return_close f r e) n x = ground arith
Calling-Mute s c (Calling.return_reply f p) n x = ground arith

-- The client's thread is in a call that waits for an answer.
record Unanswered (s : Program) : Type 0 where
  halting : Halting s
  mute : Mute s.snap
  waits : s.by_client ≡ in_reply

Step-Mute : {s t : Program} → Step s t → Unanswered s → Mute t.snap × (t.by_client ≡ in_reply)
Step-Mute (run (ThreadStep.publishes on m e)) x = (x.mute, x.waits)
Step-Mute (run (ThreadStep.snap_works on m)) x = (Work-Mute m x.mute, x.waits)
Step-Mute (run (ThreadStep.player_acts on m)) x = absurd (Player-Mute m x.mute)
Step-Mute (run (ThreadStep.client_works on f d m)) x = absurd (ground (arith, x.waits))
Step-Mute (run (ThreadStep.phone_acts on f d m b)) x = absurd (ground (arith, x.waits))
Step-Mute {s} (run (ThreadStep.client_calls on m k)) x =
    absurd ((Calling-Mute s.snap s.by_client m (inl x.waits) x.mute).1 x.waits)
Step-Mute (run (ThreadStep.client_unsent on f o n k)) x = absurd (ground (arith, x.waits))
Step-Mute (run (ThreadStep.server_begins on r q)) x = (x.mute, x.waits)
Step-Mute (run (ThreadStep.server_opens on r q f d m)) x = (x.mute, x.waits)
Step-Mute {s} (run (ThreadStep.server_calls on m k)) x = (
  (Calling-Mute s.snap s.by_server m (inr (Follows-Halts k x.halting.server).1) x.mute).0,
  x.waits,
)
Step-Mute (run (ThreadStep.server_unsent on f o n k)) x = (x.mute, x.waits)
Step-Mute (run (ThreadStep.server_read_ends on q f d)) x = (x.mute, x.waits)
Step-Mute (run (ThreadStep.server_ends on q f w r)) x = (x.mute, x.waits)
Step-Mute (main_step (MainStep.start_publisher e)) x = (x.mute, x.waits)
Step-Mute (main_step (MainStep.start_snap e)) x = (x.mute, x.waits)
Step-Mute (main_step (MainStep.start_client e)) x = (x.mute, x.waits)
Step-Mute (main_step (MainStep.start_server e)) x = (x.mute, x.waits)
Step-Mute (main_step (MainStep.quits e)) x = (x.mute, x.waits)
Step-Mute (main_step (MainStep.client_exits e f d m)) x = (x.mute, x.waits)
Step-Mute {s} (main_step (MainStep.main_calls e m k)) x =
    ((Calling-Mute s.snap s.by_main m (inr (Follows-Halts k x.halting.main).1) x.mute).0, x.waits)
Step-Mute (main_step (MainStep.main_unsent e f o n k)) x = (x.mute, x.waits)
Step-Mute (main_step (MainStep.client_told e o)) x = (x.mute, x.waits)
Step-Mute (main_step (MainStep.snap_exits e)) x = ground (arith, x.mute, x.waits)
Step-Mute (main_step (MainStep.server_exits e)) x = (x.mute, x.waits)
Step-Mute (main_step (MainStep.unregisters e m p)) x = (x.mute, x.waits)
Step-Mute (main_step (MainStep.asks e m p)) x = (x.mute, x.waits)
Step-Mute (main_step (MainStep.joins_publisher e m p)) x = (x.mute, x.waits)
Step-Mute (main_step (MainStep.joins_snap e w)) x = (x.mute, x.waits)
Step-Mute (main_step (MainStep.joins_client e w)) x = (x.mute, x.waits)
Step-Mute (main_step (MainStep.joins_server e w)) x = (x.mute, x.waits)

Steps-Unanswered : {s t : Program} → Steps s t → Unanswered s → Unanswered t
Steps-Unanswered here x = x
Steps-Unanswered (later path st) x =
    let before = Steps-Unanswered path x in
    let (mute, waits) = Step-Mute st before in
    record { halting = Step-Halting st before.halting; mute = mute; waits = waits }

Steps-joined : {s t u : Program} → Steps s t → Steps t u → Steps s u
Steps-joined path here = path
Steps-joined path (later more st) = later (Steps-joined path more) st

-- An answer that does not come any more: if the client's thread waits for an answer of the player, and none is there, the
-- component's thread is behind the session and no `Open` of it is asked for, then in every state of the program that can
-- follow, `Exit` included, the client's thread still waits, and main never returns.
pub answer_lost :
    {s t : Program}
    → Steps start s
    → s.by_client ≡ in_reply
    → s.snap.pending ≡ false
    → is_over s.snap.worker ≡ true
    → s.snap.cmd ≢ opening
    → Steps s t
    → (t.by_client ≡ in_reply) × (t.snap.pending ≡ false) × (t.main ≢ returned)
answer_lost {s} {t} path waits p over c more =
    let x : Unanswered s = record {
      halting = Steps-Halting path;
      mute = record { unanswered = p; over = over; unasked = c };
      waits = waits;
    } in
    let y = Steps-Unanswered more x in
    (
      y.waits,
      y.mute.unanswered,
      λ back. ground (arith, returned_ended (Steps-joined path more) back, y.waits),
    )
