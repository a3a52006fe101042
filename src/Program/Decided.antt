-- ===== src/Program/Decided.antt =====
-- At its joins main returns or not, and that is decided.
use lightning_cast_endpoint.Base.{◌≤◌, ◌<◌, ◌≡◌, ◌≢◌, refl, ◌⊎◌, inl, inr, Bool, true, false, arith}
use lightning_cast_endpoint.Client.Commands.{ClientCmd, exit}
use lightning_cast_endpoint.Client.Channel
use lightning_cast_endpoint.Client.Channel.{Worker, testing, selecting, ending, stopping}
use lightning_cast_endpoint.Client.Channel.Progress.{is_starting}
use lightning_cast_endpoint.Client.Channel.Heard
use lightning_cast_endpoint.Client.Channel.Shutdown.{Deaf}
use lightning_cast_endpoint.Client.Requests.{halts_at}
use lightning_cast_endpoint.Snapcast.State.{ThreadCmd, exiting}
use lightning_cast_endpoint.Snapcast.Interleaving
use lightning_cast_endpoint.Snapcast.Interleaving.Exit
use lightning_cast_endpoint.Program.Stays.{Opening-Stays, Exiting-Stays}
use lightning_cast_endpoint.Program.Stranded.{Lost}
use lightning_cast_endpoint.Program.Moves.{Step-place}
use lightning_cast_endpoint.Program.Sound.{Sound, Step-Sound, program-Sound}
use lightning_cast_endpoint.Program.Hangs.{quit_hangs}
use lightning_cast_endpoint.Program.Late.{Owes, Late, Step-Late, later_hangs, late_exit_hangs}
use lightning_cast_endpoint.Program.Ending.{is_behind, Told}
use lightning_cast_endpoint.Program.Ending.Enabled.{Enabled, Closings, steps}
use lightning_cast_endpoint.Program.Ending.Quit.{quit_ends}
use lightning_cast_endpoint.Program.{
  returned, place, Program, start, ThreadStep, MainStep, Step, run, main_step, Steps, here, later,
}

-- The client's thread is in the loop of a session, or at its end.
abbrev is_session : Worker → Bool
is_session testing = true
is_session selecting = true
is_session ending = true
is_session other = false

Work-session :
    {c d : Channel.Threads}
    → Channel.Work c d
    → is_session c.worker ≡ true
    → (is_session d.worker ≡ true) ⊎ (d.worker ≡ stopping)
Work-session (Channel.Work.handle_open w c) x = ground arith
Work-session (Channel.Work.handle_close w c) x = ground arith
Work-session (Channel.Work.handle_none w c) x = ground arith
Work-session (Channel.Work.handle_exit w c) x = ground arith
Work-session (Channel.Work.wake_up w r) x = ground arith
Work-session (Channel.Work.announce w) x = ground arith
Work-session (Channel.Work.finish_open w) x = ground arith
Work-session (Channel.Work.deny w) x = ground arith
Work-session (Channel.Work.finish_refused w) x = ground arith
Work-session (Channel.Work.loop_on w c) x = ground arith
Work-session (Channel.Work.loop_off w c) x = ground arith
Work-session (Channel.Work.select_wake w k) x = ground arith
Work-session (Channel.Work.withdraw w) x = ground arith
Work-session (Channel.Work.tear_down w) x = ground arith

Peer-session :
    {c d : Channel.Threads}
    → Channel.Peer c d
    → is_session c.worker ≡ true
    → is_session d.worker ≡ true
Peer-session (Channel.Peer.connect_works w) x = ground arith
Peer-session (Channel.Peer.connect_fails w) x = ground arith
Peer-session (Channel.Peer.goes_on w) x = ground arith
Peer-session (Channel.Peer.breaks w) x = ground arith
Peer-session (Channel.Peer.stopped w) x = ground arith

withdraws :
    {c : Interleaving.Caller} {w : Worker}
    → c ≡ Interleaving.free
    → (is_session w ≡ true) ⊎ (w ≡ stopping)
    → (is_session w ≡ true) ⊎ Owes c (halts_at w)
withdraws f (inl on) = inl on
withdraws f (inr at) = inr (record { uncalled = λ e. cc; left = rw at (inl refl) })

-- Behind the loop comes a doStop.
Step-session :
    {s t : Program}
    → Step s t
    → is_session s.client.worker ≡ true
    → (is_session t.client.worker ≡ true) ⊎ Owes t.by_client t.client_todo
Step-session (run (ThreadStep.publishes on m e)) x = inl x
Step-session (run (ThreadStep.snap_works on m)) x = inl x
Step-session (run (ThreadStep.player_acts on m)) x = inl x
Step-session (run (ThreadStep.client_works on f d m)) x = withdraws f (Work-session m x)
Step-session (run (ThreadStep.phone_acts on f d m b)) x = inl (Peer-session m x)
Step-session (run (ThreadStep.client_calls on m k)) x = inl x
Step-session (run (ThreadStep.client_unsent on f o n k)) x = inl x
Step-session (run (ThreadStep.server_begins on r q)) x = inl x
Step-session (run (ThreadStep.server_opens on r q f d m)) x = inl (ground (arith, Opening-Stays m))
Step-session (run (ThreadStep.server_calls on m k)) x = inl x
Step-session (run (ThreadStep.server_unsent on f o n k)) x = inl x
Step-session (run (ThreadStep.server_read_ends on q f d)) x = inl x
Step-session (run (ThreadStep.server_ends on q f w r)) x = inl x
Step-session (main_step (MainStep.start_publisher e)) x = inl x
Step-session (main_step (MainStep.start_snap e)) x = inl x
Step-session (main_step (MainStep.start_client e)) x = inl x
Step-session (main_step (MainStep.start_server e)) x = inl x
Step-session (main_step (MainStep.quits e)) x = inl x
Step-session (main_step (MainStep.client_exits e f d m)) x = inl (ground (arith, Exiting-Stays m))
Step-session (main_step (MainStep.main_calls e m k)) x = inl x
Step-session (main_step (MainStep.main_unsent e f o n k)) x = inl x
Step-session (main_step (MainStep.client_told e o)) x = inl x
Step-session (main_step (MainStep.snap_exits e)) x = inl x
Step-session (main_step (MainStep.server_exits e)) x = inl x
Step-session (main_step (MainStep.unregisters e m p)) x = inl x
Step-session (main_step (MainStep.asks e m p)) x = inl x
Step-session (main_step (MainStep.joins_publisher e m p)) x = inl x
Step-session (main_step (MainStep.joins_snap e w)) x = inl x
Step-session (main_step (MainStep.joins_client e w)) x = inl x
Step-session (main_step (MainStep.joins_server e w)) x = inl x

Steps-session :
    {s t : Program}
    → Steps s t
    → Sound s
    → 6 < place s.main
    → is_session s.client.worker ≡ true
    → Sound t × (6 < place t.main) × ((is_session t.client.worker ≡ true) ⊎ Late t)
Steps-session here inv on_way x = (inv, on_way, inl x)
Steps-session (later path st) inv on_way x =
    let (before, there, y) = Steps-session path inv on_way x in
    (
      Step-Sound st before,
      omega (arith, Step-place st),
      elim y [
        | inl on ↦ elim (Step-session st on) [
          | inl still ↦ inl still
          | inr owes ↦ inr (inl (inl owes))
        ]
        | inr late ↦ inr (Step-Late st there late)
      ],
    )

session_hangs :
    {s t : Program}
    → Steps start s
    → 6 < place s.main
    → is_session s.client.worker ≡ true
    → Steps s t
    → t.main ≢ returned
session_hangs {s} {t} path on_way x more back =
    let (inv, there, y) = Steps-session more (program-Sound path) on_way x in
    elim y [
      | inl on ↦ ground (arith, inv.client_joined)
      | inr late ↦ later_hangs t (inv, there, late) back
    ]

-- Whatever happens.
abbrev pub Never : Program → Type 0
Never s = (t : Program) → Steps s t → t.main ≢ returned

exit_or_not : (c : ClientCmd) → (c ≡ exit) ⊎ (c ≢ exit)
exit_or_not c = ground arith

exiting_or_not : (c : ThreadCmd) → (c ≡ exiting) ⊎ (c ≢ exiting)
exiting_or_not c = ground arith

-- What the client's thread can be in, but for doStop: deaf to the command, in a session, or behind one and told.
client_cases :
    (c : Channel.Threads)
    → ((c.worker ≢ Channel.exited) × ((is_starting c.worker ≡ true) ⊎ (c.cmd ≢ exit)))
      ⊎ ((is_session c.worker ≡ true)
          ⊎ (Heard.Heard c × ((is_behind c.worker ≡ true) ⊎ (c.worker ≡ stopping))))
client_cases c = ground (arith, exit_or_not c.cmd)

snap_cases : (p : Interleaving.Threads) → Lost p ⊎ Exit.Heard p
snap_cases p = ground (arith, exiting_or_not p.cmd)

client_decided :
    (s : Program)
    → Steps start s
    → 9 < place s.main
    → s.client.worker ≢ stopping
    → (Heard.Heard s.client × (is_behind s.client.worker ≡ true)) ⊎ Never s
client_decided s path at outside =
    let inv = program-Sound path in
    elim (client_cases s.client) [
      | inl unheard ↦
          let deaf : Deaf s.client = ground (arith, inv.told, unheard) in
          inr (λ t more. quit_hangs path deaf more)
      | inr (inl on) ↦ inr (λ t more. session_hangs path (omega arith) on more)
      | inr (inr heard) ↦ inl (ground (arith, heard))
    ]

snap_decided : (s : Program) → Steps start s → 9 < place s.main → Exit.Heard s.snap ⊎ Never s
snap_decided s path at = elim (snap_cases s.snap) [
  | inl lost ↦ inr (λ t more. late_exit_hangs path (omega arith) (inr lost) more)
  | inr heard ↦ inl heard
]

-- The program ends, as long as no peer sends the server anything.
abbrev pub Ends : Program → Type 0
Ends s = (t : Program) (path : Closings s t) → (steps path ≤ 33) × ((t.main ≡ returned) ⊎ Enabled t)

-- With main at its joins the end is decided: from every reachable state in which it is there, no call of `Open` is
-- under way, the client's thread is not in doStop, the server's thread is at no message, and the player's component does
-- not wait for the player in a session, either every run in which no peer sends the server anything has 33 steps at most,
-- without the turns in which the publisher's thread sleeps on, and goes on until main has returned, since until then a
-- thread of the program has a step of its own; or main never returns, whatever happens.
pub joins_decided :
    (s : Program)
    → Steps start s
    → 9 < place s.main
    → s.client.server ≡ Channel.free
    → s.client.worker ≢ stopping
    → s.server_reads ≡ false
    → Exit.is_listening s.snap.worker ≡ false
    → Ends s ⊎ Never s
joins_decided s path at no_open outside no_message silent =
    elim (client_decided s path at outside) [
      | inr never ↦ inr never
      | inl (client, behind) ↦ elim (snap_decided s path at) [
        | inr never ↦ inr never
        | inl snap ↦
            let told : Told s = record {
              joins = at;
              client = client;
              behind = behind;
              snap = snap;
              silent = silent;
              no_open = no_open;
              no_message = no_message;
            } in
            inl (λ t run. quit_ends path (inr told) run)
      ]
    ]
