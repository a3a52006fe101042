-- ===== src/Program/Ending/Quit.antt =====
-- The program ends after key q.
use lightning_cast_endpoint.Base.{
  ℕ, ◌+◌, ◌<◌, ◌≤◌, ◌≡◌, ◌≢◌, refl, ◌⊎◌, inl, inr, Bool, true, false, [], arith,
}
use lightning_cast_endpoint.Client.Channel
use lightning_cast_endpoint.Client.Channel.{free, was_closed, was_open, over}
use lightning_cast_endpoint.Snapcast.Interleaving
use lightning_cast_endpoint.Publisher.Lifecycle
use lightning_cast_endpoint.Publisher.Lifecycle.{Pointer, unset, null, server, is_publishing}
use lightning_cast_endpoint.Program.Standing.{Follows-same, Unsent-same}
use lightning_cast_endpoint.Program.Sound.{Sound, program-Sound}
use lightning_cast_endpoint.Program.{
  Position, typing, exiting_client, exiting_snap, exiting_server, unregistering, asking, returned,
  place, Program, start, ThreadStep, MainStep, Steps,
}
use lightning_cast_endpoint.Program.Ending.{
  is_behind, is_left_out, Told, Closing, thread, main, distance,
}
use lightning_cast_endpoint.Program.Ending.Nearer.{Peer-behind, Closing-Nearer}
use lightning_cast_endpoint.Program.Ending.Enabled.{
  Enabled, Closings, done, then_step, steps, Closing-Sound, join-Enabled, distance_le,
}
use lightning_cast_endpoint.Program.Ending.Quiet.{
  ClientQuiet, Quiet, Leaving, client_left, snap_left, quit_distance, publisher_nearer, snap_nearer,
  Player-quiet, client_nearer, Exiting-nearer,
}

abbrev Nearer : Program → Program → Type 0
Nearer s t = Leaving t × (quit_distance t < quit_distance s)

-- `Exit` finds no session, so that main makes no call of SnapcastComm in it.
quiet_main : (c : Channel.Threads) → ClientQuiet c → c.main ≢ was_open
quiet_main c h = ground arith

ThreadStep-Quit :
    {s t : Program} (m : ThreadStep s t) → is_left_out m ≡ false → Sound s → Quiet s → Nearer s t
ThreadStep-Quit (ThreadStep.publishes on m e) f inv h =
    ground (arith, publisher_nearer m f e h.published)
ThreadStep-Quit {s} (ThreadStep.snap_works on m) f inv h =
    ground (arith, snap_nearer (place s.main) m h.snap)
ThreadStep-Quit {s} (ThreadStep.player_acts on m) f inv h =
    absurd (Player-quiet (place s.main) m h.snap)
ThreadStep-Quit (ThreadStep.client_works on c d m) f inv h =
    ground (arith, client_nearer m h.behind h.client)
ThreadStep-Quit (ThreadStep.phone_acts on c d m b) f inv h = absurd (Peer-behind m h.behind)
ThreadStep-Quit (ThreadStep.client_calls on m k) f inv h =
    absurd (ground (arith, Follows-same k inv.client_handles, h.behind))
ThreadStep-Quit (ThreadStep.client_unsent on c o n k) f inv h =
    absurd (ground (arith, Unsent-same k inv.client_handles, h.behind))
ThreadStep-Quit (ThreadStep.server_begins on r q) f inv h = ground arith
ThreadStep-Quit (ThreadStep.server_opens on r q c d m) f inv h = ground arith
ThreadStep-Quit (ThreadStep.server_calls on m k) f inv h =
    absurd (ground (arith, Follows-same k inv.server_stops, h.no_open))
ThreadStep-Quit (ThreadStep.server_unsent on c o n k) f inv h =
    absurd (ground (arith, Unsent-same k inv.server_stops, h.no_open))
ThreadStep-Quit (ThreadStep.server_read_ends on q r d) f inv h = ground arith
ThreadStep-Quit (ThreadStep.server_ends on q c w r) f inv h = ground arith

unregister_keeps :
    {p q : Lifecycle.Publisher} → Lifecycle.Step p q → q.main ≢ p.main → q.thread ≡ p.thread
unregister_keeps (Lifecycle.Step.registers a) e = ground arith
unregister_keeps (Lifecycle.Step.fails a) e = ground arith
unregister_keeps (Lifecycle.Step.registered a) e = ground arith
unregister_keeps (Lifecycle.Step.sleeps a b) e = ground arith
unregister_keeps (Lifecycle.Step.ends a b) e = ground arith
unregister_keeps (Lifecycle.Step.unregister a b) e = ground arith
unregister_keeps (Lifecycle.Step.unregister_null a b) e = ground arith
unregister_keeps (Lifecycle.Step.unregister_unset a b) e = ground arith
unregister_keeps (Lifecycle.Step.asks a) e = ground arith
unregister_keeps (Lifecycle.Step.joins a b) e = ground arith

MainStep-Quit : {s t : Program} → MainStep s t → Sound s → Quiet s → Nearer s t
MainStep-Quit (MainStep.start_publisher e) inv h = ground arith
MainStep-Quit (MainStep.start_snap e) inv h = ground arith
MainStep-Quit (MainStep.start_client e) inv h = ground arith
MainStep-Quit (MainStep.start_server e) inv h = ground arith
MainStep-Quit (MainStep.quits e) inv h = ground arith
MainStep-Quit (MainStep.client_exits e f d m) inv h =
    ground (arith, Exiting-nearer m h.behind h.client)
MainStep-Quit {s} (MainStep.main_calls e m k) inv h =
    absurd (quiet_main s.client h.client (Follows-same k inv.main_stops))
MainStep-Quit {s} (MainStep.main_unsent e f o n k) inv h =
    absurd (quiet_main s.client h.client (Unsent-same k inv.main_stops))
MainStep-Quit (MainStep.client_told e o) inv h = ground arith
MainStep-Quit (MainStep.snap_exits e) inv h = ground arith
MainStep-Quit (MainStep.server_exits e) inv h = ground arith
MainStep-Quit (MainStep.unregisters e m p) inv h =
    ground (arith, unregister_keeps m, inv.publisher_typing)
MainStep-Quit (MainStep.asks e m p) inv h = ground (arith, unregister_keeps m, inv.publisher_off)
MainStep-Quit (MainStep.joins_publisher e m p) inv h = ground arith
MainStep-Quit (MainStep.joins_snap e x) inv h = ground arith
MainStep-Quit (MainStep.joins_client e x) inv h = ground arith
MainStep-Quit (MainStep.joins_server e x) inv h = ground arith

-- Main is never blocked before its joins.
exit-Enabled :
    (s : Program) (c : Channel.Caller)
    → s.main ≡ exiting_client
    → s.client.main ≡ c
    → Sound s
    → Quiet s
    → Enabled s
exit-Enabled s c at stands inv h =
    let at_rest : s.main_todo ≡ [] = ground (arith, inv.main_stops, quiet_main s.client h.client) in
    let no_call : s.by_main ≡ Interleaving.free = ground (arith, inv.main_stands) in
    go c stands (λ t m. (_, inr (MainStep.client_exits at no_call at_rest m)))
  where
    go :
        (c : Channel.Caller)
        → s.client.main ≡ c
        → ((t : Channel.Threads) → Channel.Exiting s.client t → Enabled s)
        → Enabled s
    go free e exits = exits _ (Channel.Exiting.exit_clear e (ground (arith, h.client)))
    go was_closed e exits = exits _ (Channel.Exiting.exit_asks e)
    go over e exits = (_, inr (MainStep.client_told at e))
    go other e exits = absurd (ground (arith, h.client))

unregister-Enabled :
    (s : Program) (p : Pointer)
    → s.main ≡ unregistering
    → s.publisher.svr ≡ p
    → Sound s
    → Quiet s
    → Enabled s
unregister-Enabled s unset at e inv h = absurd (ground (arith, inv.publisher, h.published))
unregister-Enabled s null at e inv h = (
  _,
  inr (
      MainStep.unregisters at
        (Lifecycle.Step.unregister_null (inv.publisher_typing (ground arith)) e) refl),
)
unregister-Enabled s server at e inv h = (
  _,
  inr (
      MainStep.unregisters at (Lifecycle.Step.unregister (inv.publisher_typing (ground arith)) e)
        refl),
)

Quiet-Enabled : (s : Program) (p : Position) → s.main ≡ p → Sound s → Quiet s → Enabled s
Quiet-Enabled s typing at inv h = (_, inr (MainStep.quits at))
Quiet-Enabled s exiting_client at inv h = exit-Enabled s s.client.main at refl inv h
Quiet-Enabled s exiting_snap at inv h = (_, inr (MainStep.snap_exits at))
Quiet-Enabled s exiting_server at inv h = (_, inr (MainStep.server_exits at))
Quiet-Enabled s unregistering at inv h = unregister-Enabled s s.publisher.svr at refl inv h
Quiet-Enabled s asking at inv h =
    (_, inr (MainStep.asks at (Lifecycle.Step.asks (inv.publisher_off at)) refl))
Quiet-Enabled s other at inv h = absurd (ground (arith, h.from, h.before))

Leaving-Enabled : (s : Program) → Sound s → Leaving s → (s.main ≡ returned) ⊎ Enabled s
Leaving-Enabled s inv (inl quiet) = inr (Quiet-Enabled s s.main refl inv quiet)
Leaving-Enabled s inv (inr told) = join-Enabled s s.main refl inv told

-- At its joins the two bounds are the same.
Told-distance : (s : Program) → Sound s → Told s → quit_distance s ≡ distance s
Told-distance s inv h = ground (arith, inv.told, h.joins)

Closing-Leaving : {s t : Program} → Closing s t → Sound s → Leaving s → Nearer s t
Closing-Leaving (thread m f) inv (inl quiet) = ThreadStep-Quit m f inv quiet
Closing-Leaving (main m) inv (inl quiet) = MainStep-Quit m inv quiet
Closing-Leaving {s} {t} m inv (inr told) =
    let (told', less) = Closing-Nearer m inv told in
    (
      inr told',
      omega (arith, Told-distance s inv told, Told-distance t (Closing-Sound m inv) told'),
    )

run_down :
    {s t : Program} (path : Closings s t)
    → Sound s
    → Leaving s
    → Sound t × Leaving t × (steps path + quit_distance t ≤ quit_distance s)
unfolding steps
run_down done inv h = (inv, h, omega arith)
run_down (then_step path m) inv h =
    let (inv', h', le) = run_down path inv h in
    let (there, less) = Closing-Leaving m inv' h' in (Closing-Sound m inv', there, omega arith)

client_left_le :
    (c : Channel.Threads)
    → is_behind c.worker ≡ true
    → ClientQuiet c
    → client_left c.main c.ready c.worker ≤ 13
client_left_le c b h = ground arith

snap_left_le : (n : ℕ) (ready : Bool) (w : Interleaving.Worker) → snap_left n ready w ≤ 8
snap_left_le n ready w = ground arith

quit_distance_le : (s : Program) → Sound s → Leaving s → quit_distance s ≤ 33
quit_distance_le s inv (inl quiet) = ground (
  arith,
  client_left_le s.client quiet.behind quiet.client,
  snap_left_le (place s.main) s.snap.ready s.snap.worker,
  quiet.published,
  quiet.from,
)
quit_distance_le s inv (inr told) = omega (arith, Told-distance s inv told, distance_le s told)

-- The program ends: from every reachable state in which either main is at the keys or at the calls behind them, no
-- session with a phone or with the player runs or is asked for, the server's thread is at no message, and the
-- registration of the service is over; or main is at its joins, the exit commands of the client and of the player's
-- component are outstanding or obeyed, that component neither opens a connection nor waits for the player in a
-- session, no session with a phone runs, no call of `Open` is under way, and the server's thread is at no message:
-- every run of the threads and of main from key q on in which no peer sends the server anything has 33 steps at most,
-- without the turns in which the publisher's thread sleeps on, and it goes on until main has returned: until then main,
-- with key q, or another thread of the program has a step of its own.
pub quit_ends :
    {s t : Program}
    → Steps start s
    → Leaving s
    → (path : Closings s t) → (steps path ≤ 33) × ((t.main ≡ returned) ⊎ Enabled t)
quit_ends {s} {t} reached h path =
    let sound = program-Sound reached in
    let (inv, there, le) = run_down path sound h in
    (omega (arith, quit_distance_le s sound h), Leaving-Enabled t inv there)
