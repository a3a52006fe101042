-- ===== src/Program/Sound.antt =====
-- What holds of all threads together, and when main returns.
use lightning_cast_endpoint.Base.{
  ◌⊎◌, inl, ◌<◌, ◌≡◌, refl, true, false, [], arith, if◌then◌else◌, Bool-cases,
}
use lightning_cast_endpoint.Client.Channel
use lightning_cast_endpoint.Client.Channel.{Worker, testing, stopping, exited, was_open, over}
use lightning_cast_endpoint.Client.Channel.Safety
use lightning_cast_endpoint.Snapcast.Interleaving
use lightning_cast_endpoint.Snapcast.Interleaving.{Caller, free}
use lightning_cast_endpoint.Snapcast.Interleaving.Safety.{Inv, Inv-init, Step-Inv}
use lightning_cast_endpoint.Publisher.Lifecycle
use lightning_cast_endpoint.Program.Stays.{
  Work-seen_from, Player-seen_from, Calling-seen_from, snap-Work_stays, Player-stays, Calling-stays,
  client-Work-Stays, phone-Stays, Opening-Stays, Exiting-Stays,
}
use lightning_cast_endpoint.Program.{
  asking, joining_publisher, returned, place, Program, start, seen_from, ThreadStep, MainStep, Step,
  run, main_step, Steps, here, later,
}
use lightning_cast_endpoint.Program.Standing.{
  Standing, Follows-Standing, handles, halts_at-handles, halts_in-was_open, phone-handles,
  Follows-same, Unsent-same,
}

-- What holds of the program between any two steps.
pub record Sound (s : Program) : Type 0 where
  pub client : Safety.Inv s.client
  pub for_client : Inv (seen_from s.by_client s.snap)
  pub for_server : Inv (seen_from s.by_server s.snap)
  pub for_main : Inv (seen_from s.by_main s.snap)
  pub client_stands : Standing s.by_client s.client_todo
  pub server_stands : Standing s.by_server s.server_todo
  pub main_stands : Standing s.by_main s.main_todo
  pub client_handles : (s.client_todo ≡ []) ⊎ (handles s.client.worker ≡ true)
  pub server_stops : (s.server_todo ≡ []) ⊎ (s.client.server ≡ was_open)
  pub main_stops : (s.main_todo ≡ []) ⊎ (s.client.main ≡ was_open)
  pub publisher : Lifecycle.Inv s.publisher
  pub told : 5 < place s.main → s.client.main ≡ over
  pub publisher_typing : place s.main < 9 → s.publisher.main ≡ Lifecycle.typing
  pub publisher_off : s.main ≡ asking → s.publisher.main ≡ Lifecycle.unregistered
  pub publisher_asked : s.main ≡ joining_publisher → s.publisher.main ≡ Lifecycle.joining
  pub reading : s.server_reads ≡ true → s.server_ended ≡ false
  pub server_rests : s.server_ended ≡ true → s.client.server ≡ Channel.free
  pub server_told : 7 < place s.main → (s.server_woken ≡ true) ⊎ (s.server_ended ≡ true)
  pub publisher_joined : 10 < place s.main → s.publisher.main ≡ Lifecycle.joined
  pub snap_joined : 11 < place s.main → s.snap.worker ≡ Interleaving.exited
  pub client_joined : 12 < place s.main → s.client.worker ≡ exited
  pub server_joined : 13 < place s.main → s.server_ended ≡ true

start-Sound : Sound start
start-Sound = record {
  client = Safety.Inv-init;
  for_client = Inv-init;
  for_server = Inv-init;
  for_main = Inv-init;
  client_stands = inl refl;
  server_stands = inl refl;
  main_stands = inl refl;
  client_handles = inl refl;
  server_stops = inl refl;
  main_stops = inl refl;
  publisher = Lifecycle.Inv-new;
  told = λ h. absurd (omega arith);
  publisher_typing = λ h. refl;
  publisher_off = λ e. absurd (ground arith);
  publisher_asked = λ e. absurd (ground arith);
  reading = λ e. refl;
  server_rests = λ h. refl;
  server_told = λ h. absurd (omega arith);
  publisher_joined = λ h. absurd (omega arith);
  snap_joined = λ h. absurd (omega arith);
  client_joined = λ h. absurd (omega arith);
  server_joined = λ h. absurd (omega arith);
}

ThreadStep-Sound : {s t : Program} → ThreadStep s t → Sound s → Sound t
ThreadStep-Sound (ThreadStep.publishes on m e) inv =
    ground (arith, Lifecycle.Step-Inv m inv.publisher)
ThreadStep-Sound (ThreadStep.snap_works on m) inv = ground (
  arith,
  Work-seen_from _ m inv.for_client,
  Work-seen_from _ m inv.for_server,
  Work-seen_from _ m inv.for_main,
  snap-Work_stays m,
)
ThreadStep-Sound (ThreadStep.player_acts on m) inv = ground (
  arith,
  Player-seen_from _ m inv.for_client,
  Player-seen_from _ m inv.for_server,
  Player-seen_from _ m inv.for_main,
  Player-stays m,
)
ThreadStep-Sound {s} (ThreadStep.client_works {t} on f d m) inv = ground (
  arith,
  Safety.Step-Inv (Channel.work m) inv.client,
  client-Work-Stays m,
  halts_at-handles t.worker,
)
ThreadStep-Sound (ThreadStep.phone_acts on f d m b) inv =
    ground (arith, Safety.Step-Inv (Channel.peer m) inv.client, phone-Stays m, phone-handles b)
ThreadStep-Sound {s} (ThreadStep.client_calls on m k) inv = ground (
  Follows-Standing k,
  Follows-same k inv.client_handles,
  arith,
  Step-Inv (Interleaving.calling m) inv.for_client,
  Calling-seen_from s.snap _ _ m inv.for_server,
  Calling-seen_from s.snap _ _ m inv.for_main,
  Calling-stays m,
)
ThreadStep-Sound (ThreadStep.client_unsent on f o n k) inv =
    ground (arith, Unsent-same k inv.client_handles)
ThreadStep-Sound (ThreadStep.server_begins on r q) inv = ground arith
ThreadStep-Sound (ThreadStep.server_opens {t} on r q f d m) inv = ground (
  arith,
  Safety.Step-Inv (Channel.opening m) inv.client,
  Opening-Stays m,
  halts_in-was_open t.server,
)
ThreadStep-Sound {s} (ThreadStep.server_calls on m k) inv = ground (
  Follows-Standing k,
  Follows-same k inv.server_stops,
  arith,
  Step-Inv (Interleaving.calling m) inv.for_server,
  Calling-seen_from s.snap _ _ m inv.for_client,
  Calling-seen_from s.snap _ _ m inv.for_main,
  Calling-stays m,
)
ThreadStep-Sound (ThreadStep.server_unsent on f o n k) inv =
    ground (arith, Unsent-same k inv.server_stops)
ThreadStep-Sound (ThreadStep.server_read_ends on q f d) inv = ground arith
ThreadStep-Sound (ThreadStep.server_ends on q f w r) inv = ground arith

MainStep-Sound : {s t : Program} → MainStep s t → Sound s → Sound t
MainStep-Sound (MainStep.start_publisher e) inv = ground arith
MainStep-Sound (MainStep.start_snap e) inv = ground arith
MainStep-Sound (MainStep.start_client e) inv = ground arith
MainStep-Sound (MainStep.start_server e) inv = ground arith
MainStep-Sound (MainStep.quits e) inv = ground arith
MainStep-Sound (MainStep.client_exits {t} e f d m) inv = ground (
  arith,
  Safety.Step-Inv (Channel.exiting m) inv.client,
  Exiting-Stays m,
  halts_in-was_open t.main,
)
MainStep-Sound {s} (MainStep.main_calls e m k) inv = ground (
  Follows-Standing k,
  Follows-same k inv.main_stops,
  arith,
  Step-Inv (Interleaving.calling m) inv.for_main,
  Calling-seen_from s.snap _ _ m inv.for_client,
  Calling-seen_from s.snap _ _ m inv.for_server,
  Calling-stays m,
)
MainStep-Sound (MainStep.main_unsent e f o n k) inv = ground (arith, Unsent-same k inv.main_stops)
MainStep-Sound (MainStep.client_told e o) inv = ground arith
MainStep-Sound (MainStep.snap_exits e) inv = ground (
  arith,
  Step-Inv (Interleaving.call_exit refl) inv.for_client,
  Step-Inv (Interleaving.call_exit refl) inv.for_server,
  Step-Inv (Interleaving.call_exit refl) inv.for_main,
)
MainStep-Sound (MainStep.server_exits e) inv = ground arith
MainStep-Sound (MainStep.unregisters e m p) inv = ground (arith, Lifecycle.Step-Inv m inv.publisher)
MainStep-Sound (MainStep.asks e m p) inv = ground (arith, Lifecycle.Step-Inv m inv.publisher)
MainStep-Sound (MainStep.joins_publisher e m p) inv =
    ground (arith, Lifecycle.Step-Inv m inv.publisher)
MainStep-Sound (MainStep.joins_snap e x) inv = ground arith
MainStep-Sound (MainStep.joins_client e x) inv = ground arith
MainStep-Sound (MainStep.joins_server e x) inv = ground arith

pub Step-Sound : {s t : Program} → Step s t → Sound s → Sound t
Step-Sound (run m) inv = ThreadStep-Sound m inv
Step-Sound (main_step m) inv = MainStep-Sound m inv

-- Every state that the four threads, main, the phone and the player reach from the start of the program, in
-- any interleaving, and with calls of SnapcastComm from three threads at once, is sound: each class keeps its
-- invariant, the player's component for each of its callers, each thread is in the call of SnapcastComm that its
-- handler has come to, if in any, and has such calls left only where its handlers stand, `Exit` of the client has
-- returned when main is behind it, and the threads that main has joined have ended.
pub program-Sound : {s : Program} → Steps start s → Sound s
program-Sound here = start-Sound
program-Sound (later path st) = Step-Sound st (program-Sound path)

-- When main returns, in any interleaving, all four threads have ended, no call of SnapcastComm is under way or left,
-- `is_open` is false, no socket to the phone or to the player is left open, and, unless main unregistered the service
-- before its registration was over, mdnsd_stop has been called once if mdnsd_start gave a server and not at all if it
-- did not. A read of `svr` before it has a value is taken for NULL.
pub returned_ended :
    {s : Program}
    → Steps start s
    → s.main ≡ returned
    → ((s.client.worker ≡ exited)
        × (s.snap.worker ≡ Interleaving.exited)
        × (s.server_ended ≡ true)
        × (s.publisher.thread ≡ Lifecycle.ended))
      × ((s.client_todo ≡ []) × (s.server_todo ≡ []) × (s.main_todo ≡ []))
      × ((s.by_client ≡ free) × (s.by_server ≡ free) × (s.by_main ≡ free))
      × ((s.client.is_open ≡ false) × (s.client.fd_open ≡ false) × (s.snap.fd_open ≡ false))
      × ((s.publisher.early ≡ true) ⊎ (s.publisher.stops ≡ (if s.publisher.starts then 1 else 0)))
returned_ended {s} path e =
    let inv = program-Sound path in
    let pub_inv = inv.publisher in
    let cli_inv = inv.client in
    let snap_inv = inv.for_main in ground (arith, Bool-cases s.publisher.early)
