-- ===== src/Program.antt =====
-- main of LightningCastDeviceSample.cpp with the threads that it starts, all interleaved: each critical section
-- of each class is one step. The calls of SnapcastComm come from three threads: the client's, which handles the
-- phone's messages, the server's in `Open`, and main's in `Exit`.
pub mod Stays
pub mod Moves
pub mod Standing
pub mod Sound
pub mod Hangs
pub mod Stranded
pub mod Late
pub mod Merged
pub mod Unanswered
pub mod Held
pub mod Ending
pub mod Decided
pub use lightning_cast_endpoint.Device.Place.{
  Position, starting_publisher, starting_snap, starting_client, starting_server, typing,
  exiting_client, exiting_snap, exiting_server, unregistering, asking, joining_publisher,
  joining_snap, joining_client, joining_server, returned, place,
}
use lightning_cast_endpoint.Base.{ℕ, ◌<◌, ◌≡◌, ◌≢◌, Bool, true, false, List, []}
use lightning_cast_endpoint.Client.Channel
use lightning_cast_endpoint.Client.Channel.{over}
use lightning_cast_endpoint.Client.Requests.{Request, Follows, Unsent, Brings, halts_at, halts_in}
use lightning_cast_endpoint.Snapcast.State.{exiting}
use lightning_cast_endpoint.Snapcast.Interleaving
use lightning_cast_endpoint.Snapcast.Interleaving.{Caller}
use lightning_cast_endpoint.Publisher.Lifecycle

-- `by_client`, `by_server` and `by_main` say where each of the threads stands in a call of SnapcastComm, and
-- `client_todo`, `server_todo` and `main_todo` have the calls of doPlay, doPause or doStop that have not
-- returned; the field `caller` of `snap` is that of the thread that called last. `server_woken` says that the counter of
-- the server's `wake_fd` is not zero, `server_ended` that its `handle` has returned,
-- and `server_reads` that its thread is at a message of a peer: `doRead` turns until all bytes are there, which need
-- not come, and parses it then, or returns when the peer hangs up.
pub record Program : Type 0 where
  pub client : Channel.Threads
  pub snap : Interleaving.Threads
  pub by_client : Caller
  pub by_server : Caller
  pub by_main : Caller
  pub client_todo : List Request
  pub server_todo : List Request
  pub main_todo : List Request
  pub server_woken : Bool
  pub server_ended : Bool
  pub server_reads : Bool
  pub publisher : Lifecycle.Publisher
  pub main : Position

-- The four objects are constructed, and no thread is started.
abbrev pub start : Program
start = record {
  client = Channel.init;
  snap = Interleaving.init;
  by_client = Caller.free;
  by_server = Caller.free;
  by_main = Caller.free;
  client_todo = [];
  server_todo = [];
  main_todo = [];
  server_woken = false;
  server_ended = false;
  server_reads = false;
  publisher = Lifecycle.new;
  main = starting_publisher;
}

-- The component as a thread sees it that stands at `c` in a call.
abbrev pub seen_from : Caller → Interleaving.Threads → Interleaving.Threads
seen_from c s = record s { caller = c }

-- The steps of the four threads, of the phone and of the player; a thread runs when main has started it.
pub data ThreadStep (s : Program) : Program → Type 0 where
  publishes :
      {p : Lifecycle.Publisher}
      → 0 < place s.main
      → Lifecycle.Step s.publisher p
      → p.main ≡ s.publisher.main
      → ThreadStep s (record s { publisher = p })
  snap_works :
      {t : Interleaving.Threads}
      → 1 < place s.main
      → Interleaving.Work s.snap t
      → ThreadStep s (record s { snap = t })
  player_acts :
      {t : Interleaving.Threads}
      → 1 < place s.main
      → Interleaving.Player s.snap t
      → ThreadStep s (record s { snap = t })
  client_works :
      {t : Channel.Threads}
      → 2 < place s.main
      → s.by_client ≡ Caller.free
      → s.client_todo ≡ []
      → Channel.Work s.client t
      → ThreadStep s (record s { client = t; client_todo = halts_at t.worker })
  phone_acts :
      {t : Channel.Threads} {todo : List Request}
      → 2 < place s.main
      → s.by_client ≡ Caller.free
      → s.client_todo ≡ []
      → Channel.Peer s.client t
      → Brings s.client t todo
      → ThreadStep s (record s { client = t; client_todo = todo })
  client_calls :
      {t : Interleaving.Threads} {rest : List Request}
      → 2 < place s.main
      → Interleaving.Calling (seen_from s.by_client s.snap) t
      → Follows s.by_client s.client_todo t.caller rest
      → ThreadStep s (record s { snap = t; by_client = t.caller; client_todo = rest })
  client_unsent :
      {rest : List Request}
      → 2 < place s.main
      → s.by_client ≡ Caller.free
      → s.snap.fd_open ≡ false
      → s.snap.worker ≢ Interleaving.connecting
      → Unsent s.client_todo rest
      → ThreadStep s (record s { client_todo = rest })
  server_begins :
      3 < place s.main
      → s.server_ended ≡ false
      → s.server_reads ≡ false
      → ThreadStep s (record s { server_reads = true })
  server_opens :
      {t : Channel.Threads}
      → 3 < place s.main
      → s.server_ended ≡ false
      → s.server_reads ≡ true
      → s.by_server ≡ Caller.free
      → s.server_todo ≡ []
      → Channel.Opening s.client t
      → ThreadStep s (record s { client = t; server_todo = halts_in t.server })
  server_calls :
      {t : Interleaving.Threads} {rest : List Request}
      → 3 < place s.main
      → Interleaving.Calling (seen_from s.by_server s.snap) t
      → Follows s.by_server s.server_todo t.caller rest
      → ThreadStep s (record s { snap = t; by_server = t.caller; server_todo = rest })
  server_unsent :
      {rest : List Request}
      → 3 < place s.main
      → s.by_server ≡ Caller.free
      → s.snap.fd_open ≡ false
      → s.snap.worker ≢ Interleaving.connecting
      → Unsent s.server_todo rest
      → ThreadStep s (record s { server_todo = rest })
  server_read_ends :
      3 < place s.main
      → s.server_reads ≡ true
      → s.client.server ≡ Channel.free
      → s.server_todo ≡ []
      → ThreadStep s (record s { server_reads = false })
  server_ends :
      3 < place s.main
      → s.server_reads ≡ false
      → s.client.server ≡ Channel.free
      → s.server_woken ≡ true
      → s.server_ended ≡ false
      → ThreadStep s (record s { server_woken = false; server_ended = true })

-- The steps of main. The keys that it handles at `typing` change none of this state.
pub data MainStep (s : Program) : Program → Type 0 where
  start_publisher : s.main ≡ starting_publisher → MainStep s (record s { main = starting_snap })
  start_snap : s.main ≡ starting_snap → MainStep s (record s { main = starting_client })
  start_client : s.main ≡ starting_client → MainStep s (record s { main = starting_server })
  start_server : s.main ≡ starting_server → MainStep s (record s { main = typing })
  quits : s.main ≡ typing → MainStep s (record s { main = exiting_client })
  client_exits :
      {t : Channel.Threads}
      → s.main ≡ exiting_client
      → s.by_main ≡ Caller.free
      → s.main_todo ≡ []
      → Channel.Exiting s.client t
      → MainStep s (record s { client = t; main_todo = halts_in t.main })
  main_calls :
      {t : Interleaving.Threads} {rest : List Request}
      → s.main ≡ exiting_client
      → Interleaving.Calling (seen_from s.by_main s.snap) t
      → Follows s.by_main s.main_todo t.caller rest
      → MainStep s (record s { snap = t; by_main = t.caller; main_todo = rest })
  main_unsent :
      {rest : List Request}
      → s.main ≡ exiting_client
      → s.by_main ≡ Caller.free
      → s.snap.fd_open ≡ false
      → s.snap.worker ≢ Interleaving.connecting
      → Unsent s.main_todo rest
      → MainStep s (record s { main_todo = rest })
  client_told :
      s.main ≡ exiting_client → s.client.main ≡ over → MainStep s (record s { main = exiting_snap })
  snap_exits :
      s.main ≡ exiting_snap
      → MainStep s (record s { snap = Interleaving.command exiting s.snap; main = exiting_server })
  server_exits :
      s.main ≡ exiting_server → MainStep s (record s { server_woken = true; main = unregistering })
  unregisters :
      {p : Lifecycle.Publisher}
      → s.main ≡ unregistering
      → Lifecycle.Step s.publisher p
      → p.main ≡ Lifecycle.unregistered
      → MainStep s (record s { publisher = p; main = asking })
  asks :
      {p : Lifecycle.Publisher}
      → s.main ≡ asking
      → Lifecycle.Step s.publisher p
      → p.main ≡ Lifecycle.joining
      → MainStep s (record s { publisher = p; main = joining_publisher })
  joins_publisher :
      {p : Lifecycle.Publisher}
      → s.main ≡ joining_publisher
      → Lifecycle.Step s.publisher p
      → p.main ≡ Lifecycle.joined
      → MainStep s (record s { publisher = p; main = joining_snap })
  joins_snap :
      s.main ≡ joining_snap
      → s.snap.worker ≡ Interleaving.exited
      → MainStep s (record s { main = joining_client })
  joins_client :
      s.main ≡ joining_client
      → s.client.worker ≡ Channel.exited
      → MainStep s (record s { main = joining_server })
  joins_server :
      s.main ≡ joining_server → s.server_ended ≡ true → MainStep s (record s { main = returned })

pub data Step (s t : Program) : Type 0 where
  run : ThreadStep s t → Step s t
  main_step : MainStep s t → Step s t

pub data Steps (s : Program) : Program → Type 0 where
  here : Steps s s
  later : {t u : Program} → Steps s t → Step t u → Steps s u
