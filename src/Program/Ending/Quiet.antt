-- ===== src/Program/Ending/Quiet.antt =====
-- Key q while no session runs: the steps of main up to its joins.
use lightning_cast_endpoint.Base.{
  ℕ, ◌+◌, ◌-◌, ◌<◌, ◌≡◌, ◌≢◌, ◌⊎◌, Bool, true, false, arith, ltb, if◌then◌else◌,
}
use lightning_cast_endpoint.Client.Commands
use lightning_cast_endpoint.Client.Channel
use lightning_cast_endpoint.Client.Channel.{was_closed, was_open, over}
use lightning_cast_endpoint.Client.Channel.Progress.{rank}
use lightning_cast_endpoint.Client.Channel.Heard
use lightning_cast_endpoint.Snapcast.State
use lightning_cast_endpoint.Snapcast.Interleaving
use lightning_cast_endpoint.Snapcast.Interleaving.Close
use lightning_cast_endpoint.Snapcast.Interleaving.Exit
use lightning_cast_endpoint.Publisher.Lifecycle
use lightning_cast_endpoint.Publisher.Lifecycle.{is_publishing}
use lightning_cast_endpoint.Program.{place, Program}
use lightning_cast_endpoint.Program.Ending.{is_behind, is_sleep, Told, thread_rank}

-- The client: main has not yet given the exit command, nothing is asked, and no connection is open; or the command is
-- outstanding or obeyed.
abbrev pub ClientQuiet : Channel.Threads → Type 0
ClientQuiet c =
    (((c.main ≡ Channel.free) ⊎ (c.main ≡ was_closed))
      × (c.cmd ≡ Commands.idle)
      × (c.is_open ≡ false)
      × (c.worker ≢ Channel.exited))
    ⊎ ((c.main ≡ over) × Heard.Heard c)

abbrev pub is_resting : Interleaving.Worker → Bool
is_resting Interleaving.dispatching = true
is_resting Interleaving.waiting = true
is_resting other = false

-- The same of the player's component, by the place of main.
abbrev pub SnapQuiet : ℕ → Interleaving.Threads → Type 0
SnapQuiet n p =
    ((n < 7) × (p.cmd ≡ State.idle) × (is_resting p.worker ≡ true))
    ⊎ ((6 < n) × Exit.Heard p × (Exit.is_listening p.worker ≡ false))

-- Main is at the keys or behind them, before its joins; no session runs, with the phone or with the player, none is
-- asked for, the server's thread is at no message, and the registration of the service is over.
pub record Quiet (s : Program) : Type 0 where
  pub from : 3 < place s.main
  pub before : place s.main < 10
  pub no_open : s.client.server ≡ Channel.free
  pub behind : is_behind s.client.worker ≡ true
  pub client : ClientQuiet s.client
  pub snap : SnapQuiet (place s.main) s.snap
  pub no_message : s.server_reads ≡ false
  pub published : is_publishing s.publisher.thread ≡ false

abbrev pub Leaving : Program → Type 0
Leaving s = Quiet s ⊎ Told s

-- The steps that a thread makes without a command.
abbrev pub idle_rank : Bool → Channel.Worker → ℕ
idle_rank ready Channel.tearing = 2 + (if ready then 2 else 0)
idle_rank ready Channel.dispatching = 1 + (if ready then 2 else 0)
idle_rank ready other = if ready then 2 else 0

abbrev pub snap_idle_rank : Bool → Interleaving.Worker → ℕ
snap_idle_rank ready Interleaving.dispatching = 1 + (if ready then 2 else 0)
snap_idle_rank ready other = if ready then 2 else 0

abbrev pub client_left : Channel.Caller → Bool → Channel.Worker → ℕ
client_left over ready w = rank w
client_left was_closed ready w = 8 + idle_rank ready w
client_left other ready w = 9 + idle_rank ready w

abbrev pub snap_left : ℕ → Bool → Interleaving.Worker → ℕ
snap_left n ready w = if ltb n 7 then 5 + snap_idle_rank ready w else Close.rank w

-- An upper bound of the steps that are left.
abbrev pub quit_distance : Program → ℕ
quit_distance s =
    client_left s.client.main s.client.ready s.client.worker
    + snap_left (place s.main) s.snap.ready s.snap.worker
    + (if s.server_ended then 0 else 1)
    + thread_rank s.publisher.thread
    + (14 - place s.main)

pub publisher_nearer :
    {p q : Lifecycle.Publisher} (m : Lifecycle.Step p q)
    → is_sleep m ≡ false
    → q.main ≡ p.main
    → is_publishing p.thread ≡ false
    → (thread_rank q.thread < thread_rank p.thread) × (is_publishing q.thread ≡ false)
publisher_nearer (Lifecycle.Step.registers a) f e h = ground arith
publisher_nearer (Lifecycle.Step.fails a) f e h = ground arith
publisher_nearer (Lifecycle.Step.registered a) f e h = ground arith
publisher_nearer (Lifecycle.Step.sleeps a b) f e h = ground arith
publisher_nearer (Lifecycle.Step.ends a b) f e h = ground arith
publisher_nearer (Lifecycle.Step.unregister a b) f e h = ground arith
publisher_nearer (Lifecycle.Step.unregister_null a b) f e h = ground arith
publisher_nearer (Lifecycle.Step.unregister_unset a b) f e h = ground arith
publisher_nearer (Lifecycle.Step.asks a) f e h = ground arith
publisher_nearer (Lifecycle.Step.joins a b) f e h = ground arith

pub snap_nearer :
    {p q : Interleaving.Threads} (n : ℕ)
    → Interleaving.Work p q
    → SnapQuiet n p
    → SnapQuiet n q × (snap_left n q.ready q.worker < snap_left n p.ready p.worker)
snap_nearer n (Interleaving.Work.handle_open w c) h = ground arith
snap_nearer n (Interleaving.Work.handle_close w c) h = ground arith
snap_nearer n (Interleaving.Work.handle_none w c) h = ground arith
snap_nearer n (Interleaving.Work.handle_exit w c) h = ground arith
snap_nearer n (Interleaving.Work.wake_up w r) h = ground arith
snap_nearer n (Interleaving.Work.finish_open w) h = ground arith
snap_nearer n (Interleaving.Work.loop_on w c) h = ground arith
snap_nearer n (Interleaving.Work.loop_off w c) h = ground arith
snap_nearer n (Interleaving.Work.select_wake w k) h = ground arith
snap_nearer n (Interleaving.Work.tear_down w) h = ground arith

pub Player-quiet :
    {p q : Interleaving.Threads} (n : ℕ) → Interleaving.Player p q → SnapQuiet n p → ⊥
Player-quiet n (Interleaving.Player.connect_fails w) h = ground arith
Player-quiet n (Interleaving.Player.connect_works w) h = ground arith
Player-quiet n (Interleaving.Player.answers w) h = ground arith
Player-quiet n (Interleaving.Player.breaks w) h = ground arith
Player-quiet n (Interleaving.Player.begins w) h = ground arith
Player-quiet n (Interleaving.Player.cuts w) h = ground arith

abbrev ClientNearer : Channel.Threads → Channel.Threads → Type 0
ClientNearer c d =
    ClientQuiet d
    × (is_behind d.worker ≡ true)
    × (d.server ≡ c.server)
    × (client_left d.main d.ready d.worker < client_left c.main c.ready c.worker)

pub client_nearer :
    {c d : Channel.Threads}
    → Channel.Work c d
    → is_behind c.worker ≡ true
    → ClientQuiet c
    → ClientNearer c d
client_nearer (Channel.Work.handle_open w e) b h = ground arith
client_nearer (Channel.Work.handle_close w e) b h = ground arith
client_nearer (Channel.Work.handle_none w e) b h = ground arith
client_nearer (Channel.Work.handle_exit w e) b h = ground arith
client_nearer (Channel.Work.wake_up w r) b h = ground arith
client_nearer (Channel.Work.announce w) b h = ground arith
client_nearer (Channel.Work.finish_open w) b h = ground arith
client_nearer (Channel.Work.deny w) b h = ground arith
client_nearer (Channel.Work.finish_refused w) b h = ground arith
client_nearer (Channel.Work.loop_on w e) b h = ground arith
client_nearer (Channel.Work.loop_off w e) b h = ground arith
client_nearer (Channel.Work.select_wake w k) b h = ground arith
client_nearer (Channel.Work.withdraw w) b h = ground arith
client_nearer (Channel.Work.tear_down w) b h = ground arith

pub Exiting-nearer :
    {c d : Channel.Threads}
    → Channel.Exiting c d
    → is_behind c.worker ≡ true
    → ClientQuiet c
    → ClientNearer c d
Exiting-nearer (Channel.Exiting.exit_busy f o) b h = ground arith
Exiting-nearer (Channel.Exiting.exit_clear f o) b h = ground arith
Exiting-nearer (Channel.Exiting.exit_closes f) b h = ground arith
Exiting-nearer (Channel.Exiting.exit_closed f r e) b h = ground arith
Exiting-nearer (Channel.Exiting.exit_asks f) b h = ground arith
