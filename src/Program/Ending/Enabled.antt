-- ===== src/Program/Ending/Enabled.antt =====
-- Main is never blocked at its joins, and the program ends.
use lightning_cast_endpoint.Base.{
  suc, ℕ, ◌<◌, ◌≤◌, ◌≡◌, refl, ◌⊎◌, inl, inr, true, false, [], arith, Bool-cases,
}
use lightning_cast_endpoint.Client.Channel
use lightning_cast_endpoint.Client.Channel.Progress.{rank, Proceeds}
use lightning_cast_endpoint.Client.Channel.Heard
use lightning_cast_endpoint.Snapcast.Interleaving
use lightning_cast_endpoint.Snapcast.Interleaving.Close
use lightning_cast_endpoint.Snapcast.Interleaving.Exit
use lightning_cast_endpoint.Publisher.Lifecycle
use lightning_cast_endpoint.Publisher.Lifecycle.{Thread, registering, publishing, sleeping, ended}
use lightning_cast_endpoint.Program.Sound.{Sound, Step-Sound}
use lightning_cast_endpoint.Program.{
  Position, joining_publisher, joining_snap, joining_client, joining_server, returned, place,
  Program, ThreadStep, MainStep, run, main_step,
}
use lightning_cast_endpoint.Program.Ending.{
  is_behind, Told, is_left_out, is_outside, Closing, thread, main, thread_rank, distance,
}
use lightning_cast_endpoint.Program.Ending.Nearer.{Told-publisher}

-- A thread of the program has a step that counts: no step of the phone, of the player or of a peer of the server.
abbrev pub Enabled : Program → Type 0
Enabled s =
    (t : Program) × (((m : ThreadStep s t) × (is_left_out m ≡ false) × (is_outside m ≡ false))
      ⊎ MainStep s t)

snap-Enabled : (s : Program) → 1 < place s.main → Exit.Moves s.snap → Enabled s
snap-Enabled s on (t, m) = (_, inl (ThreadStep.snap_works on m, refl, refl))

client-Enabled : (s : Program) → 2 < place s.main → Sound s → Told s → Proceeds s.client → Enabled s
client-Enabled s on inv h (inl (t, m)) =
    let at_rest : s.client_todo ≡ [] = ground (arith, inv.client_handles, h.behind) in
    let no_call : s.by_client ≡ Interleaving.free = ground (arith, inv.client_stands) in
    (_, inl (ThreadStep.client_works on no_call at_rest m, refl, refl))
client-Enabled s on inv h (inr away) = absurd (ground (arith, h.behind))

publisher-Enabled :
    (s : Program) (w : Thread)
    → s.publisher.thread ≡ w
    → s.main ≡ joining_publisher
    → Sound s
    → Told s
    → Enabled s
publisher-Enabled s registering w at inv h =
    (_, inl (ThreadStep.publishes (ground arith) (Lifecycle.Step.registers w) refl, refl, refl))
publisher-Enabled s publishing w at inv h =
    (_, inl (ThreadStep.publishes (ground arith) (Lifecycle.Step.registered w) refl, refl, refl))
publisher-Enabled s sleeping w at inv h = (
  _,
  inl (
    ThreadStep.publishes (ground arith) (Lifecycle.Step.ends w (Told-publisher inv h)) refl,
    refl,
    refl,
  ),
)
publisher-Enabled s ended w at inv h =
    (_, inr (MainStep.joins_publisher at (Lifecycle.Step.joins (inv.publisher_asked at) w) refl))

pub join-Enabled :
    (s : Program) (p : Position) → s.main ≡ p → Sound s → Told s → (s.main ≡ returned) ⊎ Enabled s
join-Enabled s joining_publisher at inv h =
    inr (publisher-Enabled s s.publisher.thread refl at inv h)
join-Enabled s joining_snap at inv h =
    inr (elim (Exit.Heard-Moves inv.for_main.awake h.snap h.silent) [
      | inl over ↦ (_, inr (MainStep.joins_snap at over))
      | inr moves ↦ snap-Enabled s (ground arith) moves
    ])
join-Enabled s joining_client at inv h = inr (elim (Heard.Heard-Proceeds inv.client h.client) [
  | inl over ↦ (_, inr (MainStep.joins_client at over))
  | inr moves ↦ client-Enabled s (ground arith) inv h moves
])
join-Enabled s joining_server at inv h = inr (elim (Bool-cases s.server_ended) [
  | inl over ↦ (_, inr (MainStep.joins_server at over))
  | inr on ↦ (
    _,
    inl (
      ThreadStep.server_ends (ground arith) h.no_message h.no_open (ground arith) on,
      refl,
      refl,
    ),
  )
])
join-Enabled s returned at inv h = inl at
join-Enabled s other at inv h = absurd (ground arith)

-- A run of such steps, and their number.
pub data Closings (s : Program) : Program → Type 0 where
  done : Closings s s
  then_step : {t u : Program} → Closings s t → Closing t u → Closings s u

unfoldable pub steps : {s t : Program} → Closings s t → ℕ
steps done = 0
steps (then_step path m) = suc (steps path)

pub Closing-Sound : {s t : Program} → Closing s t → Sound s → Sound t
Closing-Sound (thread m f) inv = Step-Sound (run m) inv
Closing-Sound (main m) inv = Step-Sound (main_step m) inv

rank_le : (w : Channel.Worker) → is_behind w ≡ true → rank w ≤ 7
rank_le w h = ground arith

snap_rank_le : (w : Interleaving.Worker) → Exit.is_listening w ≡ false → Close.rank w ≤ 3
snap_rank_le w h = ground arith

thread_rank_le : (w : Thread) → thread_rank w ≤ 3
thread_rank_le w = ground arith

pub distance_le : (s : Program) → Told s → distance s ≤ 18
distance_le s h = ground (
  arith,
  rank_le s.client.worker h.behind,
  h.joins,
  snap_rank_le s.snap.worker h.silent,
  thread_rank_le s.publisher.thread,
)
