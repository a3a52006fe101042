-- ===== src/Program/Ending.antt =====
-- The end of the program: main at its joins when each thread has been told and will see it, which steps count, and
-- how many are left.
pub mod Nearer
pub mod Enabled
pub mod Quiet
pub mod Quit
use lightning_cast_endpoint.Base.{
  ℕ, ◌+◌, ◌-◌, ◌<◌, ◌≤◌, ◌≡◌, refl, ◌⊎◌, inl, inr, Bool, true, false, arith, if◌then◌else◌,
  Bool-cases,
}
use lightning_cast_endpoint.Client.Channel
use lightning_cast_endpoint.Client.Channel.Progress.{rank}
use lightning_cast_endpoint.Client.Channel.Heard
use lightning_cast_endpoint.Snapcast.Interleaving
use lightning_cast_endpoint.Snapcast.Interleaving.Close
use lightning_cast_endpoint.Snapcast.Interleaving.Exit
use lightning_cast_endpoint.Publisher.Lifecycle
use lightning_cast_endpoint.Publisher.Lifecycle.{Thread, registering, publishing, sleeping, ended}
use lightning_cast_endpoint.Program.Sound.{Sound, program-Sound}
use lightning_cast_endpoint.Program.{
  Position, joining_publisher, joining_snap, joining_client, joining_server, returned, place,
  Program, start, ThreadStep, MainStep, Steps,
}

-- The client's thread is outside the loop of a session, and behind the doStop at its end.
abbrev pub is_behind : Channel.Worker → Bool
is_behind Channel.dispatching = true
is_behind Channel.waiting = true
is_behind Channel.tearing = true
is_behind Channel.exited = true
is_behind other = false

-- Main is at its joins, the exit commands have not been overwritten, no session with a phone or with the player runs,
-- no call of `Open` is under way, and the server's thread is at no message.
pub record Told (s : Program) : Type 0 where
  pub joins : 9 < place s.main
  pub client : Heard.Heard s.client
  pub behind : is_behind s.client.worker ≡ true
  pub snap : Exit.Heard s.snap
  pub silent : Exit.is_listening s.snap.worker ≡ false
  pub no_open : s.client.server ≡ Channel.free
  pub no_message : s.server_reads ≡ false

abbrev pub is_sleep : {p q : Lifecycle.Publisher} → Lifecycle.Step p q → Bool
is_sleep (Lifecycle.Step.sleeps a b) = true
is_sleep other = false

-- The server's thread begins a message of a peer, or the publisher's thread sleeps on.
abbrev pub is_left_out : {s t : Program} → ThreadStep s t → Bool
is_left_out (ThreadStep.publishes on m e) = is_sleep m
is_left_out (ThreadStep.server_begins on r q) = true
is_left_out other = false

-- The other steps: no peer sends the server anything, and the turns of the publisher's thread that change nothing do
-- not count.
pub data Closing (s t : Program) : Type 0 where
  thread : (m : ThreadStep s t) → is_left_out m ≡ false → Closing s t
  main : MainStep s t → Closing s t

-- What the phone, the player and the server's peers do.
abbrev pub is_outside : {s t : Program} → ThreadStep s t → Bool
is_outside (ThreadStep.player_acts on m) = true
is_outside (ThreadStep.phone_acts on f d m b) = true
is_outside (ThreadStep.server_begins on r q) = true
is_outside (ThreadStep.server_read_ends on q f d) = true
is_outside other = false

abbrev pub thread_rank : Thread → ℕ
thread_rank registering = 3
thread_rank publishing = 2
thread_rank sleeping = 1
thread_rank ended = 0

-- An upper bound of the steps that are left.
abbrev pub distance : Program → ℕ
distance s =
    rank s.client.worker
    + Close.rank s.snap.worker
    + (if s.server_ended then 0 else 1)
    + thread_rank s.publisher.thread
    + (14 - place s.main)
