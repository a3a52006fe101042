-- ===== src/Program/Held.antt =====
-- A peer of the server that sends a part of a message and no more.
use lightning_cast_endpoint.Base.{◌≡◌, Bool, true, false}
use lightning_cast_endpoint.Program.Sound.{Sound}
use lightning_cast_endpoint.Program.{Program, ThreadStep, Step, run}

-- The server's thread is done with the message: it is whole and handled, or the peer has hung up.
abbrev pub ends_message : {s t : Program} → Step s t → Bool
ends_message (run (ThreadStep.server_read_ends on q f d)) = true
ends_message other = false

-- A run in which that does not happen.
pub data Stalled (s : Program) : Program → Type 0 where
  stalls : Stalled s s
  goes : {t u : Program} → Stalled s t → (m : Step t u) → ends_message m ≡ false → Stalled s u
