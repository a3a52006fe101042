-- ===== src/Examples/Limits.antt =====
-- The limits of int and of fd_set, at concrete inputs.
use lightning_cast_endpoint.Base.{
  ◌+ℤ◌, add_int, ℕ, Bool, ◌≡◌, ◌↔◌, refl, true, false, List, [], ◌∷◌, some, arith, pos, Run, done,
  undefined,
}
use lightning_cast_endpoint.Client.State.{World}
use lightning_cast_endpoint.Device.Keys.{action, turn, key}
use lightning_cast_endpoint.Device.Overflow.{Overflows, turn_undefined}
use lightning_cast_endpoint.Server.Loop.{Loop, enter_loop, handle}
use lightning_cast_endpoint.Server.Loop as ServerLoop
use lightning_cast_endpoint.Server.State.{Connection}
use lightning_cast_endpoint.Server.Descriptors.{enter_loop-Sound}
use lightning_cast_endpoint.Server.Capacity.{handle_crowded}
use lightning_cast_endpoint.Snapcast.State.{Snap}
use lightning_cast_endpoint.Examples.Data.{plain_json, world, wake}

-- The phone has set the position to 2147483643 seconds.
abbrev far : World Snap
far = record world { client = record world.client { position = pos 2_147_483_643 } }

turn_undefined_example : (turn plain_json (key b'u') far ≡ undefined) ↔ Overflows b'u' far.client
turn_undefined_example =
    turn_undefined plain_json b'u' far (omega arith, omega arith) (omega arith, omega arith)

-- The key u, then.
seeks_too_far : turn plain_json (key b'u') far ≡ undefined
unfolding action add_int ◌+ℤ◌
seeks_too_far = refl

-- The server accepts one connection too many.
abbrev silent : Connection
silent = record { out = []; writes = []; incoming = [] }

abbrev listening : Loop (List ℕ)
listening = enter_loop [] wake 5 (λ j. silent)

abbrev crowd : ServerLoop.Round
crowd = record { works = true; ready = 5 ∷ []; accepts = some (1024, silent); arrives = λ j. [] }

abbrev refuses : List ℕ → Run (List ℕ) Bool
refuses ip c = done (false, c)

one_too_many : handle plain_json refuses (crowd ∷ []) listening ≡ undefined
one_too_many =
    handle_crowded plain_json refuses crowd [] listening 1024 silent
      (enter_loop-Sound [] wake 5 (λ j. silent) refl refl) refl refl refl refl (omega arith)
