-- ===== src/Client/Send.antt =====
-- What the client writes to the phone.
use Prim.Native.String.{String}
use lightning_cast_endpoint.Base.{ℕ, List, [], ◌∷◌, ◌++◌, none, some, ℤ, pos, Run, done, stuck}
use lightning_cast_endpoint.Json.{JsonCpp, Scalar, number}
use lightning_cast_endpoint.Wire.Header.{frame}
use lightning_cast_endpoint.Wire.Send.{Sending, blocked, write_loop}
use lightning_cast_endpoint.Client.Commands.{CommCmd, notify_version, notify_alive, code}
use lightning_cast_endpoint.Client.State.{Version, World}

module _ {S : Type 0} where
  -- After the loop over ::write, an error is as good as success; a loop that waits has not returned.
  abbrev pub after_write : Sending → Run (World S) (Unit {0})
  after_write sending w = elim sending.ending [
    | blocked ↦ stuck
    | _ ↦ done (tt, record w { out = w.out ++ sending.out; writes = sending.writes })
  ]

  -- Under `server_mutex`.
  unfoldable pub process_send : List ℕ → Run (World S) (Unit {0})
  process_send text w = elim w.server_fd [
    | none ↦ done (tt, w)
    | some fd ↦ after_write (write_loop [] (frame text) w.writes) w
  ]

-- The members of the value that `sendRemoteCommand` writes.
unfoldable pub remote_fields : Version → CommCmd → ℤ → List (String × Scalar)
remote_fields version notify_version value =
    ("Cmd", number (pos (code notify_version)))
    ∷ ("Major", number version.major)
    ∷ ("Minor", number version.minor)
    ∷ ("Patch", number version.patch)
    ∷ []
remote_fields version cmd value = ("Cmd", number (pos (code cmd))) ∷ ("Value", number value) ∷ []

abbrev pub alive_fields : List (String × Scalar)
alive_fields = ("Cmd", number (pos (code notify_alive))) ∷ []

module _ (json : JsonCpp) {S : Type 0} where
  open json use {write}

  unfoldable pub send_remote_command : CommCmd → ℤ → Run (World S) (Unit {0})
  send_remote_command cmd value w = process_send (write (remote_fields w.version cmd value)) w

  unfoldable pub send_alive : Run (World S) (Unit {0})
  send_alive w = process_send (write alive_fields) w
