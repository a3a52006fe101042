-- ===== src/Snapcast/Calls.antt =====
-- The methods of class SnapcastComm that another thread calls, each up to its return, for a player that neither sends
-- nor hangs up between the calls: then the class's own thread waits in select there, and it runs, turn by turn,
-- while a call waits. A player that does so at any moment is in Snapcast/Interleaving.
use lightning_cast_endpoint.Base.{
  ℕ, Bool, true, false, List, [], ◌∷◌, ◌++◌, none, some, ℤ, pos, Run, Outcome, done, thrown,
  undefined, stuck, pure, ◌&&◌, ◌>>=◌, ◌>>◌, if◌then◌else◌,
}
use Prim.Native.String.{String}
use lightning_cast_endpoint.Json.{JsonCpp, Scalar, number, text}
use lightning_cast_endpoint.Util.EventFd.{get, read, write}
use lightning_cast_endpoint.Util.FdSet.{fits_set}
use lightning_cast_endpoint.Wire.Header.{frame}
use lightning_cast_endpoint.Wire.Send.{Sending, blocked, write_loop}
use lightning_cast_endpoint.Wire.Receive.{ReadEvent}
use lightning_cast_endpoint.Client.State.{SnapPort}
use lightning_cast_endpoint.Snapcast.State.{
  Snap, ThreadCmd, idle, opening, closing, start, stop, player_code,
}
use lightning_cast_endpoint.Snapcast.Parse.{do_read}

-- After the loop over ::write: true, also where the loop was left on an error.
abbrev after_write : Sending → Run Snap Bool
after_write sending s = elim sending.ending [
  | blocked ↦ stuck
  | _ ↦ done (true, record s { out = s.out ++ sending.out; writes = sending.writes })
]

-- Under `server_mutex`.
unfoldable pub process_send : List ℕ → Run Snap Bool
process_send message s = elim s.server_fd [
  | none ↦ done (false, s)
  | some fd ↦ after_write (write_loop [] (frame message) s.writes) s
]

-- `finishCmd`, and `LockfinishCmd`, which takes the lock first.
abbrev pub finish_cmd : Snap → Snap
finish_cmd s = record s { cmd = idle; ready_sync = true }

-- What `Open` and `Close` write under the lock.
abbrev pub command : ThreadCmd → Snap → Snap
command c s = record s { cmd = c; ready = true; ready_sync = false }

-- The close at the end of `do_open`.
abbrev pub close_server : Snap → Snap
close_server s = record s { server_fd = none }

-- `connectServer` tries again every second until it succeeds; the socket has number `fd`.
unfoldable pub connect_server : ℕ → List Bool → Run Snap (Unit {0})
connect_server fd [] s = stuck
connect_server fd (true ∷ later) s = done (tt, record s { server_fd = some fd; connects = later })
connect_server fd (false ∷ later) s = connect_server fd later s

-- FD_SET of the two descriptors.
abbrev pub watch : ℕ → Run Snap (Unit {0})
watch fd s = if fits_set fd && fits_set (get s.wake_fd) then done (tt, s) else undefined

-- `do_open` up to its wait in select, run by the class's own thread on its way out of its wait for a
-- command. A counter that an earlier `Close` left in `wake_fd` wakes the first select and is read.
abbrev pub start_session : ℕ → Run Snap (Unit {0})
start_session fd s =
    (do
      connect_server fd s.connects
      (λ t. done (tt, finish_cmd t))
      watch fd
      (λ t. done (tt, record t { wake_fd = (read t.wake_fd).1 })))
      (record s { ready = false; incoming = [] })

module _ (json : JsonCpp) where
  -- `Open` while a session runs: nothing wakes the thread's select but the player. After a turn in
  -- which a message is read the thread sees the command, closes the socket and connects anew.
  unfoldable pub reopen : ℕ → List (List ReadEvent) → Run Snap (Unit {0})
  reopen fd [] s = stuck
  reopen fd (events ∷ turns) s =
      let more : Run Snap (Unit {0}) = reopen fd turns in
      let there : Snap = record s { incoming = s.incoming ++ events; turns = turns } in
      elim (do_read json there) [
        | done (ok, t) ↦ start_session fd (close_server t)
        | thrown ↦ thrown
        | undefined ↦ undefined
        | stuck ↦ more there
      ]

  -- `Open`; the new socket has number `fd`.
  unfoldable pub snap_open : ℕ → Run Snap (Unit {0})
  snap_open fd s = elim s.server_fd [
    | none ↦ start_session fd (command opening s)
    | some old ↦ reopen fd s.turns (command opening s)
  ]

  -- `LockWait`: the reading thread takes its turns until one signals. After a turn that fails it
  -- closes the socket, and no later turn signals.
  unfoldable pub wait_for : List (List ReadEvent) → Run Snap (Unit {0})
  wait_for [] s = if s.pending then done (tt, record s { pending = false; turns = [] }) else stuck
  wait_for (events ∷ turns) s =
      let more : Run Snap (Unit {0}) = wait_for turns in
      let there : Snap = record s { incoming = s.incoming ++ events } in
      if s.pending
      then done (tt, record s { pending = false; turns = events ∷ turns })
      else (elim (do_read json there) as (λ _. Outcome (Unit {0} × Snap)) [
        | done (true, t) ↦ more t
        | done (false, t) ↦ stuck
        | thrown ↦ thrown
        | undefined ↦ undefined
        | stuck ↦ more there
      ])

  unfoldable pub lock_wait : Run Snap (Unit {0})
  lock_wait s = wait_for s.turns s

  abbrev pub start_fields : List ℕ → List (String × Scalar)
  start_fields address =
      ("Cmd", number (pos (player_code start))) ∷ ("SnapServerIPAddr", text address) ∷ []

  -- The audio format is taken and not sent.
  unfoldable pub send_start : List ℕ → ℤ → ℤ → ℤ → Run Snap Bool
  send_start address sample_rate format channels = do
    (λ s. done (tt, record s { send_start_result = false }))
    sent ← process_send (json.write (start_fields address))
    if sent then (do lock_wait; (λ s. done (s.send_start_result, s))) else pure false

  abbrev pub stop_fields : List (String × Scalar)
  stop_fields = ("Cmd", number (pos (player_code stop))) ∷ []

  unfoldable pub send_stop : Run Snap Bool
  send_stop = do
    sent ← process_send (json.write stop_fields)
    if sent then (do lock_wait; pure true) else pure false

  -- The same message as for stop.
  unfoldable pub send_pause : Run Snap Bool
  send_pause = do
    sent ← process_send (json.write stop_fields)
    if sent then (do lock_wait; pure true) else pure false

-- `Close`: a running session is woken, reads `wake_fd`, closes the socket, and the command is finished.
unfoldable pub snap_close : Run Snap (Unit {0})
snap_close s =
    let woken : Snap = record (command closing s) { wake_fd = write s.wake_fd } in
    elim s.server_fd [
      | none ↦ done (tt, finish_cmd (record woken { ready = false }))
      | some fd ↦ done (
        tt,
        finish_cmd
            (record (close_server woken) { ready = false; wake_fd = (read woken.wake_fd).1 }),
      )
    ]

-- What the client calls, for such a player; each new socket has number `fd`.
abbrev pub snap_port : JsonCpp → ℕ → SnapPort Snap
snap_port json fd = record {
  snap_open = snap_open json fd;
  snap_close = snap_close;
  send_start = send_start json;
  send_pause = send_pause json;
  send_stop = send_stop json;
}
