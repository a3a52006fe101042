-- ===== src/Client/Reopening.antt =====
-- `Open` in a session, on top of the player's component: a phone takes over while another one plays.
use lightning_cast_endpoint.Base.{
  ℕ, ◌^◌, ◌<◌, ◌≡◌, ◌∙◌, true, false, List, ◌∷◌, ◌++◌, none, some, pos, length, done, arith,
}
use lightning_cast_endpoint.Json.{JsonCpp}
use lightning_cast_endpoint.Wire.Header.{frame}
use lightning_cast_endpoint.Wire.Send.{Accepts}
use lightning_cast_endpoint.Wire.Receive.{ReadEvent, stream}
use lightning_cast_endpoint.Client.State.{World}
use lightning_cast_endpoint.Client.Session.{Attempt}
use lightning_cast_endpoint.Client.Player.{snap_close_closes}
use lightning_cast_endpoint.Client.Calls.{open_call}
use lightning_cast_endpoint.Client.Calls.Opened.{
  reaches, opened, closed_with, StopsTo, open_call_reopens,
}
use lightning_cast_endpoint.Snapcast.State.{Snap}
use lightning_cast_endpoint.Snapcast.Calls.{send_stop, process_send, stop_fields, snap_port}
use lightning_cast_endpoint.Snapcast.Stop.{send_stop_answered}

module _ (json : JsonCpp) (fd : ℕ) where
  -- Without a connection to the player there is nobody to wait for.
  send_stop_closed : (s : Snap) → s.server_fd ≡ none → send_stop json s ≡ done (false, s)
  unfolding send_stop process_send
  send_stop_closed s off = ground arith

  stops_closed :
      (s : Snap)
      → s.server_fd ≡ none
      → (s' : Snap) × StopsTo json (snap_port json fd) s s'
        × (s'.server_fd ≡ none)
        × (s'.out ≡ s.out)
  stops_closed s off =
      let (s', closes, off', out, pending) = snap_close_closes json fd s in
      (s', (false, s, send_stop_closed s off, closes), off', out)

  -- `Open` in a session, from another phone or the same, with a connected player that takes the stop message and
  -- answers it in the first turn, when no earlier answer is pending and nothing comes from the phone meanwhile: the
  -- call returns whether one attempt to connect to the new address has succeeded, the old session is closed, and
  -- although the program stops the player twice, just one stop message has gone to it, and its connection is closed.
  pub open_call_playing :
      (attempts : List ℕ → Attempt) (ip text rest : List ℕ) (root : json.Value) (phone p : ℕ)
      (events : List ReadEvent) (later : List (List ReadEvent)) (w : World Snap)
      → w.is_open ≡ true
      → w.server_fd ≡ some phone
      → w.snap.server_fd ≡ some p
      → w.snap.pending ≡ false
      → w.snap.turns ≡ events ∷ later
      → Accepts (length (frame (json.write (stop_fields json)))) w.snap.writes
      → length text < 2 ^ 31
      → stream (w.snap.incoming ++ events) ≡ frame (frame text) ++ rest
      → json.parse text ≡ some root
      → json.int_at root "Cmd" ≡ some (pos 2)
      → (s' : Snap) × (open_call json (snap_port json fd) attempts ip w
          ≡ done (
            reaches (attempts ip),
            opened json (snap_port json fd) attempts ip (closed_with json (snap_port json fd) s' w),
          ))
        × (s'.out ≡ w.snap.out ++ frame (json.write (stop_fields json)))
        × (s'.server_fd ≡ none)
  open_call_playing attempts ip text rest root phone p events later w on open_fd snap_fd low t takes
        h e parsed named =
      let (s, stops, out, down, kept, behind) =
        send_stop_answered json text rest root p events later w.snap snap_fd low t takes h e parsed
          named in
      let (s1, closes, off, same, quiet) = snap_close_closes json fd s in
      let (s2, second, off2, same2) = stops_closed s1 off in
      (
        s2,
        open_call_reopens json (snap_port json fd) attempts ip w phone s1 s2 on open_fd
            (true, s, stops, closes) second,
        same2 ∙ (same ∙ out),
        off2,
      )
