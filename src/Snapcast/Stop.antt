-- ===== src/Snapcast/Stop.antt =====
-- The stop message: answered, and where no answer comes.
use lightning_cast_endpoint.Base.{
  ℕ, ◌^◌, ◌<◌, ◌≡◌, refl, ◌∙◌, true, false, List, [], ◌∷◌, ◌++◌, some, arith, length, pos, done,
  stuck,
}
use lightning_cast_endpoint.Json.{JsonCpp}
use lightning_cast_endpoint.Wire.Header.{frame}
use lightning_cast_endpoint.Wire.Send.{Accepts, broken, write_loop}
use lightning_cast_endpoint.Wire.Receive.{ReadEvent, rejected, read_frame, stream}
use lightning_cast_endpoint.Snapcast.State.{Snap, player_command}
use lightning_cast_endpoint.Snapcast.Parse.{parse_text, answer, do_read}
use lightning_cast_endpoint.Snapcast.Calls.{
  process_send, wait_for, lock_wait, send_stop, stop_fields,
}
use lightning_cast_endpoint.Snapcast.Answers.{process_send_accepted, do_read-frame, wait_for_turn}

module _ (json : JsonCpp) where
  parse_text_stop :
      (text : List ℕ) (root : json.Value) (s : Snap)
      → json.parse text ≡ some root
      → json.int_at root "Cmd" ≡ some (pos 2)
      → parse_text json text s ≡ done (true, record s { pending = true })
  unfolding answer player_command
  parse_text_stop text root s parsed named = ground arith

  -- `sendStop` on a connected player that takes the message and answers in the first turn: the call
  -- returns true, exactly one frame has gone out, and the flag for the next call is down again.
  pub send_stop_answered :
      (text rest : List ℕ) (root : json.Value) (fd : ℕ) (events : List ReadEvent)
      (later : List (List ReadEvent)) (s : Snap)
      → s.server_fd ≡ some fd
      → s.pending ≡ false
      → s.turns ≡ events ∷ later
      → Accepts (length (frame (json.write (stop_fields json)))) s.writes
      → length text < 2 ^ 31
      → stream (s.incoming ++ events) ≡ frame (frame text) ++ rest
      → json.parse text ≡ some root
      → json.int_at root "Cmd" ≡ some (pos 2)
      → (s' : Snap) × (send_stop json s ≡ done (true, s'))
        × (s'.out ≡ s.out ++ frame (json.write (stop_fields json)))
        × (s'.pending ≡ false)
        × (s'.server_fd ≡ some fd)
        × (stream s'.incoming ≡ rest)
  unfolding send_stop lock_wait
  send_stop_answered text rest root fd events later s open_fd low t takes h e parsed named =
      let message = json.write (stop_fields json) in
      let sent : Snap = record s {
        out = s.out ++ frame message;
        writes = (write_loop [] (frame message) s.writes).writes;
      } in
      let there : Snap = record sent { incoming = s.incoming ++ events } in
      let (left, read, behind) = do_read-frame json text rest there h e in
      let got : Snap = record there { incoming = left; pending = true } in
      let heard : wait_for json (events ∷ later) sent
          ≡ done (tt, record got { pending = false; turns = later }) =
        wait_for_turn json events later sent got low
          (read ∙ parse_text_stop text root (record there { incoming = left }) parsed named) refl in
      (
        record got { pending = false; turns = later },
        ground (arith, process_send_accepted message s fd open_fd takes, heard),
        refl,
        refl,
        open_fd,
        behind,
      )

  -- A player that is lost while `sendStop` waits for its answer: the reading thread closes the socket,
  -- nothing is left to signal, and the call does not return, whatever comes later.
  pub send_stop_lost :
      (fd : ℕ) (events left : List ReadEvent) (later : List (List ReadEvent)) (s : Snap)
      → s.server_fd ≡ some fd
      → s.pending ≡ false
      → s.turns ≡ events ∷ later
      → read_frame (s.incoming ++ events) ≡ rejected left
      → send_stop json s ≡ stuck
  unfolding send_stop lock_wait wait_for do_read process_send
  send_stop_lost fd events left later s open_fd low t lost = ground arith

  -- A request that is cut off by an error of ::write waits for an answer all the same: if none comes, the
  -- call does not return.
  pub send_stop_broken :
      (fd : ℕ) (s : Snap)
      → s.server_fd ≡ some fd
      → s.pending ≡ false
      → s.turns ≡ []
      → (write_loop [] (frame (json.write (stop_fields json))) s.writes).ending ≡ broken
      → send_stop json s ≡ stuck
  unfolding send_stop lock_wait wait_for process_send
  send_stop_broken fd s open_fd low none_left cut = ground arith
