-- ===== src/Client/Player.antt =====
-- The client on top of the player's component: doPlay, doStop and doPause as a whole.
use lightning_cast_endpoint.Base.{
  repeat, ℕ, zero, suc, ◌^◌, ◌<◌, ◌≡◌, >>=-of_done, ap, refl, ◌∙◌, Bool, true, false, List, [], ◌∷◌,
  ◌++◌, none, some, arith, length, ℤ, pos, ◌==ℤ◌, done, if◌then◌else◌, Bool-cases, Option-cases,
  inl, inr,
}
use lightning_cast_endpoint.Json.{JsonCpp}
use lightning_cast_endpoint.Wire.Header.{frame}
use lightning_cast_endpoint.Wire.Send.{Accepts}
use lightning_cast_endpoint.Wire.Receive.{ReadEvent, stream}
use lightning_cast_endpoint.Util.FdSet.{fits_set}
use lightning_cast_endpoint.Util.EventFd.{get, read, write}
use lightning_cast_endpoint.Client.State.{World}
use lightning_cast_endpoint.Client.Dispatch.{do_play, do_stop}
use lightning_cast_endpoint.Snapcast.State.{Snap, ThreadCmd}
use lightning_cast_endpoint.Snapcast.Calls.{
  command, finish_cmd, connect_server, watch, start_session, snap_open, snap_close, start_fields,
  stop_fields, snap_port,
}
use lightning_cast_endpoint.Snapcast.Answers.{send_start_answered}
use lightning_cast_endpoint.Snapcast.Stop.{send_stop_answered}

connect_server_retries :
    (k fd : ℕ) (later : List Bool) (s : Snap)
    → connect_server fd (repeat k false ++ true ∷ later) s
      ≡ done (tt, record s { server_fd = some fd; connects = later })
unfolding connect_server
connect_server_retries zero fd later s = refl
connect_server_retries (suc k) fd later s = connect_server_retries k fd later s

module _ (json : JsonCpp) (fd : ℕ) where
  -- A component that `Open` has connected.
  abbrev pub opened : List Bool → Snap → Snap
  opened later s = record s {
    cmd = ThreadCmd.idle;
    ready = false;
    ready_sync = true;
    incoming = [];
    server_fd = some fd;
    connects = later;
    wake_fd = (read s.wake_fd).1;
  }

  start_session_retries :
      (k : ℕ) (later : List Bool) (s : Snap)
      → s.connects ≡ repeat k false ++ true ∷ later
      → fits_set fd ≡ true
      → fits_set (get s.wake_fd) ≡ true
      → start_session fd s ≡ done (tt, opened later s)
  start_session_retries k later s e room room' =
      let before : Snap = record s { ready = false; incoming = [] } in
      let works =
        ap (λ c. connect_server fd c before) e ∙ connect_server_retries k fd later before in
      let there : Snap = finish_cmd (record before { server_fd = some fd; connects = later }) in
      let watches : watch fd there ≡ done (tt, there) = ground arith in
      >>=-of_done (connect_server fd s.connects) _ before works
      ∙ >>=-of_done (watch fd) _ there watches

  -- `Open` tries until the player is there.
  snap_open_retries :
      (k : ℕ) (later : List Bool) (s : Snap)
      → s.server_fd ≡ none
      → s.connects ≡ repeat k false ++ true ∷ later
      → fits_set fd ≡ true
      → fits_set (get s.wake_fd) ≡ true
      → snap_open json fd s ≡ done (tt, opened later s)
  unfolding snap_open
  snap_open_retries k later s closed e room room' =
      ground (arith, start_session_retries k later (command ThreadCmd.opening s) e room room')

  -- `Close` closes in every state.
  pub snap_close_closes :
      (s : Snap)
      → (s' : Snap) × (snap_close s ≡ done (tt, s'))
        × (s'.server_fd ≡ none)
        × (s'.out ≡ s.out)
        × (s'.pending ≡ s.pending)
  unfolding snap_close
  snap_close_closes s =
      let woken : Snap = record (command ThreadCmd.closing s) {
        ready = false;
        wake_fd = write s.wake_fd;
      } in
      elim (Option-cases s.server_fd) [
        | inl none_open ↦ (finish_cmd woken, ground arith, none_open, refl, refl)
        | inr (p, open_fd) ↦ (
          finish_cmd (record woken { server_fd = none; wake_fd = (read woken.wake_fd).1 }),
          ground arith,
          refl,
          refl,
          refl,
        )
      ]

  -- Stop with a connected player that takes the message and answers it in the first turn, when no
  -- earlier answer is pending: the call returns, just one frame has gone to the player, its
  -- connection is closed, and nothing of the client changes.
  pub do_stop_answered :
      (text rest : List ℕ) (root : json.Value) (p : ℕ) (events : List ReadEvent)
      (later : List (List ReadEvent)) (w : World Snap)
      → w.snap.server_fd ≡ some p
      → w.snap.pending ≡ false
      → w.snap.turns ≡ events ∷ later
      → Accepts (length (frame (json.write (stop_fields json)))) w.snap.writes
      → length text < 2 ^ 31
      → stream (w.snap.incoming ++ events) ≡ frame (frame text) ++ rest
      → json.parse text ≡ some root
      → json.int_at root "Cmd" ≡ some (pos 2)
      → (s' : Snap) × (do_stop (snap_port json fd) w ≡ done (tt, record w { snap = s' }))
        × (s'.out ≡ w.snap.out ++ frame (json.write (stop_fields json)))
        × (s'.server_fd ≡ none)
        × (s'.pending ≡ false)
  unfolding do_stop
  do_stop_answered text rest root p events later w open_fd low t takes h e parsed named =
      let (s, stops, out, down, on, behind) =
        send_stop_answered json text rest root p events later w.snap open_fd low t takes h e parsed
          named in
      let (s', closes, off, kept, quiet) = snap_close_closes s in
      (s', ground arith, kept ∙ out, off, quiet ∙ down)

  -- Play with a player that is not yet connected, that is there after any number of attempts, on a socket with room in an
  -- fd_set, that
  -- takes the message and answers it in the first turn, when no earlier answer is pending: the
  -- call returns, the start message with the phone's address goes out once, and the connection
  -- stays just if the answer's "Result" is 1; nothing of the client changes.
  pub do_play_answered :
      (k : ℕ) (text rest : List ℕ) (root : json.Value) (n : ℤ) (events : List ReadEvent)
      (later : List (List ReadEvent)) (connects : List Bool) (w : World Snap)
      → w.snap.server_fd ≡ none
      → w.snap.connects ≡ repeat k false ++ true ∷ connects
      → fits_set fd ≡ true
      → fits_set (get w.snap.wake_fd) ≡ true
      → w.snap.pending ≡ false
      → w.snap.turns ≡ events ∷ later
      → Accepts (length (frame (json.write (start_fields json w.server_ip)))) w.snap.writes
      → length text < 2 ^ 31
      → stream events ≡ frame (frame text) ++ rest
      → json.parse text ≡ some root
      → json.int_at root "Cmd" ≡ some (pos 1)
      → json.int_at root "Result" ≡ some n
      → (s' : Snap) × (do_play (snap_port json fd) w ≡ done (tt, record w { snap = s' }))
        × (s'.out ≡ w.snap.out ++ frame (json.write (start_fields json w.server_ip)))
        × (s'.server_fd ≡ (if n ==ℤ pos 1 then some fd else none))
        × (s'.pending ≡ false)
  unfolding do_play
  do_play_answered k text rest root n events later connects w closed there room room' low t takes h
        e parsed named result =
      let opens = snap_open_retries k connects w.snap closed there room room' in
      let (s, starts, out, down, on, behind) =
        send_start_answered json w.server_ip text rest w.sample_rate w.format w.channels n root fd
          events later (opened connects w.snap) refl low t takes h e parsed named result in
      elim (Bool-cases (n ==ℤ pos 1)) [
        | inl accepted ↦ (s, ground arith, out, ground arith, down)
        | inr refused ↦
            let (s', closes, off, kept, quiet) = snap_close_closes s in
            (s', ground arith, kept ∙ out, ground arith, quiet ∙ down)
      ]
