-- ===== src/Client/Footprint.antt =====
-- What a message can change.
use lightning_cast_endpoint.Base.{
  ℕ, ◌≡◌, refl, Bool, true, false, List, Option, none, some, arith, ℤ, Run, done, pure, thrown,
  ◌>>◌, >>=-eq-done, ◌⊎◌, if◌then◌else◌,
}
use lightning_cast_endpoint.Json.{JsonCpp}
use lightning_cast_endpoint.Client.Commands.{
  CommCmd, set_version, set_metadata, set_audioformat, set_duration, set_position, set_status,
  set_play, set_pause, set_stop, set_volume, set_mute, set_step_volume, notify_alive, command,
}
use lightning_cast_endpoint.Client.State.{Client, World, SnapPort, on_client}
use lightning_cast_endpoint.Client.Send.{send_alive, process_send, alive_fields}
use lightning_cast_endpoint.Client.Handlers.{
  do_set_lightningcast_version, do_set_metadata, do_set_audio_format, do_set_duration,
  do_set_position, do_set_status, do_set_volume, do_set_mute, do_set_step_volume, keep_metadata,
}
use lightning_cast_endpoint.Client.Dispatch.{
  do_play, do_pause, do_stop, do_set_alive, dispatch, do_parse,
}

-- The commands that the session goes on after.
abbrev pub accepted : Option CommCmd → Bool
accepted (some set_version) = true
accepted (some set_metadata) = true
accepted (some set_audioformat) = true
accepted (some set_duration) = true
accepted (some set_position) = true
accepted (some set_status) = true
accepted (some set_play) = true
accepted (some set_pause) = true
accepted (some set_stop) = true
accepted (some set_volume) = true
accepted (some set_mute) = true
accepted (some set_step_volume) = true
accepted (some notify_alive) = true
accepted other = false

-- The commands that reach the player.
abbrev pub plays : Option CommCmd → Bool
plays (some set_play) = true
plays (some set_pause) = true
plays (some set_stop) = true
plays other = false

-- The commands that are answered with a heartbeat.
abbrev pub beats : Option CommCmd → Bool
beats (some set_metadata) = true
beats (some set_volume) = true
beats (some set_step_volume) = true
beats other = false

abbrev pub is_alive : Option CommCmd → Bool
is_alive (some notify_alive) = true
is_alive other = false

-- The members by which the session and the command channel are run.
pub record SameSession (c d : Client) : Type 0 where
  pub same_cmd : d.cmd ≡ c.cmd
  pub same_ready : d.ready ≡ c.ready
  pub same_ready_sync : d.ready_sync ≡ c.ready_sync
  pub same_is_open : d.is_open ≡ c.is_open
  pub same_server_fd : d.server_fd ≡ c.server_fd
  pub same_server_ip : d.server_ip ≡ c.server_ip
  pub same_wake_fd : d.wake_fd ≡ c.wake_fd

-- The world after a message with this command.
pub record Footprint {S : Type 0} (cmd : Option CommCmd) (w w' : World S) : Type 0 where
  pub session : SameSession w.client w'.client
  pub player : (plays cmd ≡ true) ⊎ (w'.snap ≡ w.snap)
  pub quiet : (beats cmd ≡ true) ⊎ (w'.out ≡ w.out)
  pub heard : w'.alive_time ≡ (if is_alive cmd then w.now else w.alive_time)
  pub clock : w'.now ≡ w.now

module _ {S : Type 0} where
  process_send-client :
      (text : List ℕ) (w w' : World S) (u : Unit {0})
      → process_send text w ≡ done (u, w')
      → (w'.client ≡ w.client) × (w'.snap ≡ w.snap) × (w'.now ≡ w.now) × (w'.incoming ≡ w.incoming)
  unfolding process_send
  process_send-client text w w' u h = ground arith

  on_client-eq-done :
      (m : Run Client (Unit {0})) (w w' : World S) (u : Unit {0})
      → on_client m w ≡ done (u, w')
      → (d : Client) × (m w.client ≡ done (u, d)) × (w' ≡ record w { client = d })
  on_client-eq-done m w w' u h = (w'.client, ground arith, ground arith)

module _ (json : JsonCpp) {S : Type 0} (port : SnapPort S) where
  open json use {Value}

  -- After a heartbeat, a handler of the client's own members.
  beat-Footprint :
      (c : Option CommCmd) (m : Run Client (Unit {0})) (w w' : World S) (b : Bool)
      → beats c ≡ true
      → is_alive c ≡ false
      → ((d d' : Client) (u : Unit {0})
          → m d ≡ done (u, d')
          → SameSession d d' × (d'.alive_time ≡ d.alive_time))
      → (do send_alive json; on_client m; pure true) w ≡ done (b, w')
      → Footprint c w w' × (b ≡ true)
  unfolding send_alive
  beat-Footprint c m w w' b beat other keep h =
      let (u, v, sent, after) = >>=-eq-done (send_alive json) _ w h in
      let (x, y, ran, last) = >>=-eq-done (on_client m) (λ _. pure true) v after in
      let (d, moved, same) = on_client-eq-done m v y x ran in
      let (client, snap, now, _) = process_send-client (json.write alive_fields) w v u sent in
      let (session, alive_kept) = keep v.client d x moved in ground arith

  dispatch-Footprint :
      (c : Option CommCmd) (root : Value) (w w' : World S) (b : Bool)
      → dispatch json port c root w ≡ done (b, w')
      → Footprint c w w' × (b ≡ accepted c)
  unfolding dispatch do_set_lightningcast_version do_set_audio_format do_set_duration
      do_set_position do_set_status do_set_volume do_set_mute do_set_step_volume do_play do_pause
      do_stop do_set_alive do_set_metadata keep_metadata
  dispatch-Footprint none root w w' b h = ground arith
  dispatch-Footprint (some set_version) root w w' b h = ground arith
  dispatch-Footprint (some set_metadata) root w w' b h =
      beat-Footprint (some set_metadata) (do_set_metadata json root) w w' b refl refl
        (λ d d' u e. ground arith) h
  dispatch-Footprint (some set_volume) root w w' b h =
      beat-Footprint (some set_volume) (do_set_volume json root) w w' b refl refl
        (λ d d' u e. ground arith) h
  dispatch-Footprint (some set_step_volume) root w w' b h =
      beat-Footprint (some set_step_volume) (do_set_step_volume json root) w w' b refl refl
        (λ d d' u e. ground arith) h
  dispatch-Footprint (some c) root w w' b h = ground arith

  -- A message that parses and names a command: whenever its handling returns, the session's own
  -- members are untouched, the player's component changes for play, pause and stop only, bytes go
  -- out for metadata and the two volume messages only, the time of the last sign of life moves to
  -- the clock's reading for the alive message and for no other, and the session goes on exactly
  -- after the thirteen commands of `accepted`.
  pub do_parse-Footprint :
      (text : List ℕ) (root : Value) (n : ℤ) (w w' : World S) (b : Bool)
      → json.parse text ≡ some root
      → json.int_at root "Cmd" ≡ some n
      → do_parse json port text w ≡ done (b, w')
      → Footprint (command n) w w' × (b ≡ accepted (command n))
  unfolding do_parse
  do_parse-Footprint text root n w w' b parsed named h =
      dispatch-Footprint (command n) root w w' b (ground arith)

  -- A text that is no JSON ends the session and changes nothing.
  pub do_parse_no_json :
      (text : List ℕ) (w : World S)
      → json.parse text ≡ none
      → do_parse json port text w ≡ done (false, w)
  unfolding do_parse
  do_parse_no_json text w e = ground arith

  -- A value with no usable number under "Cmd" makes the library throw, and the process ends.
  pub do_parse_no_number :
      (text : List ℕ) (root : Value) (w : World S)
      → json.parse text ≡ some root
      → json.int_at root "Cmd" ≡ none
      → do_parse json port text w ≡ thrown
  unfolding do_parse
  do_parse_no_number text root w e f = ground arith
