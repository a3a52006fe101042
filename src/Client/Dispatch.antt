-- ===== src/Client/Dispatch.antt =====
-- doPlay, doPause, doStop, doSetAlive, doParse and doRead.
use lightning_cast_endpoint.Base.{
  ℕ, Bool, true, false, List, Option, none, some, Run, done, stuck, pure, ◌>>=◌, ◌>>◌,
  if◌then◌else◌,
}
use lightning_cast_endpoint.Json.{JsonCpp, int_member}
use lightning_cast_endpoint.Wire.Receive.{payload, rejected, incomplete, read_frame}
use lightning_cast_endpoint.Client.Commands.{
  CommCmd, set_version, set_metadata, set_audioformat, set_duration, set_position, set_status,
  set_play, set_pause, set_stop, set_volume, set_mute, set_step_volume, notify_alive, command,
}
use lightning_cast_endpoint.Client.State.{World, SnapPort, on_client, on_snap}
use lightning_cast_endpoint.Client.Send.{send_alive}
use lightning_cast_endpoint.Client.Handlers.{
  do_set_lightningcast_version, do_set_metadata, do_set_audio_format, do_set_duration,
  do_set_position, do_set_status, do_set_volume, do_set_mute, do_set_step_volume,
}

module _ {S : Type 0} (port : SnapPort S) where
  open port use {snap_open, snap_close, send_start, send_pause, send_stop}

  unfoldable pub do_play : Run (World S) (Unit {0})
  do_play w =
      (do
        on_snap snap_open
        started ← on_snap (send_start w.server_ip w.sample_rate w.format w.channels)
        if started then pure tt else on_snap snap_close)
        w

  unfoldable pub do_pause : Run (World S) (Unit {0})
  do_pause = do sent ← on_snap send_pause; on_snap snap_close

  unfoldable pub do_stop : Run (World S) (Unit {0})
  do_stop = do sent ← on_snap send_stop; on_snap snap_close

-- clock_gettime into `aliveTime`
unfoldable pub do_set_alive : {S : Type 0} → Run (World S) (Unit {0})
do_set_alive w = done (tt, record w { client = record w.client { alive_time = w.now } })

module _ (json : JsonCpp) {S : Type 0} (port : SnapPort S) where
  open json use {Value, parse}

  -- The `switch` of `doParse`: false ends the session.
  unfoldable pub dispatch : Option CommCmd → Value → Run (World S) Bool
  dispatch (some set_version) root = do
    on_client (do_set_lightningcast_version json root)
    pure true
  dispatch (some set_metadata) root = do
    send_alive json
    on_client (do_set_metadata json root)
    pure true
  dispatch (some set_audioformat) root = do on_client (do_set_audio_format json root); pure true
  dispatch (some set_duration) root = do on_client (do_set_duration json root); pure true
  dispatch (some set_position) root = do on_client (do_set_position json root); pure true
  dispatch (some set_status) root = do on_client (do_set_status json root); pure true
  dispatch (some set_play) root = do do_play port; pure true
  dispatch (some set_pause) root = do do_pause port; pure true
  dispatch (some set_stop) root = do do_stop port; pure true
  dispatch (some set_volume) root = do
    send_alive json
    on_client (do_set_volume json root)
    pure true
  dispatch (some set_mute) root = do on_client (do_set_mute json root); pure true
  dispatch (some set_step_volume) root = do
    send_alive json
    on_client (do_set_step_volume json root)
    pure true
  dispatch (some notify_alive) root = do do_set_alive; pure true
  dispatch other root = pure false

  unfoldable pub do_parse : List ℕ → Run (World S) Bool
  do_parse text w = elim (parse text) [
    | none ↦ done (false, w)
    | some root ↦ (do cmd ← int_member json root "Cmd"; dispatch (command cmd) root) w
  ]

  unfoldable pub do_read : Run (World S) Bool
  do_read w = elim (read_frame w.incoming) [
    | payload text rest ↦ do_parse text (record w { incoming = rest })
    | rejected rest ↦ done (false, record w { incoming = rest })
    | incomplete ↦ stuck
  ]
