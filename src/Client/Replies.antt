-- ===== src/Client/Replies.antt =====
-- Messages from the wire: that handling returns, and with what.
use Prim.Native.String.{String}
use lightning_cast_endpoint.Base.{
  ℕ, pure, ◌^◌, ◌<◌, ◌≡◌, refl, sym, true, false, List, [], ◌++◌, append-nil, Option, none, some,
  arith, length, div_trunc, ◌==ℤ◌, ℤ, Run, done, ◌>>◌, if◌then◌else◌,
}
use lightning_cast_endpoint.Json.{JsonCpp}
use lightning_cast_endpoint.Wire.Header.{frame}
use lightning_cast_endpoint.Wire.Send.{Accepts}
use lightning_cast_endpoint.Wire.Receive.{read_frame, stream}
use lightning_cast_endpoint.Wire.RoundTrip.{read_frame-frame, verdict-accept}
use lightning_cast_endpoint.Client.Commands.{
  CommCmd, set_version, set_metadata, set_audioformat, set_duration, set_position, set_status,
  set_play, set_pause, set_stop, set_volume, set_mute, set_step_volume, notify_alive, command,
}
use lightning_cast_endpoint.Client.State.{Client, World, SnapPort, on_client}
use lightning_cast_endpoint.Client.Send.{send_alive, alive_fields}
use lightning_cast_endpoint.Client.Handlers.{
  do_set_lightningcast_version, do_set_metadata, do_set_audio_format, do_set_duration,
  do_set_position, do_set_status, do_set_volume, do_set_mute, do_set_step_volume, localise,
  keep_metadata,
}
use lightning_cast_endpoint.Client.Dispatch.{do_set_alive, dispatch, do_parse, do_read}
use lightning_cast_endpoint.Client.Footprint.{accepted, plays, beats}
use lightning_cast_endpoint.Client.Lifecycle.{sent, process_send_accepted}

module _ (json : JsonCpp) {S : Type 0} (port : SnapPort S) where
  open json use {Value, int_at, string_at}

  abbrev pub GivesInt : Value → String → Type 0
  GivesInt root key = (n : ℤ) × (int_at root key ≡ some n)

  abbrev pub GivesText : Value → String → Type 0
  GivesText root key = (t : List ℕ) × (string_at root key ≡ some t)

  -- What the handler of a command asks for converts: asInt and asString give a value, as they do for a missing member.
  abbrev pub Converts : Option CommCmd → Value → Type 0
  Converts (some set_version) root =
      GivesInt root "Major" × GivesInt root "Minor" × GivesInt root "Patch"
  Converts (some set_metadata) root =
      GivesText root "Title"
      × GivesText root "Album"
      × GivesText root "Artist"
      × GivesText root "CoverUrl"
  Converts (some set_audioformat) root =
      GivesInt root "SampleRate" × GivesInt root "Format" × GivesInt root "Channels"
  Converts (some set_duration) root = GivesInt root "Duration"
  Converts (some set_position) root = GivesInt root "Position"
  Converts (some set_status) root = GivesInt root "PlayStatus"
  Converts (some set_volume) root = GivesInt root "SET_VOLUME"
  Converts (some set_mute) root = GivesInt root "SET_MUTE"
  Converts (some set_step_volume) root = GivesInt root "SET_STEP_VOLUME"
  Converts other root = Unit {0}

  abbrev reply : Option CommCmd → List ℕ
  reply c = if beats c then frame (json.write alive_fields) else []

  Returns : Run Client (Unit {0}) → Type 0
  Returns m = (d : Client) → (d' : Client) × (m d ≡ done (tt, d'))

  handler-Returns :
      (m : Run Client (Unit {0})) (w : World S)
      → Returns m
      → (w' : World S) × ((do on_client m; pure true) w ≡ done (true, w')) × (w'.out ≡ w.out ++ [])
  unfolding Returns
  handler-Returns m w r =
      let (d, e) = r w.client in (record w { client = d }, ground arith, sym (append-nil w.out))

  beat-Returns :
      (m : Run Client (Unit {0})) (w : World S) (fd : ℕ)
      → w.server_fd ≡ some fd
      → Accepts (length (frame (json.write alive_fields))) w.writes
      → Returns m
      → (w' : World S) × ((do send_alive json; on_client m; pure true) w ≡ done (true, w'))
        × (w'.out ≡ w.out ++ frame (json.write alive_fields))
  unfolding Returns send_alive
  beat-Returns m w fd open_fd takes r =
      let v : World S = sent (json.write alive_fields) w in
      let (d, e) = r v.client in
      (
        record v { client = d },
        ground (arith, process_send_accepted (json.write alive_fields) w fd open_fd takes),
        refl,
      )

  module _ (root : Value) where
    version-Returns :
        Converts (some set_version) root → Returns (do_set_lightningcast_version json root)
    unfolding Returns do_set_lightningcast_version
    version-Returns ((a, f), (b, g), (c, h)) d = (d, ground arith)

    metadata-Returns : Converts (some set_metadata) root → Returns (do_set_metadata json root)
    unfolding Returns do_set_metadata
    metadata-Returns ((a, e), (b, f), (c, g), (u, h)) d =
        (keep_metadata a b c (localise d.server_ip u) d, ground arith)

    audio_format-Returns :
        Converts (some set_audioformat) root → Returns (do_set_audio_format json root)
    unfolding Returns do_set_audio_format
    audio_format-Returns ((a, e), (b, f), (c, g)) d =
        (record d { sample_rate = a; format = b; channels = c }, ground arith)

    duration-Returns : Converts (some set_duration) root → Returns (do_set_duration json root)
    unfolding Returns do_set_duration
    duration-Returns (a, e) d = (
      if div_trunc a 1000 ==ℤ d.duration then d else record d { duration = div_trunc a 1000 },
      ground arith,
    )

    position-Returns : Converts (some set_position) root → Returns (do_set_position json root)
    unfolding Returns do_set_position
    position-Returns (a, e) d = (record d { position = a }, ground arith)

    status-Returns : Converts (some set_status) root → Returns (do_set_status json root)
    unfolding Returns do_set_status
    status-Returns (a, e) d = (record d { play_status = a }, ground arith)

    volume-Returns : Converts (some set_volume) root → Returns (do_set_volume json root)
    unfolding Returns do_set_volume
    volume-Returns (a, e) d = (record d { current_volume = a }, ground arith)

    mute-Returns : Converts (some set_mute) root → Returns (do_set_mute json root)
    unfolding Returns do_set_mute
    mute-Returns (a, e) d = (d, ground arith)

    step_volume-Returns :
        Converts (some set_step_volume) root → Returns (do_set_step_volume json root)
    unfolding Returns do_set_step_volume
    step_volume-Returns (a, e) d = (d, ground arith)

  dispatch_returns :
      (c : Option CommCmd) (root : Value) (w : World S) (fd : ℕ)
      → Converts c root
      → w.server_fd ≡ some fd
      → Accepts (length (frame (json.write alive_fields))) w.writes
      → plays c ≡ false
      → (w' : World S) × (dispatch json port c root w ≡ done (accepted c, w'))
        × (w'.out ≡ w.out ++ reply c)
  unfolding dispatch
  dispatch_returns none root w fd has open_fd takes silent = (w, refl, sym (append-nil w.out))
  dispatch_returns (some set_version) root w fd has open_fd takes silent =
      handler-Returns (do_set_lightningcast_version json root) w (version-Returns root has)
  dispatch_returns (some set_metadata) root w fd has open_fd takes silent =
      beat-Returns (do_set_metadata json root) w fd open_fd takes (metadata-Returns root has)
  dispatch_returns (some set_audioformat) root w fd has open_fd takes silent =
      handler-Returns (do_set_audio_format json root) w (audio_format-Returns root has)
  dispatch_returns (some set_duration) root w fd has open_fd takes silent =
      handler-Returns (do_set_duration json root) w (duration-Returns root has)
  dispatch_returns (some set_position) root w fd has open_fd takes silent =
      handler-Returns (do_set_position json root) w (position-Returns root has)
  dispatch_returns (some set_status) root w fd has open_fd takes silent =
      handler-Returns (do_set_status json root) w (status-Returns root has)
  dispatch_returns (some set_volume) root w fd has open_fd takes silent =
      beat-Returns (do_set_volume json root) w fd open_fd takes (volume-Returns root has)
  dispatch_returns (some set_mute) root w fd has open_fd takes silent =
      handler-Returns (do_set_mute json root) w (mute-Returns root has)
  dispatch_returns (some set_step_volume) root w fd has open_fd takes silent =
      beat-Returns (do_set_step_volume json root) w fd open_fd takes (step_volume-Returns root has)
  dispatch_returns (some notify_alive) root w fd has open_fd takes silent = (
    record w { client = record w.client { alive_time = w.now } },
    unfold do_set_alive in refl,
    sym (append-nil w.out),
  )
  dispatch_returns (some set_play) root w fd has open_fd takes silent = cc
  dispatch_returns (some set_pause) root w fd has open_fd takes silent = cc
  dispatch_returns (some set_stop) root w fd has open_fd takes silent = cc
  dispatch_returns (some c) root w fd has open_fd takes silent = (w, refl, sym (append-nil w.out))

  -- A message that comes in any pieces, with bytes of the next one behind it, that parses, whose members that
  -- its handler asks for convert, and that does not concern the player: `doRead` returns, true just for the commands
  -- that the session goes on after, and if the socket takes a heartbeat, one has gone out for metadata and
  -- the two volume messages, and nothing for the others.
  pub do_read_returns :
      (text rest : List ℕ) (root : Value) (n : ℤ) (w : World S) (fd : ℕ)
      → length text < 2 ^ 32
      → stream w.incoming ≡ frame text ++ rest
      → json.parse text ≡ some root
      → json.int_at root "Cmd" ≡ some n
      → Converts (command n) root
      → w.server_fd ≡ some fd
      → Accepts (length (frame (json.write alive_fields))) w.writes
      → plays (command n) ≡ false
      → (w' : World S) × (do_read json port w ≡ done (accepted (command n), w'))
        × (w'.out ≡ w.out ++ (if beats (command n) then frame (json.write alive_fields) else []))
  unfolding do_read do_parse
  do_read_returns text rest root n w fd short e parsed named has open_fd takes silent =
      let (left, got, behind) =
        verdict-accept (read_frame w.incoming) (read_frame-frame text rest w.incoming short e) in
      let (w', runs, out) =
        dispatch_returns (command n) root (record w { incoming = left }) fd has open_fd takes
          silent in
      (w', ground arith, out)
