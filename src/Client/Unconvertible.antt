-- ===== src/Client/Unconvertible.antt =====
-- Messages from the wire with a member of a type that does not convert: the library throws, and the process ends.
use Prim.Native.String.{String}
use lightning_cast_endpoint.Base.{
  ℕ, pure, ◌^◌, ◌<◌, ◌≡◌, ◌↔◌, refl, sym, ◌∙◌, true, false, List, ◌++◌, Option, none, some, arith,
  length, ℤ, Run, done, thrown, ◌>>=◌, ◌>>◌,
}
use lightning_cast_endpoint.Json.{JsonCpp, int_member, string_member}
use lightning_cast_endpoint.Wire.Header.{frame}
use lightning_cast_endpoint.Wire.Send.{Accepts}
use lightning_cast_endpoint.Wire.Receive.{read_frame, stream}
use lightning_cast_endpoint.Wire.RoundTrip.{read_frame-frame, verdict-accept}
use lightning_cast_endpoint.Client.Commands.{
  CommCmd, set_version, set_metadata, set_audioformat, set_duration, set_position, set_status,
  set_volume, set_mute, set_step_volume, command,
}
use lightning_cast_endpoint.Client.State.{Client, World, SnapPort, on_client}
use lightning_cast_endpoint.Client.Send.{send_alive, alive_fields}
use lightning_cast_endpoint.Client.Handlers.{
  do_set_lightningcast_version, do_set_metadata, do_set_audio_format, do_set_duration,
  do_set_position, do_set_status, do_set_volume, do_set_mute, do_set_step_volume,
}
use lightning_cast_endpoint.Client.Dispatch.{dispatch, do_parse, do_read}
use lightning_cast_endpoint.Client.Lifecycle.{sent, process_send_accepted}
use lightning_cast_endpoint.Client.Footprint.{plays}
use lightning_cast_endpoint.Client.Replies.{Converts, do_read_returns}

Throws : Run Client (Unit {0}) → Type 0
Throws m = (d : Client) → m d ≡ thrown

module _ (json : JsonCpp) where
  open json use {Value, int_at, string_at}

  -- A handler that asks for a number throws, unless the call gives a number and the rest does not throw.
  number-Throws :
      (root : Value) (key : String) (k : ℤ → Run Client (Unit {0}))
      → ((n : ℤ) → int_at root key ≡ some n → Throws (k n))
      → Throws (do n ← int_member json root key; k n)
  unfolding Throws
  number-Throws root key k rest d = go (int_at root key) refl
    where
      go : (o : Option ℤ) → int_at root key ≡ o → (do n ← int_member json root key; k n) d ≡ thrown
      go none e = ground arith
      go (some n) e = ground (arith, rest n e d)

  text-Throws :
      (root : Value) (key : String) (k : List ℕ → Run Client (Unit {0}))
      → ((t : List ℕ) → string_at root key ≡ some t → Throws (k t))
      → Throws (do t ← string_member json root key; k t)
  unfolding Throws
  text-Throws root key k rest d = go (string_at root key) refl
    where
      go :
          (o : Option (List ℕ))
          → string_at root key ≡ o
          → (do t ← string_member json root key; k t) d ≡ thrown
      go none e = ground arith
      go (some t) e = ground (arith, rest t e d)

module _ (json : JsonCpp) {S : Type 0} (port : SnapPort S) where
  open json use {Value}

  handler-Throws :
      (m : Run Client (Unit {0})) (w : World S) → Throws m → (do on_client m; pure true) w ≡ thrown
  unfolding Throws
  handler-Throws m w r = ground (arith, r w.client)

  beat-Throws :
      (m : Run Client (Unit {0})) (w : World S) (fd : ℕ)
      → w.server_fd ≡ some fd
      → Accepts (length (frame (json.write alive_fields))) w.writes
      → Throws m
      → (do send_alive json; on_client m; pure true) w ≡ thrown
  unfolding Throws send_alive
  beat-Throws m w fd open_fd takes r =
      let v : World S = sent (json.write alive_fields) w in
      ground (arith, process_send_accepted (json.write alive_fields) w fd open_fd takes, r v.client)

  module _ (root : Value) where
    version-Throws :
        ¬ Converts json port (some set_version) root
        → Throws (do_set_lightningcast_version json root)
    unfolding do_set_lightningcast_version
    version-Throws fails = number-Throws json root "Major" _ (λ a e.
        number-Throws json root "Minor" _ (λ b f.
          number-Throws json root "Patch" _ (λ c g. absurd (fails ((a, e), (b, f), (c, g))))))

    metadata-Throws :
        ¬ Converts json port (some set_metadata) root → Throws (do_set_metadata json root)
    unfolding do_set_metadata
    metadata-Throws fails = text-Throws json root "Title" _ (λ a e.
        text-Throws json root "Album" _ (λ b f. text-Throws json root "Artist" _ (λ c g.
          text-Throws json root "CoverUrl" _
            (λ u h. absurd (fails ((a, e), (b, f), (c, g), (u, h)))))))

    audio_format-Throws :
        ¬ Converts json port (some set_audioformat) root → Throws (do_set_audio_format json root)
    unfolding do_set_audio_format Throws
    audio_format-Throws fails = number-Throws json root "SampleRate" _ (λ a e d.
        number-Throws json root "Format" _
          (λ b f d'.
            number-Throws json root "Channels" _ (λ c g. absurd (fails ((a, e), (b, f), (c, g)))) _)
          _)

    duration-Throws :
        ¬ Converts json port (some set_duration) root → Throws (do_set_duration json root)
    unfolding do_set_duration
    duration-Throws fails = number-Throws json root "Duration" _ (λ a e. absurd (fails (a, e)))

    position-Throws :
        ¬ Converts json port (some set_position) root → Throws (do_set_position json root)
    unfolding do_set_position
    position-Throws fails = number-Throws json root "Position" _ (λ a e. absurd (fails (a, e)))

    status-Throws : ¬ Converts json port (some set_status) root → Throws (do_set_status json root)
    unfolding do_set_status
    status-Throws fails = number-Throws json root "PlayStatus" _ (λ a e. absurd (fails (a, e)))

    volume-Throws : ¬ Converts json port (some set_volume) root → Throws (do_set_volume json root)
    unfolding do_set_volume
    volume-Throws fails = number-Throws json root "SET_VOLUME" _ (λ a e. absurd (fails (a, e)))

    mute-Throws : ¬ Converts json port (some set_mute) root → Throws (do_set_mute json root)
    unfolding do_set_mute
    mute-Throws fails = number-Throws json root "SET_MUTE" _ (λ a e. absurd (fails (a, e)))

    step_volume-Throws :
        ¬ Converts json port (some set_step_volume) root → Throws (do_set_step_volume json root)
    unfolding do_set_step_volume
    step_volume-Throws fails =
        number-Throws json root "SET_STEP_VOLUME" _ (λ a e. absurd (fails (a, e)))

  dispatch_throws :
      (c : Option CommCmd) (root : Value) (w : World S) (fd : ℕ)
      → w.server_fd ≡ some fd
      → Accepts (length (frame (json.write alive_fields))) w.writes
      → ¬ Converts json port c root
      → dispatch json port c root w ≡ thrown
  unfolding dispatch
  dispatch_throws none root w fd open_fd takes fails = absurd (fails tt)
  dispatch_throws (some set_version) root w fd open_fd takes fails =
      handler-Throws (do_set_lightningcast_version json root) w (version-Throws root fails)
  dispatch_throws (some set_metadata) root w fd open_fd takes fails =
      beat-Throws (do_set_metadata json root) w fd open_fd takes (metadata-Throws root fails)
  dispatch_throws (some set_audioformat) root w fd open_fd takes fails =
      handler-Throws (do_set_audio_format json root) w (audio_format-Throws root fails)
  dispatch_throws (some set_duration) root w fd open_fd takes fails =
      handler-Throws (do_set_duration json root) w (duration-Throws root fails)
  dispatch_throws (some set_position) root w fd open_fd takes fails =
      handler-Throws (do_set_position json root) w (position-Throws root fails)
  dispatch_throws (some set_status) root w fd open_fd takes fails =
      handler-Throws (do_set_status json root) w (status-Throws root fails)
  dispatch_throws (some set_volume) root w fd open_fd takes fails =
      beat-Throws (do_set_volume json root) w fd open_fd takes (volume-Throws root fails)
  dispatch_throws (some set_mute) root w fd open_fd takes fails =
      handler-Throws (do_set_mute json root) w (mute-Throws root fails)
  dispatch_throws (some set_step_volume) root w fd open_fd takes fails =
      beat-Throws (do_set_step_volume json root) w fd open_fd takes (step_volume-Throws root fails)
  dispatch_throws (some c) root w fd open_fd takes fails = absurd (fails tt)

  -- A message that comes in any pieces, with bytes of the next one behind it, that parses, names a command that does not
  -- concern the player, and finds a socket that takes a heartbeat: the library's exception leaves `doRead`, and so ends
  -- the process, exactly if a member that the handler of its command asks for is there with a type that does not
  -- convert, as asInt and asString are asked; a missing member converts, to 0 or to an empty text.
  pub do_read_throws :
      (text rest : List ℕ) (root : Value) (n : ℤ) (w : World S) (fd : ℕ)
      → length text < 2 ^ 32
      → stream w.incoming ≡ frame text ++ rest
      → json.parse text ≡ some root
      → json.int_at root "Cmd" ≡ some n
      → w.server_fd ≡ some fd
      → Accepts (length (frame (json.write alive_fields))) w.writes
      → plays (command n) ≡ false
      → (do_read json port w ≡ thrown) ↔ (¬ Converts json port (command n) root)
  unfolding do_read do_parse
  do_read_throws text rest root n w fd short e parsed named open_fd takes silent =
      let (left, got, behind) =
        verdict-accept (read_frame w.incoming) (read_frame-frame text rest w.incoming short e) in
      (
        λ t has.
            let (w', runs, out) =
              do_read_returns json port text rest root n w fd short e parsed named has open_fd takes
                silent in
            let clash : done (_, w') ≡ thrown = sym runs ∙ t in cc,
        λ fails.
            let throws =
              dispatch_throws (command n) root (record w { incoming = left }) fd open_fd takes
                fails in
            ground arith,
      )
