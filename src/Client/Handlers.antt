-- ===== src/Client/Handlers.antt =====
-- The handlers of single messages that change the client's members only.
use Prim.Native.String.{String}
use lightning_cast_endpoint.Base.{
  ℕ, ◌+◌, ◌&&◌, List, none, some, length, ℤ, div_trunc, ◌==ℤ◌, Run, done, pure, ◌>>=◌, ◌>>◌,
  if◌then◌else◌, codes, same_text, find, replace,
}
use lightning_cast_endpoint.Json.{JsonCpp, int_member, string_member}
use lightning_cast_endpoint.Client.State.{Client}

-- Where the phone names itself "localhost" in the URL of a cover, its address is put in.
unfoldable pub localise : List ℕ → List ℕ → List ℕ
localise server_ip cover_url = elim (find (codes "http://localhost") cover_url) [
  | some i ↦ replace (i + length (codes "http://")) (length (codes "localhost")) server_ip cover_url
  | none ↦ cover_url
]

-- `this->x = x` for the four texts, unless all four are as they were.
unfoldable pub keep_metadata : List ℕ → List ℕ → List ℕ → List ℕ → Client → Client
keep_metadata title album artist cover_url c =
    if same_text title c.title
      && (same_text album c.album && (same_text artist c.artist && same_text cover_url c.cover_url))
    then c
    else record c { title = title; album = album; artist = artist; cover_url = cover_url }

abbrev update : (Client → Client) → Run Client (Unit {0})
update f c = done (tt, f c)

module _ (json : JsonCpp) where
  open json use {Value}

  abbrev number : Value → String → Run Client ℤ
  number = int_member json

  abbrev text : Value → String → Run Client (List ℕ)
  text = string_member json

  unfoldable pub do_set_lightningcast_version : Value → Run Client (Unit {0})
  do_set_lightningcast_version root = do
    major ← number root "Major"
    minor ← number root "Minor"
    patch ← number root "Patch"
    pure tt

  unfoldable pub do_set_metadata : Value → Run Client (Unit {0})
  do_set_metadata root = do
    title ← text root "Title"
    album ← text root "Album"
    artist ← text root "Artist"
    cover_url ← text root "CoverUrl"
    update (λ c. keep_metadata title album artist (localise c.server_ip cover_url) c)

  unfoldable pub do_set_audio_format : Value → Run Client (Unit {0})
  do_set_audio_format root = do
    rate ← number root "SampleRate"
    update (λ c. record c { sample_rate = rate })
    format ← number root "Format"
    update (λ c. record c { format = format })
    channels ← number root "Channels"
    update (λ c. record c { channels = channels })

  -- Milliseconds come, seconds are kept.
  unfoldable pub do_set_duration : Value → Run Client (Unit {0})
  do_set_duration root = do
    millis ← number root "Duration"
    let duration = div_trunc millis 1000
    update (λ c. if duration ==ℤ c.duration then c else record c { duration = duration })

  unfoldable pub do_set_position : Value → Run Client (Unit {0})
  do_set_position root = do
    position ← number root "Position"
    update (λ c. record c { position = position })

  unfoldable pub do_set_status : Value → Run Client (Unit {0})
  do_set_status root = do
    status ← number root "PlayStatus"
    update (λ c. record c { play_status = status })

  unfoldable pub do_set_volume : Value → Run Client (Unit {0})
  do_set_volume root = do
    volume ← number root "SET_VOLUME"
    update (λ c. record c { current_volume = volume })

  -- Read and not kept.
  unfoldable pub do_set_mute : Value → Run Client (Unit {0})
  do_set_mute root = do mute ← number root "SET_MUTE"; pure tt

  unfoldable pub do_set_step_volume : Value → Run Client (Unit {0})
  do_set_step_volume root = do step ← number root "SET_STEP_VOLUME"; pure tt
