-- ===== src/Client/Lifecycle.antt =====
-- How a session starts, lives and ends.
use lightning_cast_endpoint.Base.{
  ℕ, ◌-◌, ◌^◌, ◌≤◌, ◌<◌, ◌≡◌, false, List, [], ◌∷◌, ◌++◌, append_assoc, append-nil, none, some,
  arith, ltb, pos, done, length,
}
use lightning_cast_endpoint.Json.{JsonCpp}
use lightning_cast_endpoint.Util.Time.{nanos, IsNormal, diff_in_us-nanos}
use lightning_cast_endpoint.Wire.Header.{frame}
use lightning_cast_endpoint.Wire.Send.{write_loop, Accepts, write_loop-complete, WriteResult}
use lightning_cast_endpoint.Wire.RoundTrip.{frames}
use lightning_cast_endpoint.Client.Commands.{
  notify_version, notify_volume_control, notify_volume, notify_mute,
}
use lightning_cast_endpoint.Client.State.{World, SnapPort}
use lightning_cast_endpoint.Client.Send.{process_send, send_remote_command, remote_fields}
use lightning_cast_endpoint.Client.Dispatch.{do_stop}
use lightning_cast_endpoint.Client.Session.{
  Attempt, connect_server, check_cast_server_alive, Round, greet, do_open,
}

-- The phone counts as alive exactly while less than 5.001 seconds have passed since its last sign
-- of life, for normal clock readings that do not go back and are less than 2^52 nanoseconds apart;
-- nothing changes.
pub check_cast_server_alive_lem :
    {S : Type 0} (w : World S)
    → IsNormal w.alive_time
    → IsNormal w.now
    → nanos w.alive_time ≤ nanos w.now
    → nanos w.now - nanos w.alive_time < 2 ^ 52
    → check_cast_server_alive w ≡ done (ltb (nanos w.now - nanos w.alive_time) 5_001_000_000, w)
unfolding check_cast_server_alive
check_cast_server_alive_lem w n1 n2 le small =
    ground (arith, diff_in_us-nanos w.alive_time w.now n1 n2 le small)

-- The socket takes these texts, framed, one after the other.
abbrev pub AcceptsAll : List (List ℕ) → List WriteResult → Type 0
AcceptsAll [] writes = Unit {0}
AcceptsAll (text ∷ texts) writes =
    Accepts (length (frame text)) writes
    × AcceptsAll texts (write_loop [] (frame text) writes).writes

module _ {S : Type 0} where
  abbrev pub sent : List ℕ → World S → World S
  sent text w = record w {
    out = w.out ++ frame text;
    writes = (write_loop [] (frame text) w.writes).writes;
  }

  -- A text that the socket takes goes out as one frame, whole.
  pub process_send_accepted :
      (text : List ℕ) (w : World S) (fd : ℕ)
      → w.server_fd ≡ some fd
      → Accepts (length (frame text)) w.writes
      → process_send text w ≡ done (tt, sent text w)
  unfolding process_send
  process_send_accepted text w fd open_fd h =
      ground (arith, write_loop-complete [] (frame text) w.writes h)

module _ (json : JsonCpp) {S : Type 0} (port : SnapPort S) where
  -- Whatever the attempt to connect meets and whatever the rounds bring, a call of `do_open` that
  -- returns leaves the client closed: `is_open` is false and there is no socket.
  pub do_open-closed :
      (a : Attempt) (rounds : List Round) (w w' : World S) (u : Unit {0})
      → do_open json port a rounds w ≡ done (u, w')
      → (w'.is_open ≡ false) × (w'.server_fd ≡ none)
  unfolding do_open connect_server do_stop
  do_open-closed a rounds w w' u h = ground arith

module _ (json : JsonCpp) {S : Type 0} where
  abbrev pub greeting : World S → List (List ℕ)
  greeting w =
      json.write (remote_fields w.version notify_version (pos 0))
      ∷ json.write (remote_fields w.version notify_volume_control (pos 1))
      ∷ json.write (remote_fields w.version notify_volume w.current_volume)
      ∷ json.write (remote_fields w.version notify_mute (pos 0))
      ∷ []

  -- A new connection begins with four frames: the version, that the volume can be controlled, the
  -- volume, and that nothing is muted; nothing else changes, if the socket takes them. What it takes behind
  -- them it takes afterwards.
  pub greet_accepted :
      (more : List (List ℕ)) (w : World S) (fd : ℕ)
      → w.server_fd ≡ some fd
      → AcceptsAll (greeting w ++ more) w.writes
      → (writes : List WriteResult) × (greet json w
          ≡ done (tt, record w { out = w.out ++ frames (greeting w); writes = writes }))
        × AcceptsAll more writes
  unfolding greet send_remote_command
  greet_accepted more w fd open_fd (a, (b, (c, (d, rest)))) =
      let version = json.write (remote_fields w.version notify_version (pos 0)) in
      let control = json.write (remote_fields w.version notify_volume_control (pos 1)) in
      let volume = json.write (remote_fields w.version notify_volume w.current_volume) in
      let mute = json.write (remote_fields w.version notify_mute (pos 0)) in
      let v1 : World S = sent version w in
      let v2 : World S = sent control v1 in
      let v3 : World S = sent volume v2 in
      let v4 : World S = sent mute v3 in
      let all : v4.out ≡ w.out ++ frames (greeting w) = simp (append_assoc, append-nil) in
      (
        v4.writes,
        ground (
          arith,
          process_send_accepted version w fd open_fd a,
          process_send_accepted control v1 fd open_fd b,
          process_send_accepted volume v2 fd open_fd c,
          process_send_accepted mute v3 fd open_fd d,
          all,
        ),
        rest,
      )
