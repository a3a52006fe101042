-- ===== src/Client/Session.antt =====
-- connectServer, checkCastServerAlive, finishCmd and do_open.
use lightning_cast_endpoint.Base.{
  ℕ, ◌/◌, Bool, true, false, not, ◌&&◌, List, [], ◌∷◌, ◌++◌, Option, none, some, ltb, ◌==◌, pos,
  ◌==ℤ◌, Run, done, undefined, stuck, pure, ◌>>=◌, ◌>>◌, if◌then◌else◌,
}
use lightning_cast_endpoint.Json.{JsonCpp}
use lightning_cast_endpoint.Util.Time.{TimeSpec, diff_in_us}
use lightning_cast_endpoint.Util.EventFd.{get, read, writes, make_socket_non_blocking}
use lightning_cast_endpoint.Util.FdSet.{fits_set}
use lightning_cast_endpoint.Wire.Receive.{ReadEvent}
use lightning_cast_endpoint.Client.Commands.{
  ClientCmd, notify_version, notify_volume_control, notify_volume, notify_mute,
}
use lightning_cast_endpoint.Client.State.{Client, World, SnapPort, set_is_open}
use lightning_cast_endpoint.Client.Send.{send_remote_command, send_alive}
use lightning_cast_endpoint.Client.Dispatch.{do_stop, do_set_alive, do_read}

-- What the calls of `connectServer` return: socket (`none` for an error), whether gethostbyname and
-- connect succeed, and the two fcntl of `make_socket_non_blocking`.
pub record Attempt : Type 0 where
  pub socket : Option ℕ
  pub host_known : Bool
  pub connects : Bool
  pub flags : Option ℕ
  pub sets : ℕ → Bool

abbrev pub is_connected : Attempt → Bool
is_connected a = a.connects && (make_socket_non_blocking a.flags a.sets).0 ==ℤ pos 0

-- A socket that is not connected is closed again.
unfoldable pub connect_server : Attempt → Client → Bool × Client
connect_server a c = elim a.socket [
  | none ↦ (false, record c { server_fd = none })
  | some fd ↦
      if a.host_known && is_connected a
      then (true, record c { server_fd = some fd })
      else (false, record c { server_fd = none })
]

-- `finishCmd`, and `LockfinishCmd`, which takes the lock first.
abbrev pub finish_cmd : Client → Client
finish_cmd c = record c { cmd = ClientCmd.idle; ready_sync = true }

abbrev pub is_idle : ClientCmd → Bool
is_idle ClientCmd.idle = true
is_idle other = false

-- More than 5000 whole milliseconds without a sign of life end the session.
unfoldable pub check_cast_server_alive : {S : Type 0} → Run (World S) Bool
check_cast_server_alive w = elim (diff_in_us w.alive_time w.now) [
  | some us ↦ done (not (ltb 5000 (us / 1000)), w)
  | none ↦ undefined
]

-- What select returns: an error, a timeout after 500 ms, or descriptors, the server's among them or
-- not; `wake_fd` is among them if its counter is not zero.
pub data Select : Type 0 where
  failed expired : Select
  ready : Bool → Select

-- One turn of the loop, with what happens around it: the value of `cmd` at the loop's test and at the
-- test behind `wake_fd.Read()`, which other threads write; their writes to `wake_fd`; the bytes that
-- the phone sends; and the clock.
pub record Round : Type 0 where
  pub cmd : ClientCmd
  pub cmd_late : ClientCmd
  pub wakes : ℕ
  pub arrives : List ReadEvent
  pub clock : TimeSpec
  pub select : Select

module _ {S : Type 0} where
  abbrev pub enter : Round → World S → World S
  enter r w = record w {
    client = record w.client { cmd = r.cmd; wake_fd = writes r.wakes w.wake_fd };
    incoming = w.incoming ++ r.arrives;
    now = r.clock;
  }

  -- `wake_fd.Read()`; the value of `cmd` afterwards says whether the `for` loop goes on.
  abbrev pub on_wake : ClientCmd → Run (World S) Bool
  on_wake late w = done (
    is_idle late,
    record w { client = record w.client { cmd = late; wake_fd = (read w.wake_fd).1 } },
  )

  -- The connection is closed under `server_mutex`.
  abbrev pub close_server : Run (World S) (Unit {0})
  close_server w = done (tt, record w { client = record w.client { server_fd = none } })

  abbrev pub set_open : Bool → Run (World S) (Unit {0})
  set_open b w = done (tt, record w { client = set_is_open b w.client })

  -- FD_SET of the two descriptors.
  abbrev pub watch : Run (World S) (Unit {0})
  watch w = elim w.server_fd [
    | none ↦ undefined
    | some fd ↦ if fits_set fd && fits_set (get w.wake_fd) then done (tt, w) else undefined
  ]

  abbrev pub finish : Run (World S) (Unit {0})
  finish w = done (tt, record w { client = finish_cmd w.client })

module _ (json : JsonCpp) {S : Type 0} where
  -- What is sent first on a new connection.
  unfoldable pub greet : Run (World S) (Unit {0})
  greet w =
      (do
        send_remote_command json notify_version (pos 0)
        send_remote_command json notify_volume_control (pos 1)
        send_remote_command json notify_volume w.current_volume
        send_remote_command json notify_mute (pos 0))
        w

module _ (json : JsonCpp) {S : Type 0} (port : SnapPort S) where
  -- The `for` loop meets the two descriptors in the order of their numbers; the result is
  -- `break_while`.
  unfoldable pub serve : Bool → ClientCmd → Run (World S) Bool
  serve server late w =
      let woken : Bool = not (w.wake_fd.counter == 0) in
      let serve_server : Run (World S) Bool =
        if server then (do ok ← do_read json port; pure (not ok)) else pure false in
      let wake_first : Bool = (elim w.server_fd as (λ _. Bool) [
        | none ↦ true
        | some fd ↦ ltb (get w.wake_fd) fd
      ]) in
      if wake_first
      then (if woken
            then (do on ← on_wake late; if on then serve_server else pure false)
            else serve_server)
          w
      else (do
        stop ← serve_server
        if stop
            then pure true
            else (if woken then (do on ← on_wake late; pure false) else pure false))
          w

  -- The `while` loop; without further rounds it has not ended.
  unfoldable pub session_loop : List Round → Run (World S) (Unit {0})
  session_loop [] w = stuck
  session_loop (r ∷ rounds) w =
      let more : Run (World S) (Unit {0}) = session_loop rounds in
      if is_idle r.cmd
      then (elim r.select as (λ _. Run (World S) (Unit {0})) [
        | failed ↦ pure tt
        | expired ↦ do
          send_alive json
          alive ← check_cast_server_alive
          if alive then more else pure tt
        | ready server ↦ do stop ← serve server r.cmd_late; if stop then pure tt else more
      ])
          (enter r w)
      else done (tt, enter r w)

  abbrev pub run_session : List Round → Run (World S) (Unit {0})
  run_session rounds = do
    set_open true
    finish
    greet json
    do_set_alive
    watch
    session_loop rounds
    set_open false
    do_stop port
    close_server

  unfoldable pub do_open : Attempt → List Round → Run (World S) (Unit {0})
  do_open a rounds w =
      let (connected, c) = connect_server a w.client in
      (if connected then run_session rounds else (do set_open false; finish))
        (record w { client = c })
