-- ===== src/Client/Calls/Opened.antt =====
-- What a call of `Open` leaves.
use lightning_cast_endpoint.Base.{
  ◌<◌, ◌&&◌, ℕ, ◌≡◌, Bool, true, false, List, none, some, arith, Run, done, ◌>>◌, if◌then◌else◌,
}
use lightning_cast_endpoint.Json.{JsonCpp}
use lightning_cast_endpoint.Util.EventFd.{EventFd, read, write}
use lightning_cast_endpoint.Client.Commands.{ClientCmd}
use lightning_cast_endpoint.Client.State.{World, SnapPort}
use lightning_cast_endpoint.Client.Dispatch.{do_stop, do_set_alive}
use lightning_cast_endpoint.Client.Session.{
  Attempt, is_connected, connect_server, Round, serve, greet, watch, session_loop, set_open,
  close_server, do_open,
}
use lightning_cast_endpoint.Client.Calls.{
  ask, begin_open, close_call, close_if_open, open_call, exit_call,
}

-- The host is known, the connection is made, and the socket is made non-blocking.
abbrev pub reaches : Attempt → Bool
reaches a = elim a.socket [ none ↦ false | some fd ↦ a.host_known && is_connected a ]

module _ (json : JsonCpp) {S : Type 0} (port : SnapPort S) where
  -- What `do_open` does behind LockfinishCmd.
  abbrev pub go_on : List Round → Run (World S) (Unit {0})
  go_on rounds w =
      (if w.is_open
          then (do
            greet json
            do_set_alive
            watch
            session_loop json port rounds
            set_open false
            do_stop port
            close_server)
          else (λ v. done (tt, v)))
        w

  -- `do_open` is what `Open` waits for, and what follows.
  pub do_open-begin_open :
      (a : Attempt) (rounds : List Round) (w : World S)
      → do_open json port a rounds w ≡ (do begin_open a; go_on rounds) w
  unfolding do_open begin_open connect_server
  do_open-begin_open a rounds w = ground arith

  -- The client after `Open`.
  abbrev pub opened : (List ℕ → Attempt) → List ℕ → World S → World S
  opened attempts ip w =
      let b = reaches (attempts ip) in
      record w {
        client = record w.client {
          server_ip = ip;
          cmd = ClientCmd.idle;
          ready = false;
          ready_sync = true;
          is_open = b;
          server_fd = if b then (attempts ip).socket else none;
        };
      }

  pub open_call_closed :
      (attempts : List ℕ → Attempt) (ip : List ℕ) (w : World S)
      → w.is_open ≡ false
      → open_call json port attempts ip w ≡ done (reaches (attempts ip), opened attempts ip w)
  unfolding open_call close_if_open begin_open connect_server
  open_call_closed attempts ip w closed = ground arith

  -- The client after a `Close` that ended a session, with the player's component left in state `s`.
  abbrev pub closed_with : S → World S → World S
  closed_with s w = record w {
    client = record w.client {
      cmd = ClientCmd.idle;
      ready = false;
      ready_sync = true;
      is_open = false;
      server_fd = none;
      wake_fd = record w.wake_fd { counter = 0 };
    };
    snap = s;
  }

  write-awake : (e : EventFd) → (0 < (write e).counter) × ((write e).fd ≡ e.fd)
  unfolding write
  write-awake e = ground arith

  -- Woken, the `for` loop behind select finds just `wake_fd`.
  serve_woken :
      (w : World S)
      → 0 < w.wake_fd.counter
      → serve json port false ClientCmd.close_server w
        ≡ done (
          false,
          record w {
            client = record w.client {
              cmd = ClientCmd.close_server;
              wake_fd = record w.wake_fd { counter = 0 };
            };
          },
        )
  unfolding serve read
  serve_woken w awake = ground arith

  close_call_session :
      (w : World S) (fd : ℕ) (b : Bool) (s1 s2 : S)
      → w.server_fd ≡ some fd
      → port.send_stop w.snap ≡ done (b, s1)
      → port.snap_close s1 ≡ done (tt, s2)
      → close_call json port w ≡ done (tt, closed_with s2 w)
  unfolding close_call do_stop
  close_call_session w fd b s1 s2 open_fd stops closes =
      let asked : World S = record w {
        client = record (ask ClientCmd.close_server w.client) { wake_fd = write w.wake_fd };
      } in
      ground (arith, serve_woken asked (write-awake w.wake_fd).0, write-awake w.wake_fd)

  -- The calls of the player's component that stop and close it return, from `s` to `s'`.
  abbrev pub StopsTo : S → S → Type 0
  StopsTo s s' =
      (b : Bool) × (t : S) × (port.send_stop s ≡ done (b, t)) × (port.snap_close t ≡ done (tt, s'))

  do_stop_to :
      (w : World S) (s : S) → StopsTo w.snap s → do_stop port w ≡ done (tt, record w { snap = s })
  unfolding do_stop
  do_stop_to w s (b, t, stops, closes) = ground arith

  close_if_open_session :
      (w : World S) (fd : ℕ) (s s' : S)
      → w.is_open ≡ true
      → w.server_fd ≡ some fd
      → StopsTo w.snap s
      → StopsTo s s'
      → close_if_open json port w ≡ done (tt, closed_with s' w)
  unfolding close_if_open
  close_if_open_session w fd s s' on open_fd first (b, t, stops, closes) = ground (
    arith,
    do_stop_to w s first,
    close_call_session (record w { snap = s }) fd b t s' open_fd stops closes,
  )

  -- `Open` while a session runs, when nothing comes from the phone meanwhile and the calls of the player return:
  -- the player is stopped and closed twice, by the calling thread and by the class's own, the old session is
  -- closed, and then just one attempt to connect to the new address is made, whose outcome the call returns; the
  -- client is open, and has a socket, exactly if it succeeded, and no command is left.
  pub open_call_reopens :
      (attempts : List ℕ → Attempt) (ip : List ℕ) (w : World S) (fd : ℕ) (s s' : S)
      → w.is_open ≡ true
      → w.server_fd ≡ some fd
      → StopsTo w.snap s
      → StopsTo s s'
      → open_call json port attempts ip w
        ≡ done (reaches (attempts ip), opened attempts ip (closed_with s' w))
  unfolding open_call begin_open connect_server
  open_call_reopens attempts ip w fd s s' on open_fd first second =
      ground (arith, close_if_open_session w fd s s' on open_fd first second)

  -- `Exit` while a session runs, under the same conditions: the player is stopped and closed, the session is closed,
  -- and the exit command is left for the class's own thread.
  pub exit_call_session :
      (w : World S) (fd : ℕ) (s s' : S)
      → w.is_open ≡ true
      → w.server_fd ≡ some fd
      → StopsTo w.snap s
      → StopsTo s s'
      → exit_call json port w
        ≡ done (
          tt,
          record (closed_with s' w) { client = ask ClientCmd.exit (closed_with s' w).client },
        )
  unfolding exit_call
  exit_call_session w fd s s' on open_fd first second =
      ground (arith, close_if_open_session w fd s s' on open_fd first second)
