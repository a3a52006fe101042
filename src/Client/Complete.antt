-- ===== src/Client/Complete.antt =====
-- A whole run of do_open: it returns, and what it leaves.
use lightning_cast_endpoint.Base.{
  repeat, ℕ, suc, ◌≤◌, ◌≡◌, refl, ap, ◌∙◌, Bool, true, false, List, ◌∷◌, ◌++◌, append_assoc,
  append-nil, none, some, arith, done, length,
}
use lightning_cast_endpoint.Json.{JsonCpp}
use lightning_cast_endpoint.Util.Time.{IsNormal}
use lightning_cast_endpoint.Util.EventFd.{get}
use lightning_cast_endpoint.Util.FdSet.{fits_set}
use lightning_cast_endpoint.Wire.RoundTrip.{frames}
use lightning_cast_endpoint.Client.Commands.{ClientCmd}
use lightning_cast_endpoint.Client.State.{Client, World, SnapPort}
use lightning_cast_endpoint.Client.Send.{alive_fields}
use lightning_cast_endpoint.Client.Dispatch.{do_stop, do_set_alive}
use lightning_cast_endpoint.Client.Session.{
  Attempt, connect_server, Round, watch, session_loop, greet, do_open, run_session,
}
use lightning_cast_endpoint.Client.Lifecycle.{AcceptsAll, greeting, greet_accepted}
use lightning_cast_endpoint.Client.Silence.{Quiet, elapsed, AllEarly, session_loop_silence}

module _ (json : JsonCpp) {S : Type 0} (port : SnapPort S) where
  -- If `connectServer` fails, `do_open` returns at once: the command is finished, so that `Open`
  -- returns, `is_open` is false, there is no socket, and nothing else changes: nothing is sent.
  pub do_open_refused :
      (a : Attempt) (rounds : List Round) (w : World S)
      → (connect_server a w.client).0 ≡ false
      → do_open json port a rounds w
        ≡ done (
          tt,
          record w {
            client = record w.client {
              server_fd = none;
              is_open = false;
              cmd = ClientCmd.idle;
              ready_sync = true;
            };
          },
        )
  unfolding do_open connect_server
  do_open_refused a rounds w h = ground arith

  -- The client when the loop begins.
  abbrev started : ℕ → World S → World S
  started fd w = record w {
    client = record w.client {
      server_fd = some fd;
      is_open = true;
      cmd = ClientCmd.idle;
      ready_sync = true;
      alive_time = w.now;
    };
  }

  connect_server_works :
      (a : Attempt) (c : Client) (fd : ℕ)
      → a.socket ≡ some fd
      → (connect_server a c).0 ≡ true
      → connect_server a c ≡ (true, record c { server_fd = some fd })
  unfolding connect_server
  connect_server_works a c fd socket h = ground arith

  do_open_connected :
      (a : Attempt) (rounds : List Round) (w : World S) (fd : ℕ)
      → a.socket ≡ some fd
      → (connect_server a w.client).0 ≡ true
      → do_open json port a rounds w
        ≡ run_session json port rounds
            (record w { client = record w.client { server_fd = some fd } })
  unfolding do_open
  do_open_connected a rounds w fd socket h =
      let works = connect_server_works a w.client fd socket h in rw works

  -- What follows the greeting and the loop.
  run_session_ends :
      (rounds : List Round) (w g v : World S) (b : Bool) (s1 s2 : S)
      → greet json (record w {
        client = record w.client { is_open = true; cmd = ClientCmd.idle; ready_sync = true };
      })
        ≡ done (tt, g)
      → watch (record g { client = record g.client { alive_time = g.now } })
        ≡ done (tt, record g { client = record g.client { alive_time = g.now } })
      → session_loop json port rounds (record g { client = record g.client { alive_time = g.now } })
        ≡ done (tt, v)
      → port.send_stop v.snap ≡ done (b, s1)
      → port.snap_close s1 ≡ done (tt, s2)
      → run_session json port rounds w
        ≡ done (
          tt,
          record v { client = record v.client { server_fd = none; is_open = false }; snap = s2 },
        )
  unfolding do_stop do_set_alive
  run_session_ends rounds w g v b s1 s2 greets watches loops stops closes = ground arith

  -- A whole session with a phone that accepts the connection and then falls silent, when nobody
  -- gives a command, the two descriptors have room in an fd_set, the socket takes what is sent and the calls of the player return: four
  -- greetings and one heartbeat each turn go out, and at the first turn at which 5.001 seconds
  -- have passed since the connection was made the call returns; the player has been stopped and
  -- closed, the socket is closed and `is_open` is false.
  pub do_open_silence :
      (a : Attempt) (early : List Round) (late : Round) (rest : List Round) (w : World S) (fd : ℕ)
      (b : Bool) (s1 s2 : S)
      → a.socket ≡ some fd
      → (connect_server a w.client).0 ≡ true
      → fits_set fd ≡ true
      → fits_set (get w.wake_fd) ≡ true
      → IsNormal w.now
      → AllEarly w.now early
      → Quiet w.now late
      → 5_001_000_000 ≤ elapsed w.now late
      → AcceptsAll
          (greeting json w ++ repeat (suc (length early)) (json.write alive_fields))
          w.writes
      → port.send_stop w.snap ≡ done (b, s1)
      → port.snap_close s1 ≡ done (tt, s2)
      → (w' : World S) × (do_open json port a (early ++ late ∷ rest) w ≡ done (tt, w'))
        × (w'.out
            ≡ w.out
              ++ frames (greeting json w ++ repeat (suc (length early)) (json.write alive_fields)))
        × (w'.is_open ≡ false)
        × (w'.server_fd ≡ none)
        × (w'.snap ≡ s2)
  unfolding do_open do_stop do_set_alive
  do_open_silence a early late rest w fd b s1 s2 socket connected room room' n all q over takes
        stops closes =
      let beats : List (List ℕ) = repeat (suc (length early)) (json.write alive_fields) in
      let on : World S = record w {
        client = record w.client {
          server_fd = some fd;
          is_open = true;
          cmd = ClientCmd.idle;
          ready_sync = true;
        };
      } in
      let (writes, greets, more) = greet_accepted json beats on fd refl takes in
      let begun : World S = record (started fd w) {
        out = w.out ++ frames (greeting json w);
        writes = writes;
      } in
      let (v, loops, out, same_fd, same_snap, _) =
        session_loop_silence json port early late rest begun fd refl n all q over more in
      let ended : World S = record v {
        client = record v.client { server_fd = none; is_open = false };
        snap = s2;
      } in
      (
        ended,
        do_open_connected a (early ++ late ∷ rest) w fd socket connected
            ∙ run_session_ends (early ++ late ∷ rest)
                (record w { client = record w.client { server_fd = some fd } })
                (record on { out = w.out ++ frames (greeting json w); writes = writes }) v b s1 s2
                greets (ground arith) loops (ap port.send_stop same_snap ∙ stops) closes,
        out ∙ simp (append_assoc, append-nil),
        refl,
        refl,
        refl,
      )
