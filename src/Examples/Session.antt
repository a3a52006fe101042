-- ===== src/Examples/Session.antt =====
-- A session of the client, at concrete inputs.
use lightning_cast_endpoint.Base.{
  repeat, ◌≡◌, refl, true, false, List, [], ◌∷◌, ◌++◌, some, none, arith, done,
}
use lightning_cast_endpoint.Wire.Header.{frame, store_header}
use lightning_cast_endpoint.Wire.Send.{WriteResult, wrote, write_loop}
use lightning_cast_endpoint.Wire.RoundTrip.{frames}
use lightning_cast_endpoint.Util.EventFd.{make_socket_non_blocking, write}
use lightning_cast_endpoint.Util.Time.{TimeSpec}
use lightning_cast_endpoint.Client.Commands.{ClientCmd}
use lightning_cast_endpoint.Client.State.{World, SnapPort}
use lightning_cast_endpoint.Client.Send.{alive_fields, remote_fields}
use lightning_cast_endpoint.Client.Session.{
  Attempt, connect_server, check_cast_server_alive, Round, expired, do_open,
}
use lightning_cast_endpoint.Client.Lifecycle.{check_cast_server_alive_lem, do_open-closed, greeting}
use lightning_cast_endpoint.Client.Complete.{do_open_refused, do_open_silence}
use lightning_cast_endpoint.Snapcast.State.{Snap}
use lightning_cast_endpoint.Snapcast.Calls.{snap_port, send_stop, snap_close, process_send}
use lightning_cast_endpoint.Examples.Data.{plain_json, idle_snap, world}

-- Last heard of at 100.9 seconds, it is 101 seconds.
check_cast_server_alive_lem_example : check_cast_server_alive world ≡ done (true, world)
check_cast_server_alive_lem_example =
    check_cast_server_alive_lem world (omega arith) (omega arith) (omega arith) (omega arith)

abbrev quiet_at : TimeSpec → Round
quiet_at t = record {
  cmd = ClientCmd.idle;
  cmd_late = ClientCmd.idle;
  wakes = 0;
  arrives = [];
  clock = t;
  select = expired;
}

abbrev soon : Round
soon = quiet_at (record { tv_sec = 103; tv_nsec = 0 })

abbrev late : Round
late = quiet_at (record { tv_sec = 107; tv_nsec = 500_000_000 })

abbrev port : SnapPort Snap
port = snap_port plain_json 9

-- A socket that takes 100 bytes at a time.
abbrev generous : List WriteResult
generous = repeat 8 (wrote 100)

abbrev ready_world : World Snap
ready_world = record world { writes = generous }

abbrev nobody : Attempt
nobody = record {
  socket = some 7;
  host_known = false;
  connects = false;
  flags = none;
  sets = λ flags. true;
}

abbrev somebody : Attempt
somebody = record nobody { host_known = true; connects = true; flags = some 2 }

abbrev refused_world : World Snap
refused_world = record world {
  client = record world.client {
    server_fd = none;
    is_open = false;
    cmd = ClientCmd.idle;
    ready_sync = true;
  };
}

do_open_silence_example :
    (w' : World Snap) × (do_open plain_json port somebody (soon ∷ late ∷ []) ready_world
      ≡ done (tt, w'))
    × (w'.out
        ≡ []
          ++ frames (greeting plain_json ready_world ++ repeat 2 (plain_json.write alive_fields)))
    × (w'.is_open ≡ false)
    × (w'.server_fd ≡ none)
    × (w'.snap ≡ record idle_snap { ready_sync = true; wake_fd = record { fd = 3; counter = 1 } })
unfolding connect_server send_stop snap_close process_send frame store_header remote_fields
    write_loop make_socket_non_blocking write
do_open_silence_example =
    do_open_silence plain_json port somebody (soon ∷ []) late [] ready_world 7 false idle_snap
      (record idle_snap { ready_sync = true; wake_fd = record { fd = 3; counter = 1 } }) refl refl
      refl refl (omega arith)
      (
        record {
          no_command = refl;
          timeout = refl;
          normal = omega arith;
          after = omega arith;
          range = omega arith;
        },
        omega arith,
        tt,
      )
      (record {
        no_command = refl;
        timeout = refl;
        normal = omega arith;
        after = omega arith;
        range = omega arith;
      })
      (omega arith) (tt, (tt, (tt, (tt, (tt, (tt, tt)))))) refl refl

do_open-closed_example : (refused_world.is_open ≡ false) × (refused_world.server_fd ≡ none)
unfolding connect_server
do_open-closed_example =
    do_open-closed plain_json port nobody [] world refused_world tt
      (do_open_refused plain_json port nobody [] world refl)
