-- ===== src/Examples/Contract.antt =====
-- The abstract player, in concrete runs.
use lightning_cast_endpoint.Base.{◌≡◌, refl, true, false, [], ◌∷◌, some, done, pos}
use lightning_cast_endpoint.Wire.Header.{frame, store_header}
use lightning_cast_endpoint.Wire.Send.{wrote, write_loop}
use lightning_cast_endpoint.Util.EventFd.{make_socket_non_blocking, write}
use lightning_cast_endpoint.Client.Commands.{ClientCmd, command}
use lightning_cast_endpoint.Client.State.{World, SnapPort}
use lightning_cast_endpoint.Client.Send.{process_send, remote_fields, send_remote_command}
use lightning_cast_endpoint.Client.Dispatch.{do_stop, do_set_alive, dispatch, do_parse}
use lightning_cast_endpoint.Client.Session.{
  Attempt, connect_server, Round, expired, greet, session_loop, do_open,
}
use lightning_cast_endpoint.Client.Contract.{
  Contract, LinkStep, Asked, do_parse-LinkStep, do_open-unlinked,
}
use lightning_cast_endpoint.Snapcast.State.{Snap}
use lightning_cast_endpoint.Snapcast.Calls
use lightning_cast_endpoint.Snapcast.Calls.{snap_port, send_stop, snap_close}
use lightning_cast_endpoint.Snapcast.Link.{linked, snap_port-Contract}
use lightning_cast_endpoint.Examples.Data.{plain_json, idle_snap, world}

abbrev port : SnapPort Snap
port = snap_port plain_json 9

-- A stop message, when there is nothing to stop.
abbrev stopped : World Snap
stopped = record world {
  snap = record idle_snap { ready_sync = true; wake_fd = record { fd = 3; counter = 1 } };
}

stop_message : do_parse plain_json port (10 ∷ 42 ∷ []) world ≡ done (true, stopped)
unfolding do_parse dispatch command do_stop send_stop Calls.process_send snap_close write
stop_message = refl

do_parse-LinkStep_example :
    LinkStep (Asked port linked world) (command (pos 10)) (linked idle_snap) (linked stopped.snap)
do_parse-LinkStep_example =
    do_parse-LinkStep plain_json port linked (snap_port-Contract plain_json 9) (10 ∷ 42 ∷ [])
      (10 ∷ 42 ∷ []) (pos 10) world stopped true refl refl stop_message

-- A session that another thread closes at once.
abbrev somebody : Attempt
somebody = record {
  socket = some 7;
  host_known = true;
  connects = true;
  flags = some 2;
  sets = λ flags. true;
}

abbrev at_once : Round
at_once = record {
  cmd = ClientCmd.close_server;
  cmd_late = ClientCmd.close_server;
  wakes = 1;
  arrives = [];
  clock = record { tv_sec = 101; tv_nsec = 5 };
  select = expired;
}

abbrev generous : World Snap
generous = record world { writes = wrote 100 ∷ wrote 100 ∷ wrote 100 ∷ wrote 100 ∷ [] }

abbrev ended : World Snap
ended = elim (do_open plain_json port somebody (at_once ∷ []) generous) [
  | done (u, t) ↦ t
  | _ ↦ generous
]

do_open-unlinked_example : linked ended.snap ≡ false
unfolding do_open connect_server greet session_loop do_set_alive do_stop send_stop snap_close
    send_remote_command remote_fields process_send Calls.process_send write_loop frame store_header
    make_socket_non_blocking write
do_open-unlinked_example =
    do_open-unlinked plain_json port linked (snap_port-Contract plain_json 9) somebody
      (at_once ∷ []) generous ended tt refl refl
