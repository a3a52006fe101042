-- ===== src/Examples/Handshake.antt =====
-- A phone that takes over from another one, at concrete inputs.
use lightning_cast_endpoint.Base.{
  ℕ, ◌==◌, if◌then◌else◌, ◌≡◌, refl, true, false, List, [], ◌∷◌, ◌++◌, none, some, arith, done,
}
use lightning_cast_endpoint.Wire.Header.{frame, store_header}
use lightning_cast_endpoint.Wire.Send.{wrote}
use lightning_cast_endpoint.Wire.Receive.{ReadEvent, arrived, stream}
use lightning_cast_endpoint.Util.EventFd.{make_socket_non_blocking, write}
use lightning_cast_endpoint.Client.State.{World, SnapPort}
use lightning_cast_endpoint.Client.Session.{Attempt}
use lightning_cast_endpoint.Client.Calls.{open_call}
use lightning_cast_endpoint.Client.Calls.Opened.{opened, closed_with}
use lightning_cast_endpoint.Client.Reopening.{open_call_playing}
use lightning_cast_endpoint.Server.State.{Connection}
use lightning_cast_endpoint.Server.Loop.{Loop, Round, enter_loop, handle}
use lightning_cast_endpoint.Server.Turn.{handle_handshake}
use lightning_cast_endpoint.Server.Handlers.{open_fields}
use lightning_cast_endpoint.Server.Handshake.{session}
use lightning_cast_endpoint.Snapcast.State.{Snap}
use lightning_cast_endpoint.Snapcast.Calls.{
  snap_port, send_stop, snap_close, process_send, stop_fields,
}
use lightning_cast_endpoint.Examples.Data.{plain_json, idle_snap, world, wake}

abbrev port : SnapPort Snap
port = snap_port plain_json 9

abbrev unknown : Attempt
unknown = record {
  socket = some 7;
  host_known = false;
  connects = false;
  flags = none;
  sets = λ flags. true;
}

abbrev there : Attempt
there = record unknown { host_known = true; connects = true; flags = some 2 }

-- The address 42 is there, no other is.
abbrev attempts : List ℕ → Attempt
attempts [] = unknown
attempts (a ∷ rest) = if a == 42 then there else unknown

abbrev in_session : World Snap
in_session = record world { client = record world.client { is_open = true } }

abbrev silent : Connection
silent = record { out = []; writes = wrote 100 ∷ []; incoming = [] }

abbrev closed_snap : ℕ → Snap
closed_snap n = record idle_snap { ready_sync = true; wake_fd = record { fd = 3; counter = n } }

-- The server's loop, with the phone on descriptor 6.
abbrev listening : Loop (World Snap)
listening = record (enter_loop in_session wake 5 (λ j. silent)) {
  master = 6 ∷ 3 ∷ 5 ∷ [];
  fdmax = 6;
}

abbrev phone_speaks : Round
phone_speaks = record {
  works = true;
  ready = 6 ∷ [];
  accepts = none;
  arrives = λ j. arrived 0 (0 ∷ 152 ∷ 118 ∷ []) ∷ arrived 0 (0 ∷ 0 ∷ 2 ∷ 1 ∷ 42 ∷ 0 ∷ 0 ∷ []) ∷ [];
}

handle_handshake_example :
    (t : Loop (World Snap)) × (handle plain_json
        (open_call plain_json port attempts)
        (phone_speaks ∷ [])
        listening
      ≡ handle plain_json (open_call plain_json port attempts) [] t)
    × (t.cast_client
        ≡ opened plain_json port attempts
            (42 ∷ [])
            (closed_with plain_json port (closed_snap 2) in_session))
    × (t.cast_client.is_open ≡ true)
    × ((t.sockets 6).out ≡ [] ++ frame (plain_json.write (open_fields true)))
    × (stream (t.sockets 6).incoming ≡ 0 ∷ 0 ∷ [])
    × (t.master ≡ 6 ∷ 3 ∷ 5 ∷ [])
    × (t.stop ≡ false)
unfolding frame store_header send_stop snap_close process_send write make_socket_non_blocking
handle_handshake_example =
    handle_handshake plain_json port attempts phone_speaks [] 6 (1 ∷ 42 ∷ []) (0 ∷ 0 ∷ []) (42 ∷ [])
      (1 ∷ 42 ∷ []) listening (closed_with plain_json port (closed_snap 2) in_session) refl refl
      refl (omega arith) (omega arith) (omega arith)
      (session 7 (closed_snap 1) (closed_snap 2) refl refl (false, idle_snap, refl, refl)
        (false, closed_snap 1, refl, refl))
      (omega arith) refl refl refl refl tt

-- The answer of the player.
abbrev answer : List ReadEvent
answer =
    arrived 0 (0 ∷ 152 ∷ 118 ∷ 0 ∷ 0 ∷ 0 ∷ 9 ∷ 0 ∷ 0 ∷ 152 ∷ 118 ∷ 0 ∷ 0 ∷ 0 ∷ 1 ∷ [])
    ∷ arrived 2 []
    ∷ []

abbrev playing : World Snap
playing = record in_session {
  snap = record idle_snap { server_fd = some 5; writes = wrote 100 ∷ []; turns = answer ∷ [] };
}

open_call_playing_example :
    (s' : Snap) × (open_call plain_json port attempts (42 ∷ []) playing
      ≡ done (
        true,
        opened plain_json port attempts (42 ∷ []) (closed_with plain_json port s' playing),
      ))
    × (s'.out ≡ [] ++ frame (plain_json.write (stop_fields plain_json)))
    × (s'.server_fd ≡ none)
unfolding frame store_header make_socket_non_blocking
open_call_playing_example =
    open_call_playing plain_json 9 attempts (42 ∷ []) (2 ∷ []) [] (2 ∷ []) 7 5 answer [] playing
      refl refl refl refl refl tt (omega arith) refl refl refl
