-- ===== src/Examples/Channel.antt =====
-- Runs of the client's threads.
use lightning_cast_endpoint.Base.{refl, true}
use lightning_cast_endpoint.Client.Commands.{open_server, close_server}
use lightning_cast_endpoint.Client.Channel.{
  connecting, selecting, free, in_open, in_close, Threads, init, command, finish, Work, Peer,
  Opening, work, opening, here, later, Running, now, next_work, next_peer, next_open,
}
use lightning_cast_endpoint.Client.Channel.Safety.{Inv, channel-Inv}

-- `Open` has asked, and the thread connects.
abbrev asked : Threads
asked = record (command open_server init) { server = in_open }

abbrev to_asked : Running init asked
to_asked = next_open (next_open now (Opening.open_clear refl refl)) (Opening.open_asks refl)

abbrev in_connect : Threads
in_connect = record asked { worker = connecting }

abbrev to_connect : Running init in_connect
to_connect = next_work to_asked (Work.handle_open refl refl)

abbrev in_session : Threads
in_session = record (finish (record in_connect { fd_open = true; is_open = true })) {
  worker = selecting;
  server = free;
}

abbrev to_session : Running init in_session
to_session =
    next_open
      (next_work
        (next_work (next_work (next_peer to_connect (Peer.connect_works refl)) (Work.announce refl))
          (Work.finish_open refl))
        (Work.loop_on refl refl))
      (Opening.open_returns refl refl refl)

-- A second `Open` finds the client open and closes it first.
abbrev reopens : Threads
reopens = record (command close_server in_session) { woken = true; server = in_close }

abbrev to_reopens : Running init reopens
to_reopens =
    next_open (next_open to_session (Opening.open_busy refl refl)) (Opening.open_closes refl)

channel-Inv_example : Inv in_connect
channel-Inv_example = channel-Inv (
    later
      (later (later here (opening (Opening.open_clear refl refl)))
        (opening (Opening.open_asks refl)))
      (work (Work.handle_open refl refl)))
