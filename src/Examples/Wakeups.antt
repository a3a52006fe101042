-- ===== src/Examples/Wakeups.antt =====
-- Sleeping threads of the client, in concrete runs.
use lightning_cast_endpoint.Base.{◌≡◌, refl, true, false}
use lightning_cast_endpoint.Client.Commands.{idle, open_server, close_server}
use lightning_cast_endpoint.Client.Channel.{
  init, command, finish, announced, testing, in_open, in_close, Work, Peer, Opening, Exiting,
}
use lightning_cast_endpoint.Client.Channel.Notify.{
  Sleepers, awake, Inner, Serving, Leaving, Trace, stay, inner, serving, leaving,
}
use lightning_cast_endpoint.Client.Channel.Wakeups.{finished_awake}
use lightning_cast_endpoint.Client.Channel.Missed.{Quiet, wakeup_missed}

-- `Open` waits, and the connection has been announced.
abbrev told : Sleepers
told = record awake {
  threads = record (command open_server init) {
    server = in_open;
    fd_open = true;
    is_open = true;
    worker = announced;
  };
  server_sleeps = true;
}

abbrev to_told : Trace awake told
to_told =
    inner
      (inner
        (inner
          (serving (serving stay (Serving.serves refl (Opening.open_clear refl refl)))
            (Serving.serves refl (Opening.open_asks refl)))
          (Inner.works (Work.handle_open refl refl) refl))
        (Inner.others (Peer.connect_works refl)))
      (Inner.works (Work.announce refl) refl)

-- The command is finished, and the call can return.
abbrev answered : Sleepers
answered = record told {
  threads = record (finish told.threads) { worker = testing };
  server_sleeps = false;
}

finished_awake_example : (answered.server_sleeps ≡ false) × (answered.main_sleeps ≡ false)
finished_awake_example =
    finished_awake (inner to_told (Inner.wakes_server (Work.finish_open refl) refl refl)) refl refl

-- `Exit` finds the client open and closes it.
abbrev leaves_it : Sleepers
leaves_it = record told {
  threads = record (command close_server told.threads) { woken = true; main = in_close };
  main_sleeps = true;
}

abbrev to_leaves_it : Trace awake leaves_it
to_leaves_it =
    leaving (leaving to_told (Leaving.leaves refl (Exiting.exit_busy refl refl)))
      (Leaving.leaves refl (Exiting.exit_closes refl))

wakeup_missed_example :
    (t : Sleepers) × Inner leaves_it t
    × (t.server_sleeps ≡ false)
    × (t.threads.cmd ≡ idle)
    × (t.threads.ready_sync ≡ true)
    × ((u : Sleepers) → Quiet t u → (u.main_sleeps ≡ true) × (u.threads.main ≡ in_close))
wakeup_missed_example = wakeup_missed to_leaves_it refl refl refl refl
