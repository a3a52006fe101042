-- ===== src/Examples/Hangs.antt =====
-- Runs of the whole program after which main does not return.
use lightning_cast_endpoint.Base.{◌≡◌, ◌≢◌, refl, inl, inr, true, false, [], ◌∷◌, arith}
use lightning_cast_endpoint.Client.Commands.{open_server, exit}
use lightning_cast_endpoint.Client.Channel
use lightning_cast_endpoint.Client.Requests.{
  open_player, send_start, send_stop, close_player, play, halt, Follows, Unsent, Brings,
}
use lightning_cast_endpoint.Snapcast.State.{opening, exiting}
use lightning_cast_endpoint.Snapcast.Interleaving
use lightning_cast_endpoint.Program.{
  exiting_client, exiting_snap, exiting_server, returned, Program, start, ThreadStep, MainStep, run,
  main_step, Steps, here, later,
}
use lightning_cast_endpoint.Program.Merged.{Mute, answers_merged}
use lightning_cast_endpoint.Program.Unanswered.{answer_lost}
use lightning_cast_endpoint.Program.Held as Held
use lightning_cast_endpoint.Program.Late.{exit_hangs}
use lightning_cast_endpoint.Program.Hangs.{quit_hangs, begun, goes, absent_player_hangs}
use lightning_cast_endpoint.Examples.Program.{at_keys, to_keys}

-- A phone asks for a connection, and q is pressed while the client's thread connects.
abbrev quitting : Program
quitting = record at_keys {
  client = record (Channel.command open_server Channel.init) {
    worker = Channel.connecting;
    server = Channel.in_open;
    main = Channel.was_closed;
  };
  server_reads = true;
  main = exiting_client;
}

abbrev at_message : Program
at_message = record at_keys { server_reads = true }

abbrev to_message : Steps start at_message
to_message = later to_keys (run (ThreadStep.server_begins (omega arith) refl refl))

abbrev to_quitting : Steps start quitting
to_quitting =
    later
      (later
        (later
          (later
            (later to_message (
              run (
                ThreadStep.server_opens (omega arith) refl refl refl refl
                  (Channel.Opening.open_clear refl refl))))
            (run (
              ThreadStep.server_opens (omega arith) refl refl refl refl
                (Channel.Opening.open_asks refl))))
          (run
            (ThreadStep.client_works (omega arith) refl refl (Channel.Work.handle_open refl refl))))
        (main_step (MainStep.quits refl)))
      (main_step (MainStep.client_exits refl refl refl (Channel.Exiting.exit_clear refl refl)))

-- Main gives the command, the connection is made, and the command is gone.
abbrev unheard : Program
unheard = record quitting {
  client = record (Channel.command exit quitting.client) { main = Channel.over };
}

abbrev to_unheard : Steps start unheard
to_unheard =
    later to_quitting
      (main_step (MainStep.client_exits refl refl refl (Channel.Exiting.exit_asks refl)))

never_heard : exiting_snap ≢ returned
never_heard =
    quit_hangs to_unheard (record { asked = refl; forgot = inl refl; runs = λ e. cc })
      (later
        (later
          (later
            (later here (
              run (
                ThreadStep.phone_acts (omega arith) refl refl (Channel.Peer.connect_works refl)
                  (Brings.nothing refl))))
            (run (ThreadStep.client_works (omega arith) refl refl (Channel.Work.announce refl))))
          (run (ThreadStep.client_works (omega arith) refl refl (Channel.Work.finish_open refl))))
        (main_step (MainStep.client_told refl refl)))

-- A phone is connected and asks to play, and no player is there.
abbrev in_session : Program
in_session = record at_keys {
  client = record (Channel.finish (Channel.command open_server Channel.init)) {
    fd_open = true;
    is_open = true;
    worker = Channel.selecting;
    server = Channel.in_open;
  };
  server_reads = true;
}

abbrev to_session : Steps start in_session
to_session =
    later
      (later
        (later
          (later
            (later
              (later
                (later to_message (
                  run (
                    ThreadStep.server_opens (omega arith) refl refl refl refl
                      (Channel.Opening.open_clear refl refl))))
                (run (
                  ThreadStep.server_opens (omega arith) refl refl refl refl
                    (Channel.Opening.open_asks refl))))
              (run (
                ThreadStep.client_works (omega arith) refl refl
                  (Channel.Work.handle_open refl refl))))
            (run (
              ThreadStep.phone_acts (omega arith) refl refl (Channel.Peer.connect_works refl)
                (Brings.nothing refl))))
          (run (ThreadStep.client_works (omega arith) refl refl (Channel.Work.announce refl))))
        (run (ThreadStep.client_works (omega arith) refl refl (Channel.Work.finish_open refl))))
      (run (ThreadStep.client_works (omega arith) refl refl (Channel.Work.loop_on refl refl)))

abbrev asked_to_play : Program
asked_to_play = record in_session {
  client = record in_session.client { worker = Channel.testing };
  client_todo = play;
}

abbrev to_asked : Steps start asked_to_play
to_asked = later to_session (
    run (
      ThreadStep.phone_acts (omega arith) refl refl (Channel.Peer.goes_on refl)
        (Brings.play_message refl refl refl)))

abbrev playing : Program
playing = record asked_to_play {
  snap = record (Interleaving.command opening Interleaving.init) {
    worker = Interleaving.connecting;
    caller = Interleaving.in_open;
  };
  by_client = Interleaving.in_open;
}

abbrev to_playing : Steps start playing
to_playing =
    later
      (later to_asked (
        run (
          ThreadStep.client_calls (omega arith) (Interleaving.Calling.call_open refl)
            (Follows.asks open_player (send_start ∷ []) refl refl refl refl))))
      (run (ThreadStep.snap_works (omega arith) (Interleaving.Work.handle_open refl refl)))

absent_player_hangs_example : exiting_client ≢ returned
absent_player_hangs_example = absent_player_hangs to_playing refl (
    goes
      (goes begun
        (run (ThreadStep.player_acts (omega arith) (Interleaving.Player.connect_fails refl))) refl)
      (main_step (MainStep.quits refl)) refl)

-- The player is there, and the client's thread has sent a start.
abbrev starting : Program
starting = record asked_to_play {
  snap = record (Interleaving.finish (Interleaving.command opening Interleaving.init)) {
    fd_open = true;
    worker = Interleaving.selecting;
    caller = Interleaving.in_reply;
  };
  by_client = Interleaving.in_reply;
  client_todo = send_start ∷ [];
}

abbrev to_starting : Steps start starting
to_starting =
    later
      (later
        (later
          (later
            (later to_playing
              (run (ThreadStep.player_acts (omega arith) (Interleaving.Player.connect_works refl))))
            (run (ThreadStep.snap_works (omega arith) (Interleaving.Work.finish_open refl))))
          (run (ThreadStep.snap_works (omega arith) (Interleaving.Work.loop_on refl refl))))
        (run (
          ThreadStep.client_calls (omega arith) (Interleaving.Calling.return_open refl refl refl)
            (Follows.returns open_player (send_start ∷ []) refl refl refl refl))))
      (run (
        ThreadStep.client_calls (omega arith) (Interleaving.Calling.call_send refl (inl refl))
          (Follows.asks send_start [] refl refl refl refl)))

-- Main sends a stop, and the player answers both before either thread runs again.
abbrev both_wait : Program
both_wait = record starting {
  client = record starting.client { main = Channel.was_open };
  snap = record starting.snap { pending = true; worker = Interleaving.testing };
  by_main = Interleaving.in_reply;
  main_todo = halt;
  main = exiting_client;
}

abbrev to_both_wait : Steps start both_wait
to_both_wait =
    later
      (later
        (later
          (later
            (later
              (later
                (later (later to_starting (main_step (MainStep.quits refl))) (
                  main_step
                    (MainStep.client_exits refl refl refl (Channel.Exiting.exit_busy refl refl))))
                (main_step (
                  MainStep.main_calls refl (Interleaving.Calling.call_send refl (inl refl))
                    (Follows.asks send_stop (close_player ∷ []) refl refl refl refl))))
              (run (ThreadStep.player_acts (omega arith) (Interleaving.Player.begins refl))))
            (run (ThreadStep.player_acts (omega arith) (Interleaving.Player.answers refl))))
          (run (ThreadStep.snap_works (omega arith) (Interleaving.Work.loop_on refl refl))))
        (run (ThreadStep.player_acts (omega arith) (Interleaving.Player.begins refl))))
      (run (ThreadStep.player_acts (omega arith) (Interleaving.Player.answers refl)))

answers_merged_example :
    (t : Program) × MainStep both_wait t
    × (t.by_main ≡ Interleaving.free)
    × ((u : Program) → Mute t u → (u.by_client ≡ Interleaving.in_reply) × (u.main ≢ returned))
answers_merged_example = answers_merged to_both_wait refl (λ e. cc) refl refl refl refl

-- A peer has sent the server a part of a message when q is pressed.
abbrev after_q : Program
after_q = record at_message { main = exiting_client }

-- The player hangs up before it answers the start.
abbrev cut_off : Program
cut_off = record starting { snap = record starting.snap { worker = Interleaving.tearing } }

-- The component's thread closes its socket.
abbrev closed_off : Program
closed_off = record cut_off {
  snap = record cut_off.snap { fd_open = false; worker = Interleaving.dispatching };
}

answer_lost_example :
    (closed_off.by_client ≡ Interleaving.in_reply)
    × (closed_off.snap.pending ≡ false)
    × (closed_off.main ≢ returned)
answer_lost_example =
    answer_lost
      (later to_starting
        (run (ThreadStep.player_acts (omega arith) (Interleaving.Player.breaks refl))))
      refl refl refl (λ e. cc)
      (later here (run (ThreadStep.snap_works (omega arith) (Interleaving.Work.tear_down refl))))

-- The phone hangs up, and q is pressed before the client's thread has called `Close` in doStop; no player is there.
abbrev hung_up : Program
hung_up = record in_session {
  client = record in_session.client { is_open = false; worker = Channel.stopping };
  client_todo = halt;
}

abbrev to_hung_up : Steps start hung_up
to_hung_up =
    later
      (later to_session (
        run (
          ThreadStep.phone_acts (omega arith) refl refl (Channel.Peer.breaks refl)
            (Brings.nothing refl))))
      (run (ThreadStep.client_works (omega arith) refl refl (Channel.Work.withdraw refl)))

abbrev told_late : Program
told_late = record hung_up {
  client = record (Channel.command exit hung_up.client) { main = Channel.over };
  snap = Interleaving.command exiting Interleaving.init;
  main = exiting_server;
}

abbrev to_told_late : Steps start told_late
to_told_late =
    later
      (later
        (later
          (later (later to_hung_up (main_step (MainStep.quits refl))) (
            main_step
              (MainStep.client_exits refl refl refl (Channel.Exiting.exit_clear refl refl))))
          (main_step (MainStep.client_exits refl refl refl (Channel.Exiting.exit_asks refl))))
        (main_step (MainStep.client_told refl refl)))
      (main_step (MainStep.snap_exits refl))

-- The component's thread obeys, and then the client's thread calls.
exit_hangs_example : exiting_server ≢ returned
exit_hangs_example =
    exit_hangs to_told_late
      (inr (omega arith, inl (inl (record { uncalled = λ e. cc; left = inl refl }))))
      (later
        (later
          (later here
            (run (ThreadStep.snap_works (omega arith) (Interleaving.Work.handle_exit refl refl))))
          (run (
            ThreadStep.client_unsent (omega arith) refl refl (λ e. cc)
              (Unsent.stop_unsent (close_player ∷ []) refl refl))))
        (run (
          ThreadStep.client_calls (omega arith) (Interleaving.Calling.call_close refl)
            (Follows.asks close_player [] refl refl refl refl))))
