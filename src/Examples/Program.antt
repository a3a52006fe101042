-- ===== src/Examples/Program.antt =====
-- Runs of the whole program.
use lightning_cast_endpoint.Base.{◌≤◌, ◌⊎◌, inl, ◌≡◌, refl, true, false, [], arith, if◌then◌else◌}
use lightning_cast_endpoint.Client.Commands.{exit}
use lightning_cast_endpoint.Client.Channel
use lightning_cast_endpoint.Snapcast.State.{exiting}
use lightning_cast_endpoint.Snapcast.Interleaving
use lightning_cast_endpoint.Publisher.Lifecycle
use lightning_cast_endpoint.Program.{
  joining_publisher, returned, typing, Program, start, ThreadStep, MainStep, run, main_step, Steps,
  here, later,
}
use lightning_cast_endpoint.Program.Sound.{Sound, program-Sound, returned_ended}
use lightning_cast_endpoint.Program.Ending.{thread, main}
use lightning_cast_endpoint.Program.Ending.Quit.{quit_ends}
use lightning_cast_endpoint.Program.Decided.{Ends, Never, joins_decided}
use lightning_cast_endpoint.Program.Ending.Enabled.{Enabled, Closings, done, then_step, steps}

-- All threads are started and the service is published.
abbrev pub at_keys : Program
at_keys = record start {
  publisher = record Lifecycle.new {
    svr = Lifecycle.server;
    starts = true;
    thread = Lifecycle.sleeping;
  };
  main = typing;
}

abbrev pub to_keys : Steps start at_keys
to_keys =
    later
      (later
        (later
          (later
            (later (later here (main_step (MainStep.start_publisher refl)))
              (main_step (MainStep.start_snap refl)))
            (main_step (MainStep.start_client refl)))
          (main_step (MainStep.start_server refl)))
        (run (ThreadStep.publishes (omega arith) (Lifecycle.Step.registers refl) refl)))
      (run (ThreadStep.publishes (omega arith) (Lifecycle.Step.registered refl) refl))

-- Key q: main gives the commands, unregisters the service and waits for the publisher's thread.
abbrev all_told : Program
all_told = record at_keys {
  client = record (Channel.command exit Channel.init) { main = Channel.over };
  snap = Interleaving.command exiting Interleaving.init;
  server_woken = true;
  publisher = record at_keys.publisher {
    svr = Lifecycle.null;
    stops = 1;
    stop_thread = true;
    main = Lifecycle.joining;
  };
  main = joining_publisher;
}

abbrev to_told : Steps start all_told
to_told =
    later
      (later
        (later
          (later
            (later
              (later
                (later (later to_keys (main_step (MainStep.quits refl))) (
                  main_step
                    (MainStep.client_exits refl refl refl (Channel.Exiting.exit_clear refl refl))))
                (main_step (MainStep.client_exits refl refl refl (Channel.Exiting.exit_asks refl))))
              (main_step (MainStep.client_told refl refl)))
            (main_step (MainStep.snap_exits refl)))
          (main_step (MainStep.server_exits refl)))
        (main_step (MainStep.unregisters refl (Lifecycle.Step.unregister refl refl) refl)))
      (main_step (MainStep.asks refl (Lifecycle.Step.asks refl) refl))

-- Every thread ends, and main returns.
abbrev at_end : Program
at_end = record all_told {
  client = record (Channel.finish all_told.client) { worker = Channel.exited };
  snap = record (Interleaving.finish all_told.snap) { worker = Interleaving.exited };
  server_woken = false;
  server_ended = true;
  publisher = record all_told.publisher { thread = Lifecycle.ended; main = Lifecycle.joined };
  main = returned;
}

abbrev to_end : Steps start at_end
to_end =
    later
      (later
        (later
          (later
            (later
              (later
                (later
                  (later to_told
                    (run (ThreadStep.publishes (omega arith) (Lifecycle.Step.ends refl refl) refl)))
                  (main_step (MainStep.joins_publisher refl (Lifecycle.Step.joins refl refl) refl)))
                (run
                  (ThreadStep.snap_works (omega arith) (Interleaving.Work.handle_exit refl refl))))
              (main_step (MainStep.joins_snap refl refl)))
            (run (
              ThreadStep.client_works (omega arith) refl refl
                (Channel.Work.handle_exit refl refl))))
          (main_step (MainStep.joins_client refl refl)))
        (run (ThreadStep.server_ends (omega arith) refl refl refl refl)))
      (main_step (MainStep.joins_server refl refl))

-- The same run from the keys on.
abbrev whole_run : Closings at_keys at_end
whole_run =
    let told : Closings at_keys all_told =
      then_step
        (then_step
          (then_step
            (then_step
              (then_step
                (then_step
                  (then_step (then_step done (main (MainStep.quits refl))) (
                    main (
                      MainStep.client_exits refl refl refl (Channel.Exiting.exit_clear refl refl))))
                  (main (MainStep.client_exits refl refl refl (Channel.Exiting.exit_asks refl))))
                (main (MainStep.client_told refl refl)))
              (main (MainStep.snap_exits refl)))
            (main (MainStep.server_exits refl)))
          (main (MainStep.unregisters refl (Lifecycle.Step.unregister refl refl) refl)))
        (main (MainStep.asks refl (Lifecycle.Step.asks refl) refl)) in
    then_step
      (then_step
        (then_step
          (then_step
            (then_step
              (then_step
                (then_step
                  (then_step told (
                    thread (ThreadStep.publishes (omega arith) (Lifecycle.Step.ends refl refl) refl)
                      refl))
                  (main (MainStep.joins_publisher refl (Lifecycle.Step.joins refl refl) refl)))
                (thread
                  (ThreadStep.snap_works (omega arith) (Interleaving.Work.handle_exit refl refl))
                  refl))
              (main (MainStep.joins_snap refl refl)))
            (thread
              (ThreadStep.client_works (omega arith) refl refl (Channel.Work.handle_exit refl refl))
              refl))
          (main (MainStep.joins_client refl refl)))
        (thread (ThreadStep.server_ends (omega arith) refl refl refl refl) refl))
      (main (MainStep.joins_server refl refl))

quit_ends_example : (steps whole_run ≤ 33) × ((at_end.main ≡ returned) ⊎ Enabled at_end)
quit_ends_example =
    quit_ends to_keys
      (inl (record {
        from = omega arith;
        before = omega arith;
        no_open = refl;
        behind = refl;
        client = inl (inl refl, refl, refl, λ e. cc);
        snap = inl (omega arith, refl, refl);
        no_message = refl;
        published = refl;
      }))
      whole_run

joins_decided_example : Ends all_told ⊎ Never all_told
joins_decided_example = joins_decided all_told to_told (omega arith) refl (λ e. cc) refl refl

sixteen_steps : steps whole_run ≡ 16
unfolding steps
sixteen_steps = refl

returned_ended_example :
    ((at_end.client.worker ≡ Channel.exited)
      × (at_end.snap.worker ≡ Interleaving.exited)
      × (at_end.server_ended ≡ true)
      × (at_end.publisher.thread ≡ Lifecycle.ended))
    × ((at_end.client_todo ≡ []) × (at_end.server_todo ≡ []) × (at_end.main_todo ≡ []))
    × ((at_end.by_client ≡ Interleaving.free)
        × (at_end.by_server ≡ Interleaving.free)
        × (at_end.by_main ≡ Interleaving.free))
    × ((at_end.client.is_open ≡ false)
        × (at_end.client.fd_open ≡ false)
        × (at_end.snap.fd_open ≡ false))
    × ((at_end.publisher.early ≡ true)
        ⊎ (at_end.publisher.stops ≡ (if at_end.publisher.starts then 1 else 0)))
returned_ended_example = returned_ended to_end refl

program-Sound_example : Sound at_keys
program-Sound_example = program-Sound to_keys
