-- ===== src/Examples/Unheard.antt =====
-- Sleeping threads of the player's component, in a concrete run.
use lightning_cast_endpoint.Base.{◌≡◌, inl, ◌⊎◌, refl, true, false}
use lightning_cast_endpoint.Snapcast.State.{opening, exiting}
use lightning_cast_endpoint.Snapcast.Interleaving.{
  waiting, selecting, free, in_reply, init, command, finish, Work, Player, Calling,
}
use lightning_cast_endpoint.Snapcast.Interleaving.Notify.{
  CondSleepers, all_awake, Notified, CondTurn, CondExit, CondTrace, start, turn, CondTurns,
}
use lightning_cast_endpoint.Snapcast.Interleaving.Unheard.{asleep_unneeded, exit_unheard}

-- `Open` finds the thread asleep, the player is there, and `Open` returns.
abbrev in_session : CondSleepers
in_session = record all_awake {
  threads = record (finish (record (command opening init) { ready = false; fd_open = true })) {
    worker = selecting;
    caller = free;
  };
}

abbrev to_session : CondTrace all_awake in_session
to_session =
    turn
      (turn
        (turn
          (turn
            (turn
              (turn
                (turn (turn start (CondTurn.works refl (Work.handle_none refl refl))) (
                  CondTurn.commands refl (Calling.call_open refl) refl
                    (Notified.worker_wakes refl)))
                (CondTurn.works refl (Work.wake_up refl refl)))
              (CondTurn.works refl (Work.handle_open refl refl)))
            (CondTurn.plays (Player.connect_works refl) refl))
          (CondTurn.works refl (Work.finish_open refl)))
        (CondTurn.works refl (Work.loop_on refl refl)))
      (CondTurn.calls refl (Calling.return_open refl refl refl) refl)

-- A request, and the connection breaks before the answer: both sleep.
abbrev both_sleep : CondSleepers
both_sleep = record {
  threads = record in_session.threads { caller = in_reply; worker = waiting; fd_open = false };
  worker_sleeps = true;
  caller_sleeps = true;
}

abbrev to_both : CondTrace all_awake both_sleep
to_both =
    turn
      (turn
        (turn
          (turn (turn to_session (CondTurn.calls refl (Calling.call_send refl (inl refl)) refl))
            (CondTurn.caller_waits refl refl))
          (CondTurn.plays (Player.breaks refl) refl))
        (CondTurn.works refl (Work.tear_down refl)))
      (CondTurn.works refl (Work.handle_none refl refl))

asleep_unneeded_example :
    ((both_sleep.caller_sleeps ≡ false)
      ⊎ ((both_sleep.threads.caller ≡ in_reply) × (both_sleep.threads.pending ≡ false)))
    × ((both_sleep.worker_sleeps ≡ false)
        ⊎ ((both_sleep.threads.worker ≡ waiting)
            × ((both_sleep.threads.ready ≡ false)
                ⊎ ((both_sleep.threads.cmd ≡ exiting)
                    × (both_sleep.threads.caller ≡ in_reply)
                    × (both_sleep.threads.pending ≡ false)))))
asleep_unneeded_example = asleep_unneeded to_both

exit_unheard_example :
    (t : CondSleepers) × CondExit both_sleep t
    × (t.threads.cmd ≡ exiting)
    × (t.threads.ready ≡ true)
    × ((u : CondSleepers)
        → CondTurns t u
        → (u.worker_sleeps ≡ true) × (u.threads.worker ≡ waiting) × (u.threads.cmd ≡ exiting))
exit_unheard_example = exit_unheard to_both refl refl
