-- ===== src/Examples/Snapcast.antt =====
-- The player's component, at concrete inputs.
use lightning_cast_endpoint.Base.{◌<◌, ◌≡◌, ◌⊎◌, refl, true, List, [], ◌∷◌}
use lightning_cast_endpoint.Wire.Receive.{ReadEvent, arrived}
use lightning_cast_endpoint.Snapcast.State.{opening, closing}
use lightning_cast_endpoint.Snapcast.Interleaving.{
  selecting, connecting, free, in_open, in_close, Threads, init, command, finish, Work, Player,
  Calling, work, player, calling, Steps, here, later, Running, now, next_work, next_player,
  next_call,
}
use lightning_cast_endpoint.Snapcast.Interleaving.Safety.{Inv, reachable-Inv}
use lightning_cast_endpoint.Snapcast.Interleaving.Close.{rank, Nearer, Proceeds, close_ends}

-- A connected player that answers {1, 1}: the command start, with the result 1.
abbrev answer_bytes : List ReadEvent
answer_bytes =
    arrived 0 (0 ∷ 152 ∷ 118 ∷ 0 ∷ 0 ∷ 0 ∷ 9 ∷ 0 ∷ 0 ∷ 152 ∷ [])
    ∷ arrived 118 (0 ∷ 0 ∷ 0 ∷ 1 ∷ 1 ∷ [])
    ∷ []

-- `Open` from the constructor on, up to the session's select.
abbrev asked : Threads
asked = record (command opening init) { caller = in_open }

abbrev in_connect : Threads
in_connect = record asked { worker = connecting }

abbrev in_select : Threads
in_select = record (finish (record asked { fd_open = true })) { worker = selecting }

abbrev connects : Running init in_connect
connects = next_work (next_call now (Calling.call_open refl)) (Work.handle_open refl refl)

abbrev opens : Running init in_select
opens =
    next_work (next_work (next_player connects (Player.connect_works refl)) (Work.finish_open refl))
      (Work.loop_on refl refl)

-- `Open` has returned.
abbrev listening : Threads
listening = record in_select { caller = free }

abbrev listens : Running init listening
listens = next_call opens (Calling.return_open refl refl refl)

abbrev to_select : Steps init in_select
to_select =
    later
      (later
        (later
          (later (later here (calling (Calling.call_open refl)))
            (work (Work.handle_open refl refl)))
          (player (Player.connect_works refl)))
        (work (Work.finish_open refl)))
      (work (Work.loop_on refl refl))

reachable-Inv_example : Inv in_select
reachable-Inv_example = reachable-Inv to_select

-- `Close` during the session.
abbrev closes : Threads
closes = record (command closing listening) { woken = true; caller = in_close }

abbrev to_closes : Running init closes
to_closes = next_call listens (Calling.call_close refl)

close_ends_example :
    (closes.caller ≡ in_close)
    × Proceeds closes
    × (rank closes.worker < 6)
    × ((t : Threads) → Work closes t ⊎ Player closes t → Nearer closes t)
close_ends_example = close_ends to_closes refl
