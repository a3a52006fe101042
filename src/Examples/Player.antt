-- ===== src/Examples/Player.antt =====
-- Play and stop, from the phone's message to the player's answer.
use lightning_cast_endpoint.Base.{
  ◌≡◌, refl, false, true, List, [], ◌∷◌, ◌++◌, some, arith, done, pos, codes,
}
use lightning_cast_endpoint.Wire.Header.{frame, store_header}
use lightning_cast_endpoint.Wire.Send.{wrote}
use lightning_cast_endpoint.Wire.Receive.{ReadEvent, arrived}
use lightning_cast_endpoint.Client.State.{World}
use lightning_cast_endpoint.Client.Dispatch.{do_play}
use lightning_cast_endpoint.Client.Player.{do_play_answered}
use lightning_cast_endpoint.Snapcast.State.{Snap}
use lightning_cast_endpoint.Snapcast.Calls.{start_fields, snap_port}
use lightning_cast_endpoint.Examples.Data.{plain_json, idle_snap, world}

-- The command `n`, under every key, from the player.
abbrev answer : ReadEvent → List ReadEvent
answer last =
    arrived 0 (0 ∷ 152 ∷ 118 ∷ 0 ∷ 0 ∷ 0 ∷ 9 ∷ 0 ∷ 0 ∷ 152 ∷ 118 ∷ 0 ∷ 0 ∷ 0 ∷ 1 ∷ []) ∷ last ∷ []

-- The player is there at the third attempt.
abbrev about_to_play : World Snap
about_to_play = record world {
  snap = record idle_snap {
    writes = wrote 100 ∷ [];
    turns = answer (arrived 1 []) ∷ [];
    connects = false ∷ false ∷ true ∷ [];
  };
}

do_play_answered_example :
    (s' : Snap) × (do_play (snap_port plain_json 5) about_to_play
      ≡ done (tt, record about_to_play { snap = s' }))
    × (s'.out ≡ [] ++ frame (plain_json.write (start_fields plain_json (codes "10.0.0.2"))))
    × (s'.server_fd ≡ some 5)
    × (s'.pending ≡ false)
unfolding frame store_header
do_play_answered_example =
    do_play_answered plain_json 5 2 (1 ∷ []) [] (1 ∷ []) (pos 1) (answer (arrived 1 [])) [] []
      about_to_play refl refl refl refl refl refl tt (omega arith) refl refl refl refl
