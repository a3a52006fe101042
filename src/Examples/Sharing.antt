-- ===== src/Examples/Sharing.antt =====
-- Two threads that send at a time, in a concrete run.
use lightning_cast_endpoint.Base.{
  ℕ, zero, suc, ◌≡◌, refl, true, false, List, [], ◌∷◌, ◌++◌, some, arith,
}
use lightning_cast_endpoint.Wire.Header.{frame, load_header, store_header}
use lightning_cast_endpoint.Wire.Send.{wrote, again, failed, write_loop}
use lightning_cast_endpoint.Wire.Receive.{ReadEvent, arrived, read_frame, read_full}
use lightning_cast_endpoint.Wire.RoundTrip.{read_frames, verdict, accept}
use lightning_cast_endpoint.Wire.Shared.{
  unlocked, Shared, begin, with_todo, SendStep, SendSteps, none_yet, further,
}
use lightning_cast_endpoint.Wire.Whole.{Unfinished, shared_reads}
use lightning_cast_endpoint.Wire.Ordered.{of_thread}
use lightning_cast_endpoint.Client.State.{World}
use lightning_cast_endpoint.Client.Send.{process_send}
use lightning_cast_endpoint.Client.Sharing.{process_send-SendSteps}
use lightning_cast_endpoint.Snapcast.State.{Snap}
use lightning_cast_endpoint.Examples.Data.{world}

-- The thread of the class sends two heartbeats, main, with number 1, one command.
abbrev program : ℕ → List (List ℕ)
program zero = (97 ∷ []) ∷ (98 ∷ []) ∷ []
program (suc zero) = (107 ∷ 99 ∷ []) ∷ []
program other = []

abbrev two_sent : Shared
two_sent = record {
  connected = true;
  lock = unlocked;
  out = frame (97 ∷ []) ++ frame (107 ∷ 99 ∷ []);
  sent = (0, 97 ∷ []) ∷ (1, 107 ∷ 99 ∷ []) ∷ [];
  todo = with_todo 1 [] (with_todo 0 ((98 ∷ []) ∷ []) program);
  cut = false;
  intact = (0, 97 ∷ []) ∷ (1, 107 ∷ 99 ∷ []) ∷ [];
}

-- The first heartbeat goes out in two pieces; then main sends.
to_two_sent : SendSteps (begin program) two_sent
unfolding frame store_header
to_two_sent =
    further
      (further
        (further
          (further
            (further
              (further
                (further
                  (further none_yet (SendStep.locks 0 (97 ∷ []) ((98 ∷ []) ∷ []) refl refl refl))
                  (SendStep.writes 0 1 0 (0 ∷ 152 ∷ 118 ∷ 0 ∷ 0 ∷ 0 ∷ 1 ∷ 97 ∷ []) refl))
                (SendStep.tries_again 0 152 (118 ∷ 0 ∷ 0 ∷ 0 ∷ 1 ∷ 97 ∷ []) refl))
              (SendStep.writes 0 100 152 (118 ∷ 0 ∷ 0 ∷ 0 ∷ 1 ∷ 97 ∷ []) refl))
            (SendStep.returns 0 refl))
          (SendStep.locks 1 (107 ∷ 99 ∷ []) [] refl refl refl))
        (SendStep.writes 1 100 0 (0 ∷ 152 ∷ 118 ∷ 0 ∷ 0 ∷ 0 ∷ 2 ∷ 107 ∷ 99 ∷ []) refl))
      (SendStep.returns 1 refl)

abbrev pieces : List ReadEvent
pieces =
    arrived 0 (0 ∷ 152 ∷ 118 ∷ 0 ∷ 0 ∷ 0 ∷ 1 ∷ 97 ∷ 0 ∷ 0 ∷ [])
    ∷ arrived 152 (118 ∷ 0 ∷ 0 ∷ 0 ∷ 2 ∷ 107 ∷ 99 ∷ 0 ∷ 0 ∷ 152 ∷ [])
    ∷ []

-- Then the second heartbeat breaks off behind three bytes.
abbrev cut_off : Shared
cut_off = record two_sent {
  out = two_sent.out ++ 0 ∷ 0 ∷ 152 ∷ [];
  sent = two_sent.sent ++ (0, 98 ∷ []) ∷ [];
  todo = with_todo 0 [] two_sent.todo;
  cut = true;
}

to_cut_off : SendSteps (begin program) cut_off
unfolding frame store_header
to_cut_off =
    further
      (further (further to_two_sent (SendStep.locks 0 (98 ∷ []) [] refl refl refl))
        (SendStep.writes 0 2 0 (0 ∷ 152 ∷ 118 ∷ 0 ∷ 0 ∷ 0 ∷ 1 ∷ 98 ∷ []) refl))
      (SendStep.breaks 0 118 (0 ∷ 0 ∷ 0 ∷ 1 ∷ 98 ∷ []) refl)

shared_reads_example :
    (read_frames 2 pieces ≡ some ((97 ∷ []) ∷ (107 ∷ 99 ∷ []) ∷ []))
    × ((later : List (ℕ × List ℕ)) × (cut_off.intact ++ later ≡ cut_off.sent)
        × Unfinished true unlocked later)
    × ((i : ℕ) → (rest : List (List ℕ)) × (of_thread i cut_off.sent ++ rest ≡ program i))
unfolding frame store_header
shared_reads_example = shared_reads program pieces to_cut_off (omega arith, (omega arith, tt)) refl

-- A peer that reads on takes the front of the next message for the end of the one that broke off.
cut_message_out :
    (write_loop [] (frame (97 ∷ 98 ∷ [])) (wrote 9 ∷ failed ∷ [])).out ++ frame (99 ∷ [])
    ≡ 0 ∷ 0 ∷ 152 ∷ 118 ∷ 0 ∷ 0 ∷ 0 ∷ 2 ∷ 97 ∷ 0 ∷ 0 ∷ 152 ∷ 118 ∷ 0 ∷ 0 ∷ 0 ∷ 1 ∷ 99 ∷ []
unfolding frame store_header write_loop
cut_message_out = refl

mixed_message :
    verdict (
      read_frame (
        arrived 0 (0 ∷ 152 ∷ 118 ∷ 0 ∷ 0 ∷ 0 ∷ 2 ∷ 97 ∷ 0 ∷ 0 ∷ 152 ∷ 118 ∷ 0 ∷ 0 ∷ 0 ∷ 1 ∷ 99 ∷ [])
        ∷ []))
    ≡ accept (97 ∷ 0 ∷ []) (0 ∷ 152 ∷ 118 ∷ 0 ∷ 0 ∷ 0 ∷ 1 ∷ 99 ∷ [])
unfolding read_frame read_full load_header
mixed_message = refl

-- The second heartbeat, as the client's own `processSend`.
abbrev sends : World Snap
sends = record world { out = two_sent.out; writes = wrote 3 ∷ again ∷ wrote 100 ∷ [] }

process_send-SendSteps_example :
    (t : Shared) × SendSteps (begin program) t
    × (t.lock ≡ unlocked)
    × (t.out ≡ two_sent.out ++ frame (98 ∷ []))
    × (t.sent ≡ two_sent.sent ++ (0, 98 ∷ []) ∷ [])
    × (t.todo 0 ≡ [])
unfolding frame store_header process_send write_loop
process_send-SendSteps_example =
    process_send-SendSteps (98 ∷ []) sends
      (record sends { out = two_sent.out ++ frame (98 ∷ []); writes = [] }) 7 0 [] to_two_sent refl
      refl refl refl refl refl
