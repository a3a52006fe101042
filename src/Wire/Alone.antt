-- ===== src/Wire/Alone.antt =====
-- A call of `processSend` that nothing interrupts, as a run of the threads that share the socket.
use lightning_cast_endpoint.Base.{
  ℕ, zero, suc, ◌≡◌, ◌≢◌, refl, ap, ◌∙◌, true, List, [], ◌∷◌, ◌++◌, append_assoc, take, drop,
}
use lightning_cast_endpoint.Wire.Send.{
  WriteResult, wrote, again, failed, Sending, blocked, complete, write_loop,
}
use lightning_cast_endpoint.Wire.Shared.{
  unlocked, held, Shared, release, SendStep, SendSteps, further,
}

-- What is already out is only carried along.
pub write_loop-append :
    (out more left : List ℕ) (writes : List WriteResult)
    → write_loop (out ++ more) left writes
      ≡ record (write_loop more left writes) { out = out ++ (write_loop more left writes).out }
unfolding write_loop
write_loop-append out more [] writes = refl
write_loop-append out more (b ∷ left) [] = refl
write_loop-append out more (b ∷ left) (again ∷ writes) =
    write_loop-append out more (b ∷ left) writes
write_loop-append out more (b ∷ left) (failed ∷ writes) = refl
write_loop-append out more (b ∷ left) (wrote zero ∷ writes) = refl
write_loop-append out more (b ∷ left) (wrote (suc n) ∷ writes) =
    ap (λ bs. write_loop bs (drop n left) writes) (append_assoc out more (b ∷ take n left))
    ∙ write_loop-append out (more ++ b ∷ take n left) (drop n left) writes

-- What the call leaves: the lock is free again.
abbrev pub left_by : Sending → Shared → Shared
left_by sending s = record s {
  lock = unlocked;
  out = sending.out;
  cut = elim sending.ending [ complete ↦ s.cut | _ ↦ true ];
  intact = elim sending.ending [ complete ↦ (release s).intact | _ ↦ s.intact ];
}

pub write_loop-SendSteps :
    (i : ℕ) (left : List ℕ) (writes : List WriteResult) {r s : Shared}
    → SendSteps r s
    → s.lock ≡ held i left
    → (write_loop s.out left writes).ending ≢ blocked
    → SendSteps r (left_by (write_loop s.out left writes) s)
unfolding write_loop
write_loop-SendSteps i [] writes path holds ends = further path (SendStep.returns i holds)
write_loop-SendSteps i (b ∷ left) [] path holds ends = absurd (ends refl)
write_loop-SendSteps i (b ∷ left) (again ∷ writes) path holds ends =
    write_loop-SendSteps i (b ∷ left) writes path holds ends
write_loop-SendSteps i (b ∷ left) (failed ∷ writes) path holds ends =
    further path (SendStep.breaks i b left holds)
write_loop-SendSteps i (b ∷ left) (wrote zero ∷ writes) path holds ends =
    further path (SendStep.breaks i b left holds)
write_loop-SendSteps i (b ∷ left) (wrote (suc n) ∷ writes) path holds ends =
    write_loop-SendSteps i (drop n left) writes (further path (SendStep.writes i n b left holds))
      refl ends
