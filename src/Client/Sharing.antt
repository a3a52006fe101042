-- ===== src/Client/Sharing.antt =====
-- `processSend` of the client among the threads that share its socket.
use lightning_cast_endpoint.Base.{
  ℕ, ◌≡◌, ◌≢◌, refl, sym, ap, ◌∙◌, true, List, [], ◌∷◌, ◌++◌, append-nil, some, arith, done,
}
use lightning_cast_endpoint.Wire.Header.{frame}
use lightning_cast_endpoint.Wire.Send.{Sending, Ending, blocked, complete, broken, write_loop}
use lightning_cast_endpoint.Wire.Shared.{
  unlocked, held, Shared, with_todo, SendStep, SendSteps, further,
}
use lightning_cast_endpoint.Wire.Alone.{write_loop-append, left_by, write_loop-SendSteps}
use lightning_cast_endpoint.Client.State.{World}
use lightning_cast_endpoint.Client.Send.{after_write, process_send}

module _ {S : Type 0} where
  -- A loop that has returned did not wait to the end.
  after_write-ends :
      (ending : Ending) (sending : Sending) (w v : World S)
      → sending.ending ≡ ending
      → after_write sending w ≡ done (tt, v)
      → (sending.ending ≢ blocked) × (v.out ≡ w.out ++ sending.out)
  after_write-ends complete sending w v same e = ground arith
  after_write-ends broken sending w v same e = ground arith
  after_write-ends blocked sending w v same e = ground arith

  -- A call of `processSend` as the handlers of the client make it, on an open socket, that returns, however the socket
  -- answers, is a run of the steps in which no other thread comes between: from a reachable state in which the lock is
  -- free and thread `i` has to send this text, the same bytes go out, the call counts as sent, and the lock is free
  -- again.
  pub process_send-SendSteps :
      (text : List ℕ) (w v : World S) (fd i : ℕ) (more : List (List ℕ)) {r s : Shared}
      → SendSteps r s
      → s.lock ≡ unlocked
      → s.connected ≡ true
      → s.todo i ≡ text ∷ more
      → s.out ≡ w.out
      → w.server_fd ≡ some fd
      → process_send text w ≡ done (tt, v)
      → (t : Shared) × SendSteps r t
        × (t.lock ≡ unlocked)
        × (t.out ≡ v.out)
        × (t.sent ≡ s.sent ++ (i, text) ∷ [])
        × (t.todo i ≡ more)
  unfolding process_send
  process_send-SendSteps text w v fd i more {r} {s} path free on next same open_fd e =
      let sending = write_loop [] (frame text) w.writes in
      let from_here : write_loop s.out (frame text) w.writes
          ≡ record sending { out = s.out ++ sending.out } =
        ap (λ bs. write_loop bs (frame text) w.writes) (sym (append-nil s.out))
        ∙ write_loop-append s.out [] (frame text) w.writes in
      let returned : after_write sending w ≡ done (tt, v) = ground (arith, e) in
      let (ends, out) = after_write-ends sending.ending sending w v refl returned in
      let locked : Shared = record s {
        lock = held i (frame text);
        sent = s.sent ++ (i, text) ∷ [];
        todo = with_todo i more s.todo;
      } in
      (
        left_by (write_loop s.out (frame text) w.writes) locked,
        write_loop-SendSteps i (frame text) w.writes
            (further path (SendStep.locks i text more free on next)) refl
            (λ b. ends (sym (ap (λ r. r.ending) from_here) ∙ b)),
        refl,
        ap (λ r. r.out) from_here ∙ ap (λ bs. bs ++ sending.out) same ∙ sym out,
        refl,
        ground arith,
      )
