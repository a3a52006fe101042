-- ===== src/Client/Channel/Heard.antt =====
-- An `Exit` of the client that is outstanding or has been obeyed.
use lightning_cast_endpoint.Base.{◌<◌, ◌≡◌, refl, ◌⊎◌, inl, inr, false, arith}
use lightning_cast_endpoint.Client.Commands.{exit}
use lightning_cast_endpoint.Client.Channel.{
  Worker, dispatching, waiting, testing, selecting, ending, stopping, tearing, exited, Threads,
  Work, Peer,
}
use lightning_cast_endpoint.Client.Channel.Safety.{Inv}
use lightning_cast_endpoint.Client.Channel.Progress.{is_starting, rank, Proceeds}

-- The thread has exited, or it will see the command.
abbrev pub Heard : Threads → Type 0
Heard s = (s.worker ≡ exited) ⊎ ((s.cmd ≡ exit) × (is_starting s.worker ≡ false))

-- It is nearer to its end, and the calling thread stands where it stood.
abbrev pub Closer : Threads → Threads → Type 0
Closer s t = Heard t × (rank t.worker < rank s.worker) × (t.server ≡ s.server)

pub Work-Closer : {s t : Threads} → Work s t → Heard s → Closer s t
Work-Closer (Work.handle_open w c) h = ground arith
Work-Closer (Work.handle_close w c) h = ground arith
Work-Closer (Work.handle_none w c) h = ground arith
Work-Closer (Work.handle_exit w c) h = ground arith
Work-Closer (Work.wake_up w r) h = ground arith
Work-Closer (Work.announce w) h = ground arith
Work-Closer (Work.finish_open w) h = ground arith
Work-Closer (Work.deny w) h = ground arith
Work-Closer (Work.finish_refused w) h = ground arith
Work-Closer (Work.loop_on w c) h = ground arith
Work-Closer (Work.loop_off w c) h = ground arith
Work-Closer (Work.select_wake w k) h = ground arith
Work-Closer (Work.withdraw w) h = ground arith
Work-Closer (Work.tear_down w) h = ground arith

pub Peer-Closer : {s t : Threads} → Peer s t → Heard s → Closer s t
Peer-Closer (Peer.connect_works w) h = ground arith
Peer-Closer (Peer.connect_fails w) h = ground arith
Peer-Closer (Peer.goes_on w) h = ground arith
Peer-Closer (Peer.breaks w) h = ground arith
Peer-Closer (Peer.stopped w) h = ground arith

exit-Proceeds :
    (s : Threads) (w : Worker)
    → s.worker ≡ w
    → Inv s
    → s.cmd ≡ exit
    → is_starting s.worker ≡ false
    → (s.worker ≡ exited) ⊎ Proceeds s
exit-Proceeds s dispatching w inv e f = inr (inl (_, Work.handle_exit w e))
exit-Proceeds s waiting w inv e f = inr (inl (_, Work.wake_up w (ground arith)))
exit-Proceeds s testing w inv e f = inr (inl (_, Work.loop_off w (ground arith)))
exit-Proceeds s selecting w inv e f = inr (inr (ground arith))
exit-Proceeds s ending w inv e f = inr (inl (_, Work.withdraw w))
exit-Proceeds s stopping w inv e f = inr (inr (ground arith))
exit-Proceeds s tearing w inv e f = inr (inl (_, Work.tear_down w))
exit-Proceeds s exited w inv e f = inl w
exit-Proceeds s other w inv e f = absurd (ground arith)

-- As long as it has not exited it has a step, or it is in a call that leaves the class.
pub Heard-Proceeds : {s : Threads} → Inv s → Heard s → (s.worker ≡ exited) ⊎ Proceeds s
Heard-Proceeds inv (inl over) = inl over
Heard-Proceeds {s} inv (inr (e, f)) = exit-Proceeds s s.worker refl inv e f
