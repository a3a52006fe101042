-- ===== src/Snapcast/Interleaving/Exit.antt =====
-- An `Exit` of the player's component that reaches its thread.
use lightning_cast_endpoint.Base.{◌<◌, ◌≡◌, refl, ◌⊎◌, inl, inr, Bool, true, false, arith}
use lightning_cast_endpoint.Snapcast.State.{idle, exiting}
use lightning_cast_endpoint.Snapcast.Interleaving.{
  Worker, dispatching, waiting, connecting, connected, testing, selecting, reading, tearing, exited,
  Threads, Work, Player,
}
use lightning_cast_endpoint.Snapcast.Interleaving.Close.{rank}

-- The thread works on a command to open.
abbrev pub is_starting : Worker → Bool
is_starting connecting = true
is_starting connected = true
is_starting other = false

-- It has exited, or it will see the command.
abbrev pub Heard : Threads → Type 0
Heard s = (s.worker ≡ exited) ⊎ ((s.cmd ≡ exiting) × (is_starting s.worker ≡ false))

-- It is nearer to its end.
abbrev pub Closer : Threads → Threads → Type 0
Closer s t = Heard t × (rank t.worker < rank s.worker)

pub Work-Closer : {s t : Threads} → Work s t → Heard s → Closer s t
Work-Closer (Work.handle_open w c) h = ground arith
Work-Closer (Work.handle_close w c) h = ground arith
Work-Closer (Work.handle_none w c) h = ground arith
Work-Closer (Work.handle_exit w c) h = ground arith
Work-Closer (Work.wake_up w r) h = ground arith
Work-Closer (Work.finish_open w) h = ground arith
Work-Closer (Work.loop_on w c) h = ground arith
Work-Closer (Work.loop_off w c) h = ground arith
Work-Closer (Work.select_wake w k) h = ground arith
Work-Closer (Work.tear_down w) h = ground arith

pub Player-Closer : {s t : Threads} → Player s t → Heard s → Closer s t
Player-Closer (Player.connect_fails w) h = ground arith
Player-Closer (Player.connect_works w) h = ground arith
Player-Closer (Player.answers w) h = ground arith
Player-Closer (Player.breaks w) h = ground arith
Player-Closer (Player.begins w) h = ground arith
Player-Closer (Player.cuts w) h = ground arith

-- The thread waits for the player.
abbrev pub is_listening : Worker → Bool
is_listening selecting = true
is_listening reading = true
is_listening other = false

pub Work-is_listening :
    {s t : Threads}
    → Work s t
    → Heard s
    → is_listening s.worker ≡ false
    → is_listening t.worker ≡ false
Work-is_listening (Work.handle_open w c) h q = ground arith
Work-is_listening (Work.handle_close w c) h q = ground arith
Work-is_listening (Work.handle_none w c) h q = ground arith
Work-is_listening (Work.handle_exit w c) h q = ground arith
Work-is_listening (Work.wake_up w r) h q = ground arith
Work-is_listening (Work.finish_open w) h q = ground arith
Work-is_listening (Work.loop_on w c) h q = ground arith
Work-is_listening (Work.loop_off w c) h q = ground arith
Work-is_listening (Work.select_wake w k) h q = ground arith
Work-is_listening (Work.tear_down w) h q = ground arith

-- Then the player has no step.
pub Player-is_listening : {s t : Threads} → Player s t → Heard s → is_listening s.worker ≡ false → ⊥
Player-is_listening (Player.connect_fails w) h q = ground arith
Player-is_listening (Player.connect_works w) h q = ground arith
Player-is_listening (Player.begins w) h q = ground arith
Player-is_listening (Player.answers w) h q = ground arith
Player-is_listening (Player.cuts w) h q = ground arith
Player-is_listening (Player.breaks w) h q = ground arith

abbrev pub Moves : Threads → Type 0
Moves s = (t : Threads) × Work s t

Worker-Moves :
    (s : Threads) (w : Worker)
    → s.worker ≡ w
    → (s.worker ≡ waiting → s.ready ≡ false → s.cmd ≡ idle)
    → Heard s
    → is_listening s.worker ≡ false
    → (s.worker ≡ exited) ⊎ Moves s
Worker-Moves s dispatching w awake h q = inr (_, Work.handle_exit w (ground arith))
Worker-Moves s waiting w awake h q = inr (_, Work.wake_up w (ground arith))
Worker-Moves s testing w awake h q = inr (_, Work.loop_off w (ground arith))
Worker-Moves s tearing w awake h q = inr (_, Work.tear_down w)
Worker-Moves s exited w awake h q = inl w
Worker-Moves s other w awake h q = absurd (ground arith)

-- As long as it has not exited it has a step, if no wake-up has been lost.
pub Heard-Moves :
    {s : Threads}
    → (s.worker ≡ waiting → s.ready ≡ false → s.cmd ≡ idle)
    → Heard s
    → is_listening s.worker ≡ false
    → (s.worker ≡ exited) ⊎ Moves s
Heard-Moves {s} awake h q = Worker-Moves s s.worker refl awake h q
