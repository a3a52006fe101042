-- ===== src/Snapcast/Interleaving/Close.antt =====
-- `Close` comes back, if the player does not stop in the middle of a message.
use lightning_cast_endpoint.Base.{ℕ, ◌<◌, ◌≡◌, refl, ◌≢◌, ◌⊎◌, inl, inr, true, false, arith}
use lightning_cast_endpoint.Snapcast.State.{idle, opening, closing, exiting}
use lightning_cast_endpoint.Snapcast.Interleaving.{
  Worker, dispatching, waiting, connecting, connected, testing, selecting, reading, tearing, exited,
  in_open, in_close, Threads, init, Work, Player, Calling, Running, now, next_work, next_player,
  next_call,
}

-- While the program runs, with no `Exit`: what the channel's state says of the two threads.
pub record Tidy (s : Threads) : Type 0 where
  pub no_exit : s.cmd ≢ exiting
  pub runs : s.worker ≢ exited
  pub synced : s.ready_sync ≡ true → s.cmd ≡ idle
  pub awake : s.worker ≡ waiting → s.ready ≡ false → s.cmd ≡ idle
  pub quiet : s.cmd ≢ idle → (s.caller ≡ in_open) ⊎ (s.caller ≡ in_close)
  pub by_open : s.cmd ≡ opening → s.caller ≡ in_open
  pub by_close : s.cmd ≡ closing → s.caller ≡ in_close
  pub opens : (s.worker ≡ connecting) ⊎ (s.worker ≡ connected) → s.cmd ≡ opening
  pub told : s.cmd ≡ closing → s.worker ≡ selecting → s.woken ≡ true
  pub finished : (s.caller ≡ in_open) ⊎ (s.caller ≡ in_close) → s.cmd ≡ idle → s.ready_sync ≡ true

Tidy-init : Tidy init
Tidy-init = ground arith

Work-Tidy : {s t : Threads} → Work s t → Tidy s → Tidy t
Work-Tidy (Work.handle_open w c) inv = ground arith
Work-Tidy (Work.handle_close w c) inv = ground arith
Work-Tidy (Work.handle_none w c) inv = ground arith
Work-Tidy (Work.handle_exit w c) inv = ground arith
Work-Tidy (Work.wake_up w r) inv = ground arith
Work-Tidy (Work.finish_open w) inv = ground arith
Work-Tidy (Work.loop_on w c) inv = ground arith
Work-Tidy (Work.loop_off w c) inv = ground arith
Work-Tidy (Work.select_wake w k) inv = ground arith
Work-Tidy (Work.tear_down w) inv = ground arith

Player-Tidy : {s t : Threads} → Player s t → Tidy s → Tidy t
Player-Tidy (Player.connect_fails w) inv = ground arith
Player-Tidy (Player.connect_works w) inv = ground arith
Player-Tidy (Player.answers w) inv = ground arith
Player-Tidy (Player.breaks w) inv = ground arith
Player-Tidy (Player.begins w) inv = ground arith
Player-Tidy (Player.cuts w) inv = ground arith

Calling-Tidy : {s t : Threads} → Calling s t → Tidy s → Tidy t
Calling-Tidy (Calling.call_open f) inv = ground arith
Calling-Tidy (Calling.call_close f) inv = ground arith
Calling-Tidy (Calling.call_send f o) inv = ground arith
Calling-Tidy (Calling.return_open f r c) inv = ground arith
Calling-Tidy (Calling.return_close f r c) inv = ground arith
Calling-Tidy (Calling.return_reply f p) inv = ground arith

pub Running-Tidy : {s t : Threads} → Running s t → Tidy s → Tidy t
Running-Tidy now inv = inv
Running-Tidy (next_work path m) inv = Work-Tidy m (Running-Tidy path inv)
Running-Tidy (next_player path m) inv = Player-Tidy m (Running-Tidy path inv)
Running-Tidy (next_call path m) inv = Calling-Tidy m (Running-Tidy path inv)

-- How far the thread is from the end of a close command.
abbrev pub rank : Worker → ℕ
rank selecting = 5
rank reading = 4
rank testing = 3
rank tearing = 2
rank waiting = 2
rank dispatching = 1
rank other = 0

-- The command is finished, and `Close` can return; or it is outstanding and nearer to its end.
abbrev pub Nearer : Threads → Threads → Type 0
Nearer s t =
    ((t.cmd ≡ idle) × (t.ready_sync ≡ true)) ⊎ ((t.cmd ≡ closing) × (rank t.worker < rank s.worker))

Work-Nearer : {s t : Threads} → Work s t → Tidy s → s.cmd ≡ closing → Nearer s t
Work-Nearer (Work.handle_open w c) inv e = ground arith
Work-Nearer (Work.handle_close w c) inv e = ground arith
Work-Nearer (Work.handle_none w c) inv e = ground arith
Work-Nearer (Work.handle_exit w c) inv e = ground arith
Work-Nearer (Work.wake_up w r) inv e = ground arith
Work-Nearer (Work.finish_open w) inv e = ground arith
Work-Nearer (Work.loop_on w c) inv e = ground arith
Work-Nearer (Work.loop_off w c) inv e = ground arith
Work-Nearer (Work.select_wake w k) inv e = ground arith
Work-Nearer (Work.tear_down w) inv e = ground arith

Player-Nearer : {s t : Threads} → Player s t → Tidy s → s.cmd ≡ closing → Nearer s t
Player-Nearer (Player.connect_fails w) inv e = ground arith
Player-Nearer (Player.connect_works w) inv e = ground arith
Player-Nearer (Player.answers w) inv e = ground arith
Player-Nearer (Player.breaks w) inv e = ground arith
Player-Nearer (Player.begins w) inv e = ground arith
Player-Nearer (Player.cuts w) inv e = ground arith

-- The thread has a step of its own, or waits in ::read for the rest of a message.
abbrev pub Proceeds : Threads → Type 0
Proceeds s = ((t : Threads) × Work s t) ⊎ (s.worker ≡ reading)

Work-enabled : (s : Threads) (w : Worker) → s.worker ≡ w → Tidy s → s.cmd ≡ closing → Proceeds s
Work-enabled s dispatching w inv e = inl (_, Work.handle_close w e)
Work-enabled s waiting w inv e = inl (_, Work.wake_up w (ground arith))
Work-enabled s connecting w inv e = absurd (ground arith)
Work-enabled s connected w inv e = absurd (ground arith)
Work-enabled s testing w inv e = inl (_, Work.loop_off w (λ h. cc))
Work-enabled s selecting w inv e = inl (_, Work.select_wake w (inv.told e w))
Work-enabled s reading w inv e = inr w
Work-enabled s tearing w inv e = inl (_, Work.tear_down w)
Work-enabled s exited w inv e = absurd (inv.runs w)

-- The caller waits, and the class's own thread is not blocked but by a message that has begun.
close_enabled :
    {s : Threads} → Running init s → s.cmd ≡ closing → (s.caller ≡ in_close) × Proceeds s
close_enabled {s} path e =
    let inv : Tidy s = Running-Tidy path Tidy-init in
    (inv.by_close e, Work-enabled s s.worker refl inv e)

close-Nearer :
    {s t : Threads}
    → Running init s
    → s.cmd ≡ closing
    → Work s t ⊎ Player s t
    → (rank s.worker < 6) × Nearer s t
close-Nearer {s} {t} path e m =
    let inv : Tidy s = Running-Tidy path Tidy-init in (ground arith, nearer inv m)
  where
    nearer : Tidy s → Work s t ⊎ Player s t → Nearer s t
    nearer inv (inl w) = Work-Nearer w inv e
    nearer inv (inr p) = Player-Nearer p inv e

-- A `Close` by one caller ends, unless the player stops in the middle of a message: in every state that the running
-- program (no `Exit`, one calling thread) reaches with a `Close` outstanding, the caller waits for it; the class's own
-- thread has a step, or it waits in ::read for the rest of a message that the player has begun; and every step of that
-- thread and of the player ends the command, so that `Close` returns, or brings it nearer to its end, which is at most
-- five steps off.
pub close_ends :
    {s : Threads}
    → Running init s
    → s.cmd ≡ closing
    → (s.caller ≡ in_close)
      × Proceeds s
      × (rank s.worker < 6)
      × ((t : Threads) → Work s t ⊎ Player s t → Nearer s t)
close_ends path e =
    let (waits, moves) = close_enabled path e in
    (waits, moves, ground arith, λ t m. (close-Nearer path e m).1)
