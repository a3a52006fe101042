-- ===== src/Program/Hangs.antt =====
-- Two ways in which main waits at a join for good.
use lightning_cast_endpoint.Base.{◌≡◌, ◌≢◌, inl, inr, false, arith}
use lightning_cast_endpoint.Client.Channel.Shutdown.{Deaf, Step-Deaf}
use lightning_cast_endpoint.Snapcast.Interleaving
use lightning_cast_endpoint.Snapcast.Interleaving.{Caller, Work, Player, Calling}
use lightning_cast_endpoint.Program.Moves.{
  Step-ClientMove, rests, works, plays, calls, told, Step-SnapMove,
}
use lightning_cast_endpoint.Program.Sound.{Sound, Step-Sound, program-Sound}
use lightning_cast_endpoint.Program.{returned, Program, start, Step, Steps, here, later}

Steps-Sound : {s t : Program} → Steps s t → Sound s → Sound t
Steps-Sound here inv = inv
Steps-Sound (later path st) inv = Step-Sound st (Steps-Sound path inv)

Step-Deaf_client : {s t : Program} → Step s t → Deaf s.client → Deaf t.client
Step-Deaf_client st x = elim (Step-ClientMove st) [ inl same ↦ rw same x | inr m ↦ Step-Deaf m x ]

Steps-Deaf_client : {s t : Program} → Steps s t → Deaf s.client → Deaf t.client
Steps-Deaf_client here x = x
Steps-Deaf_client (later path st) x = Step-Deaf_client st (Steps-Deaf_client path x)

-- An `Exit` of the client that is not heard.
pub quit_hangs : {s t : Program} → Steps start s → Deaf s.client → Steps s t → t.main ≢ returned
quit_hangs path deaf more e =
    (Steps-Deaf_client more deaf).runs
      ((Steps-Sound more (program-Sound path)).client_joined (ground arith))

-- The player is not there: no step on the way gives the component a connection.
pub data Without (s : Program) : Program → Type 0 where
  begun : Without s s
  goes : {t u : Program} → Without s t → Step t u → u.snap.fd_open ≡ false → Without s u

-- `connectServer` of SnapcastComm tries on until a connection is made.
abbrev Tries : Interleaving.Threads → Type 0
Tries s = s.worker ≡ Interleaving.connecting

Work-Tries : {s t : Interleaving.Threads} → Work s t → Tries s → Tries t
Work-Tries (Work.handle_open w c) e = ground arith
Work-Tries (Work.handle_close w c) e = ground arith
Work-Tries (Work.handle_none w c) e = ground arith
Work-Tries (Work.handle_exit w c) e = ground arith
Work-Tries (Work.wake_up w r) e = ground arith
Work-Tries (Work.finish_open w) e = ground arith
Work-Tries (Work.loop_on w c) e = ground arith
Work-Tries (Work.loop_off w c) e = ground arith
Work-Tries (Work.select_wake w k) e = ground arith
Work-Tries (Work.tear_down w) e = ground arith

Player-Tries : {s t : Interleaving.Threads} → Player s t → Tries s → t.fd_open ≡ false → Tries t
Player-Tries (Player.connect_fails w) e absent = e
Player-Tries (Player.connect_works w) e absent = ground arith
Player-Tries (Player.answers w) e absent = ground arith
Player-Tries (Player.breaks w) e absent = ground arith
Player-Tries (Player.begins w) e absent = ground arith
Player-Tries (Player.cuts w) e absent = ground arith

Calling-Tries : {s t : Interleaving.Threads} → Calling s t → Tries s → Tries t
Calling-Tries (Calling.call_open f) e = e
Calling-Tries (Calling.call_close f) e = e
Calling-Tries (Calling.call_send f o) e = e
Calling-Tries (Calling.return_open f r c) e = e
Calling-Tries (Calling.return_close f r c) e = e
Calling-Tries (Calling.return_reply f p) e = e

Step-Tries : {s t : Program} → Step s t → Tries s.snap → t.snap.fd_open ≡ false → Tries t.snap
Step-Tries {s} st e absent = elim (Step-SnapMove st) [
  | rests same ↦ rw same e
  | works m ↦ Work-Tries m e
  | plays m ↦ Player-Tries m e absent
  | calls c m ↦ Calling-Tries m e
  | told at same ↦ rw same e
]

Without-Tries : {s t : Program} → Without s t → Sound s → Tries s.snap → Sound t × Tries t.snap
Without-Tries begun inv e = (inv, e)
Without-Tries (goes path st absent) inv e =
    let (before, trying) = Without-Tries path inv e in
    (Step-Sound st before, Step-Tries st trying absent)

-- Once the player's component has begun to connect, main does not return before it succeeds: from every reachable
-- state in which it connects, as long as no step gives it a connection to the player, whatever else happens and
-- key q included, main has not returned.
pub absent_player_hangs :
    {s t : Program}
    → Steps start s
    → s.snap.worker ≡ Interleaving.connecting
    → Without s t
    → t.main ≢ returned
absent_player_hangs path e gone back =
    let (inv, trying) = Without-Tries gone (program-Sound path) e in
    let over = inv.snap_joined (ground arith) in ground arith
