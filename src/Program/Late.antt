-- ===== src/Program/Late.antt =====
-- The doStop at the end of a session calls `Close` of SnapcastComm, and main's `Exit` can come before it.
use lightning_cast_endpoint.Base.{◌<◌, ◌≡◌, ◌≢◌, ◌⊎◌, inl, inr, false, List, [], ◌∷◌, arith}
use lightning_cast_endpoint.Client.Channel.Shutdown.{Deaf}
use lightning_cast_endpoint.Client.Requests.{
  Request, open_player, send_start, send_stop, close_player, halt, waits_in, Follows, Unsent,
}
use lightning_cast_endpoint.Snapcast.State.{closing}
use lightning_cast_endpoint.Snapcast.Interleaving.{
  Worker, exited, Caller, free, in_close, Threads, Calling,
}
use lightning_cast_endpoint.Program.Moves.{Step-place}
use lightning_cast_endpoint.Program.Stranded.{Lost, InClose, Stranded, Step-Lost, Step-Stranded}
use lightning_cast_endpoint.Program.Hangs.{quit_hangs}
use lightning_cast_endpoint.Program.Sound.{Sound, Step-Sound, program-Sound}
use lightning_cast_endpoint.Program.{
  returned, place, seen_from, Program, start, ThreadStep, MainStep, Step, run, main_step, Steps,
  here, later,
}

-- A thread has the `Close` of a doStop or doPause still to call.
pub record Owes (c : Caller) (todo : List Request) : Type 0 where
  pub uncalled : c ≢ in_close
  pub left : (todo ≡ halt) ⊎ (todo ≡ close_player ∷ [])

-- The client's thread has, or the server's, in `Open`.
abbrev pub OneOwes : Program → Type 0
OneOwes s = Owes s.by_client s.client_todo ⊎ Owes s.by_server s.server_todo

-- What follows, behind main's `Exit` of the component.
abbrev pub Late : Program → Type 0
Late s = OneOwes s ⊎ (Lost s.snap ⊎ Stranded s)

-- What a step of such a thread in SnapcastComm makes of it.
abbrev CallLate : Threads → List Request → Type 0
CallLate t rest =
    Owes t.caller rest
    ⊎ (Lost t ⊎ ((t.worker ≡ exited) × (t.ready_sync ≡ false) × InClose t.caller rest))

Calling-closes :
    (s : Threads) (c : Caller) {t : Threads}
    → Calling (seen_from c s) t
    → c ≡ free
    → t.caller ≡ in_close
    → (t.cmd ≡ closing) × (t.ready_sync ≡ false)
Calling-closes s c (Calling.call_open f) a b = ground arith
Calling-closes s c (Calling.call_close f) a b = ground arith
Calling-closes s c (Calling.call_send f o) a b = ground arith
Calling-closes s c (Calling.return_open f r e) a b = ground arith
Calling-closes s c (Calling.return_close f r e) a b = ground arith
Calling-closes s c (Calling.return_reply f p) a b = ground arith

exited_or_not : (w : Worker) → (w ≡ exited) ⊎ (w ≢ exited)
exited_or_not w = ground arith

asks-CallLate :
    (s : Threads) (c : Caller) (r : Request) (more todo : List Request) {t : Threads}
    {rest : List Request}
    → Calling (seen_from c s) t
    → c ≡ free
    → todo ≡ r ∷ more
    → t.caller ≡ waits_in r
    → rest ≡ r ∷ more
    → Owes c todo
    → CallLate t rest
asks-CallLate s c close_player more todo {t} m f e w same x =
    let (a, d) = Calling-closes s c m f w in
    inr (elim (exited_or_not t.worker) [
      | inl gone ↦ inr (gone, d, record { waits = w; left = λ none_left. cc })
      | inr runs ↦ inl (record { overwritten = inr (λ e. cc); runs = runs })
    ])
asks-CallLate s c send_stop more todo m f e w same x =
    inl (record { uncalled = λ a. cc; left = ground (arith, x.left) })
asks-CallLate s c open_player more todo m f e w same x = absurd (ground (arith, x.left))
asks-CallLate s c send_start more todo m f e w same x = absurd (ground (arith, x.left))

Calling-CallLate :
    (s : Threads) (c : Caller) (todo : List Request) {t : Threads} {rest : List Request}
    → Calling (seen_from c s) t
    → Follows c todo t.caller rest
    → Owes c todo
    → CallLate t rest
Calling-CallLate s c todo m (Follows.asks r more f e w same) x =
    asks-CallLate s c r more todo m f e w same x
Calling-CallLate s c todo m (Follows.returns r more w e f same) x =
    inl (record { uncalled = λ a. cc; left = ground (arith, x.left, x.uncalled) })
Calling-CallLate s c todo m (Follows.start_refused w e f same) x = absurd (ground (arith, x.left))

Unsent-Owes : (c : Caller) {todo rest : List Request} → Unsent todo rest → Owes c todo → Owes c rest
Unsent-Owes c (Unsent.stop_unsent more e same) x = record {
  uncalled = x.uncalled;
  left = ground (arith, x.left);
}
Unsent-Owes c (Unsent.start_unsent e same) x = absurd (ground (arith, x.left))

Step-Owes : {s t : Program} → Step s t → OneOwes s → Late t
Step-Owes (run (ThreadStep.publishes on m e)) x = inl (ground arith)
Step-Owes (run (ThreadStep.snap_works on m)) x = inl (ground arith)
Step-Owes (run (ThreadStep.player_acts on m)) x = inl (ground arith)
Step-Owes (run (ThreadStep.client_works on f d m)) x = inl (ground arith)
Step-Owes (run (ThreadStep.phone_acts on f d m b)) x = inl (ground arith)
Step-Owes {s} (run (ThreadStep.client_calls on m k)) x =
    ground (arith, Calling-CallLate s.snap s.by_client s.client_todo m k)
Step-Owes {s} (run (ThreadStep.client_unsent on f o n k)) x =
    inl (ground (arith, Unsent-Owes s.by_client k))
Step-Owes (run (ThreadStep.server_begins on r q)) x = inl (ground arith)
Step-Owes (run (ThreadStep.server_opens on r q f d m)) x = inl (ground arith)
Step-Owes {s} (run (ThreadStep.server_calls on m k)) x =
    ground (arith, Calling-CallLate s.snap s.by_server s.server_todo m k)
Step-Owes {s} (run (ThreadStep.server_unsent on f o n k)) x =
    inl (ground (arith, Unsent-Owes s.by_server k))
Step-Owes (run (ThreadStep.server_read_ends on q f d)) x = inl (ground arith)
Step-Owes (run (ThreadStep.server_ends on q f w r)) x = inl (ground arith)
Step-Owes (main_step (MainStep.start_publisher e)) x = inl (ground arith)
Step-Owes (main_step (MainStep.start_snap e)) x = inl (ground arith)
Step-Owes (main_step (MainStep.start_client e)) x = inl (ground arith)
Step-Owes (main_step (MainStep.start_server e)) x = inl (ground arith)
Step-Owes (main_step (MainStep.quits e)) x = inl (ground arith)
Step-Owes (main_step (MainStep.client_exits e f d m)) x = inl (ground arith)
Step-Owes (main_step (MainStep.main_calls e m k)) x = inl (ground arith)
Step-Owes (main_step (MainStep.main_unsent e f o n k)) x = inl (ground arith)
Step-Owes (main_step (MainStep.client_told e o)) x = inl (ground arith)
Step-Owes (main_step (MainStep.snap_exits e)) x = inl (ground arith)
Step-Owes (main_step (MainStep.server_exits e)) x = inl (ground arith)
Step-Owes (main_step (MainStep.unregisters e m p)) x = inl (ground arith)
Step-Owes (main_step (MainStep.asks e m p)) x = inl (ground arith)
Step-Owes (main_step (MainStep.joins_publisher e m p)) x = inl (ground arith)
Step-Owes (main_step (MainStep.joins_snap e w)) x = inl (ground arith)
Step-Owes (main_step (MainStep.joins_client e w)) x = inl (ground arith)
Step-Owes (main_step (MainStep.joins_server e w)) x = inl (ground arith)

pub Step-Late : {s t : Program} → Step s t → 6 < place s.main → Late s → Late t
Step-Late st there (inl owing) = Step-Owes st owing
Step-Late st there (inr (inl lost)) = inr (inl (Step-Lost st there lost))
Step-Late st there (inr (inr stranded)) = inr (inr (Step-Stranded st stranded))

Steps-Late :
    {s t : Program}
    → Steps s t
    → Sound s
    → 6 < place s.main
    → Late s
    → Sound t × (6 < place t.main) × Late t
Steps-Late here inv on_way x = (inv, on_way, x)
Steps-Late (later path st) inv on_way x =
    let (before, there, y) = Steps-Late path inv on_way x in
    (Step-Sound st before, omega (arith, Step-place st), Step-Late st there y)

owing_hangs : (s : Program) → Sound s → OneOwes s → s.main ≢ returned
owing_hangs s inv (inl x) back = ground (arith, x.left, inv.client_handles, inv.client_joined)
owing_hangs s inv (inr x) back =
    ground (arith, x.left, inv.server_stops, inv.server_rests, inv.server_joined)

stranded_hangs :
    (s : Program)
    → Sound s
    → InClose s.by_client s.client_todo ⊎ InClose s.by_server s.server_todo
    → s.main ≢ returned
stranded_hangs s inv (inl x) back = ground (arith, x.left, inv.client_handles, inv.client_joined)
stranded_hangs s inv (inr x) back =
    ground (arith, x.left, inv.server_stops, inv.server_rests, inv.server_joined)

pub later_hangs : (t : Program) → Sound t × (6 < place t.main) × Late t → t.main ≢ returned
later_hangs t (inv, there, inl owing) back = owing_hangs t inv owing back
later_hangs t (inv, there, inr (inl lost)) back = lost.runs (inv.snap_joined (ground arith))
later_hangs t (inv, there, inr (inr stranded)) back = stranded_hangs t inv stranded.closing back

-- An `Exit` of the component that comes to nothing.
pub late_exit_hangs :
    {s t : Program}
    → Steps start s
    → 6 < place s.main
    → OneOwes s ⊎ Lost s.snap
    → Steps s t
    → t.main ≢ returned
late_exit_hangs {s} {t} path on_way (inl x) more back =
    later_hangs t (Steps-Late more (program-Sound path) on_way (inl x)) back
late_exit_hangs {s} {t} path on_way (inr x) more back =
    later_hangs t (Steps-Late more (program-Sound path) on_way (inr (inl x))) back

-- An `Exit` that comes to nothing: from every reachable state in which main has called `Exit` of the client, its thread
-- still runs, and is just opening a connection to a phone or has had the command overwritten; or in which main has
-- called `Exit` of SnapcastComm, and either the client's thread, or the server's in `Open`, has the `Close` at the end of
-- doStop or doPause still to call, or the component's thread still runs, and is just connecting to the player or has had
-- the command overwritten, main never returns, whatever happens.
pub exit_hangs :
    {s t : Program}
    → Steps start s
    → Deaf s.client ⊎ ((6 < place s.main) × (OneOwes s ⊎ Lost s.snap))
    → Steps s t
    → t.main ≢ returned
exit_hangs path (inl deaf) more = quit_hangs path deaf more
exit_hangs path (inr (on_way, x)) more = late_exit_hangs path on_way x more
