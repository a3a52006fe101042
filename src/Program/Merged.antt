-- ===== src/Program/Merged.antt =====
-- Two threads wait in LockWait for one flag: main takes both answers, and the client's thread waits on.
use lightning_cast_endpoint.Base.{◌≡◌, ◌≢◌, refl, false, true, [], ◌∷◌, arith}
use lightning_cast_endpoint.Client.Channel
use lightning_cast_endpoint.Client.Requests.{send_stop, close_player, halt, Follows}
use lightning_cast_endpoint.Snapcast.Interleaving
use lightning_cast_endpoint.Snapcast.Interleaving.{Caller, Calling}
use lightning_cast_endpoint.Program.Stays.{Opening-Stays, Exiting-Stays}
use lightning_cast_endpoint.Program.Sound.{Sound, Step-Sound, program-Sound}
use lightning_cast_endpoint.Program.{
  exiting_client, returned, seen_from, Program, start, ThreadStep, MainStep, Step, run, main_step,
  Steps,
}

-- The player sends no further answer: the flag `pending` stays down.
pub data Mute (s : Program) : Program → Type 0 where
  begun : Mute s s
  goes : {t u : Program} → Mute s t → Step t u → u.snap.pending ≡ false → Mute s u

-- The client's thread waits in LockWait and has not exited.
record Waiting (s : Program) : Type 0 where
  waits : s.by_client ≡ Interleaving.in_reply
  down : s.snap.pending ≡ false
  runs : s.client.worker ≢ Channel.exited

-- It gets no answer.
client_waits :
    (s : Interleaving.Threads) (c : Caller) {t : Interleaving.Threads}
    → Calling (seen_from c s) t
    → c ≡ Interleaving.in_reply
    → s.pending ≡ false
    → t.caller ≡ Interleaving.in_reply
client_waits s c (Calling.call_open f) w d = ground arith
client_waits s c (Calling.call_close f) w d = ground arith
client_waits s c (Calling.call_send f o) w d = ground arith
client_waits s c (Calling.return_open f r e) w d = ground arith
client_waits s c (Calling.return_close f r e) w d = ground arith
client_waits s c (Calling.return_reply f p) w d = ground arith

Step-Waiting : {s t : Program} → Step s t → t.snap.pending ≡ false → Waiting s → Waiting t
Step-Waiting (run (ThreadStep.publishes on m e)) down x = ground arith
Step-Waiting (run (ThreadStep.snap_works on m)) down x = ground arith
Step-Waiting (run (ThreadStep.player_acts on m)) down x = ground arith
Step-Waiting (run (ThreadStep.client_works on f d m)) down x = ground arith
Step-Waiting (run (ThreadStep.phone_acts on f d m b)) down x = ground arith
Step-Waiting {s} (run (ThreadStep.client_calls on m k)) down x =
    ground (arith, client_waits s.snap s.by_client m)
Step-Waiting (run (ThreadStep.client_unsent on f o n k)) down x = ground arith
Step-Waiting (run (ThreadStep.server_begins on r q)) down x = ground arith
Step-Waiting (run (ThreadStep.server_opens on r q f d m)) down x = ground (arith, Opening-Stays m)
Step-Waiting (run (ThreadStep.server_calls on m k)) down x = ground arith
Step-Waiting (run (ThreadStep.server_unsent on f o n k)) down x = ground arith
Step-Waiting (run (ThreadStep.server_read_ends on q f d)) down x = ground arith
Step-Waiting (run (ThreadStep.server_ends on q f w r)) down x = ground arith
Step-Waiting (main_step (MainStep.start_publisher e)) down x = ground arith
Step-Waiting (main_step (MainStep.start_snap e)) down x = ground arith
Step-Waiting (main_step (MainStep.start_client e)) down x = ground arith
Step-Waiting (main_step (MainStep.start_server e)) down x = ground arith
Step-Waiting (main_step (MainStep.quits e)) down x = ground arith
Step-Waiting (main_step (MainStep.client_exits e f d m)) down x = ground (arith, Exiting-Stays m)
Step-Waiting (main_step (MainStep.main_calls e m k)) down x = ground arith
Step-Waiting (main_step (MainStep.main_unsent e f o n k)) down x = ground arith
Step-Waiting (main_step (MainStep.client_told e o)) down x = ground arith
Step-Waiting (main_step (MainStep.snap_exits e)) down x = ground arith
Step-Waiting (main_step (MainStep.server_exits e)) down x = ground arith
Step-Waiting (main_step (MainStep.unregisters e m p)) down x = ground arith
Step-Waiting (main_step (MainStep.asks e m p)) down x = ground arith
Step-Waiting (main_step (MainStep.joins_publisher e m p)) down x = ground arith
Step-Waiting (main_step (MainStep.joins_snap e w)) down x = ground arith
Step-Waiting (main_step (MainStep.joins_client e w)) down x = ground arith
Step-Waiting (main_step (MainStep.joins_server e w)) down x = ground arith

Mute-Waiting : {s t : Program} → Mute s t → Sound s → Waiting s → Sound t × Waiting t
Mute-Waiting begun inv x = (inv, x)
Mute-Waiting (goes path st down) inv x =
    let (before, waits) = Mute-Waiting path inv x in
    (Step-Sound st before, Step-Waiting st down waits)

-- LockWait has one flag for all its callers: from every reachable state in which the client's thread and main, in
-- the doStop of `Exit`, both wait for the player's answer and the flag is up, so that two answers have been merged into it or only
-- one has come, main can take it; as long as the player then sends nothing more, the client's thread waits in
-- LockWait, whatever else happens, and main does not return.
pub answers_merged :
    {s : Program}
    → Steps start s
    → s.main ≡ exiting_client
    → s.client.worker ≢ Channel.exited
    → s.by_client ≡ Interleaving.in_reply
    → s.by_main ≡ Interleaving.in_reply
    → s.main_todo ≡ halt
    → s.snap.pending ≡ true
    → (t : Program) × MainStep s t
      × (t.by_main ≡ Interleaving.free)
      × ((u : Program) → Mute t u → (u.by_client ≡ Interleaving.in_reply) × (u.main ≢ returned))
answers_merged {s} path at on client_in main_in stops up =
    let taken : MainStep s _ =
      MainStep.main_calls at (Calling.return_reply main_in up)
        (Follows.returns send_stop (close_player ∷ []) main_in stops refl refl) in
    (
      _,
      taken,
      refl,
      λ u mute.
          let (inv, x) =
            Mute-Waiting mute (Step-Sound (main_step taken) (program-Sound path)) (ground arith) in
          (x.waits, λ e. x.runs (inv.client_joined (ground arith))),
    )
