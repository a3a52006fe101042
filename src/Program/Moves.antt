-- ===== src/Program/Moves.antt =====
-- What a step of the program is for each class.
use lightning_cast_endpoint.Base.{◌≤◌, ◌≡◌, refl, ◌⊎◌, inl, inr, arith}
use lightning_cast_endpoint.Client.Channel
use lightning_cast_endpoint.Snapcast.State.{exiting}
use lightning_cast_endpoint.Snapcast.Interleaving
use lightning_cast_endpoint.Snapcast.Interleaving.{Caller, Work, Player, Calling}
use lightning_cast_endpoint.Program.{
  exiting_snap, place, seen_from, Program, ThreadStep, MainStep, Step, run, main_step,
}

-- The client's threads make a step or none.
abbrev pub ClientMove : Program → Program → Type 0
ClientMove s t = (t.client ≡ s.client) ⊎ Channel.Step s.client t.client

pub Step-ClientMove : {s t : Program} → Step s t → ClientMove s t
Step-ClientMove (run (ThreadStep.publishes on m e)) = inl refl
Step-ClientMove (run (ThreadStep.snap_works on m)) = inl refl
Step-ClientMove (run (ThreadStep.player_acts on m)) = inl refl
Step-ClientMove (run (ThreadStep.client_works on f d m)) = inr (Channel.work m)
Step-ClientMove (run (ThreadStep.phone_acts on f d m b)) = inr (Channel.peer m)
Step-ClientMove (run (ThreadStep.client_calls on m k)) = inl refl
Step-ClientMove (run (ThreadStep.client_unsent on f o n k)) = inl refl
Step-ClientMove (run (ThreadStep.server_begins on r q)) = inl refl
Step-ClientMove (run (ThreadStep.server_opens on r q f d m)) = inr (Channel.opening m)
Step-ClientMove (run (ThreadStep.server_calls on m k)) = inl refl
Step-ClientMove (run (ThreadStep.server_unsent on f o n k)) = inl refl
Step-ClientMove (run (ThreadStep.server_read_ends on q f d)) = inl refl
Step-ClientMove (run (ThreadStep.server_ends on q f w r)) = inl refl
Step-ClientMove (main_step (MainStep.start_publisher e)) = inl refl
Step-ClientMove (main_step (MainStep.start_snap e)) = inl refl
Step-ClientMove (main_step (MainStep.start_client e)) = inl refl
Step-ClientMove (main_step (MainStep.start_server e)) = inl refl
Step-ClientMove (main_step (MainStep.quits e)) = inl refl
Step-ClientMove (main_step (MainStep.client_exits e f d m)) = inr (Channel.exiting m)
Step-ClientMove (main_step (MainStep.main_calls e m k)) = inl refl
Step-ClientMove (main_step (MainStep.main_unsent e f o n k)) = inl refl
Step-ClientMove (main_step (MainStep.client_told e o)) = inl refl
Step-ClientMove (main_step (MainStep.snap_exits e)) = inl refl
Step-ClientMove (main_step (MainStep.server_exits e)) = inl refl
Step-ClientMove (main_step (MainStep.unregisters e m p)) = inl refl
Step-ClientMove (main_step (MainStep.asks e m p)) = inl refl
Step-ClientMove (main_step (MainStep.joins_publisher e m p)) = inl refl
Step-ClientMove (main_step (MainStep.joins_snap e w)) = inl refl
Step-ClientMove (main_step (MainStep.joins_client e w)) = inl refl
Step-ClientMove (main_step (MainStep.joins_server e w)) = inl refl

-- So do those of the player's component, the player and its callers; main gives the exit command once.
pub data SnapMove (s t : Program) : Type 0 where
  rests : t.snap ≡ s.snap → SnapMove s t
  works : Work s.snap t.snap → SnapMove s t
  plays : Player s.snap t.snap → SnapMove s t
  calls : (c : Caller) → Calling (seen_from c s.snap) t.snap → SnapMove s t
  told : s.main ≡ exiting_snap → t.snap ≡ Interleaving.command exiting s.snap → SnapMove s t

pub Step-SnapMove : {s t : Program} → Step s t → SnapMove s t
Step-SnapMove (run (ThreadStep.publishes on m e)) = rests refl
Step-SnapMove (run (ThreadStep.snap_works on m)) = works m
Step-SnapMove (run (ThreadStep.player_acts on m)) = plays m
Step-SnapMove (run (ThreadStep.client_works on f d m)) = rests refl
Step-SnapMove (run (ThreadStep.phone_acts on f d m b)) = rests refl
Step-SnapMove {s} (run (ThreadStep.client_calls on m k)) = calls s.by_client m
Step-SnapMove (run (ThreadStep.client_unsent on f o n k)) = rests refl
Step-SnapMove (run (ThreadStep.server_begins on r q)) = rests refl
Step-SnapMove (run (ThreadStep.server_opens on r q f d m)) = rests refl
Step-SnapMove {s} (run (ThreadStep.server_calls on m k)) = calls s.by_server m
Step-SnapMove (run (ThreadStep.server_unsent on f o n k)) = rests refl
Step-SnapMove (run (ThreadStep.server_read_ends on q f d)) = rests refl
Step-SnapMove (run (ThreadStep.server_ends on q f w r)) = rests refl
Step-SnapMove (main_step (MainStep.start_publisher e)) = rests refl
Step-SnapMove (main_step (MainStep.start_snap e)) = rests refl
Step-SnapMove (main_step (MainStep.start_client e)) = rests refl
Step-SnapMove (main_step (MainStep.start_server e)) = rests refl
Step-SnapMove (main_step (MainStep.quits e)) = rests refl
Step-SnapMove (main_step (MainStep.client_exits e f d m)) = rests refl
Step-SnapMove {s} (main_step (MainStep.main_calls e m k)) = calls s.by_main m
Step-SnapMove (main_step (MainStep.main_unsent e f o n k)) = rests refl
Step-SnapMove (main_step (MainStep.client_told e o)) = rests refl
Step-SnapMove (main_step (MainStep.snap_exits e)) = told e refl
Step-SnapMove (main_step (MainStep.server_exits e)) = rests refl
Step-SnapMove (main_step (MainStep.unregisters e m p)) = rests refl
Step-SnapMove (main_step (MainStep.asks e m p)) = rests refl
Step-SnapMove (main_step (MainStep.joins_publisher e m p)) = rests refl
Step-SnapMove (main_step (MainStep.joins_snap e w)) = rests refl
Step-SnapMove (main_step (MainStep.joins_client e w)) = rests refl
Step-SnapMove (main_step (MainStep.joins_server e w)) = rests refl

-- Main does not go back.
pub Step-place : {s t : Program} → Step s t → place s.main ≤ place t.main
Step-place (run (ThreadStep.publishes on m e)) = omega arith
Step-place (run (ThreadStep.snap_works on m)) = omega arith
Step-place (run (ThreadStep.player_acts on m)) = omega arith
Step-place (run (ThreadStep.client_works on f d m)) = omega arith
Step-place (run (ThreadStep.phone_acts on f d m b)) = omega arith
Step-place (run (ThreadStep.client_calls on m k)) = omega arith
Step-place (run (ThreadStep.client_unsent on f o n k)) = omega arith
Step-place (run (ThreadStep.server_begins on r q)) = omega arith
Step-place (run (ThreadStep.server_opens on r q f d m)) = omega arith
Step-place (run (ThreadStep.server_calls on m k)) = omega arith
Step-place (run (ThreadStep.server_unsent on f o n k)) = omega arith
Step-place (run (ThreadStep.server_read_ends on q f d)) = omega arith
Step-place (run (ThreadStep.server_ends on q f w r)) = omega arith
Step-place (main_step (MainStep.start_publisher e)) = ground arith
Step-place (main_step (MainStep.start_snap e)) = ground arith
Step-place (main_step (MainStep.start_client e)) = ground arith
Step-place (main_step (MainStep.start_server e)) = ground arith
Step-place (main_step (MainStep.quits e)) = ground arith
Step-place (main_step (MainStep.client_exits e f d m)) = ground arith
Step-place (main_step (MainStep.main_calls e m k)) = ground arith
Step-place (main_step (MainStep.main_unsent e f o n k)) = ground arith
Step-place (main_step (MainStep.client_told e o)) = ground arith
Step-place (main_step (MainStep.snap_exits e)) = ground arith
Step-place (main_step (MainStep.server_exits e)) = ground arith
Step-place (main_step (MainStep.unregisters e m p)) = ground arith
Step-place (main_step (MainStep.asks e m p)) = ground arith
Step-place (main_step (MainStep.joins_publisher e m p)) = ground arith
Step-place (main_step (MainStep.joins_snap e w)) = ground arith
Step-place (main_step (MainStep.joins_client e w)) = ground arith
Step-place (main_step (MainStep.joins_server e w)) = ground arith
