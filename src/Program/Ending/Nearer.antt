-- ===== src/Program/Ending/Nearer.antt =====
-- Every step brings main nearer to its end.
use lightning_cast_endpoint.Base.{◌<◌, ◌≡◌, refl, ◌⊎◌, inl, inr, true, false, arith}
use lightning_cast_endpoint.Client.Channel
use lightning_cast_endpoint.Client.Channel.Heard
use lightning_cast_endpoint.Snapcast.Interleaving.Exit
use lightning_cast_endpoint.Publisher.Lifecycle
use lightning_cast_endpoint.Publisher.Lifecycle.{Thread, registering, publishing, sleeping, ended}
use lightning_cast_endpoint.Program.Sound.{Sound}
use lightning_cast_endpoint.Program.Standing.{Follows-same, Unsent-same}
use lightning_cast_endpoint.Program.{
  Position, joining_publisher, joining_snap, joining_client, joining_server, returned, place,
  Program, ThreadStep, MainStep,
}
use lightning_cast_endpoint.Program.Ending.{
  is_behind, Told, is_left_out, Closing, thread, main, thread_rank, distance,
}

-- Progress, with what `Told` says kept.
abbrev pub Nearer : Program → Program → Type 0
Nearer s t = Told t × (distance t < distance s)

publisher_closer :
    {p q : Lifecycle.Publisher}
    → Lifecycle.Step p q
    → q.main ≡ p.main
    → p.stop_thread ≡ true
    → thread_rank q.thread < thread_rank p.thread
publisher_closer (Lifecycle.Step.registers a) e h = ground arith
publisher_closer (Lifecycle.Step.fails a) e h = ground arith
publisher_closer (Lifecycle.Step.registered a) e h = ground arith
publisher_closer (Lifecycle.Step.sleeps a b) e h = ground arith
publisher_closer (Lifecycle.Step.ends a b) e h = ground arith
publisher_closer (Lifecycle.Step.unregister a b) e h = ground arith
publisher_closer (Lifecycle.Step.unregister_null a b) e h = ground arith
publisher_closer (Lifecycle.Step.unregister_unset a b) e h = ground arith
publisher_closer (Lifecycle.Step.asks a) e h = ground arith
publisher_closer (Lifecycle.Step.joins a b) e h = ground arith

joins_first : (p : Position) → 9 < place p → (p ≡ joining_publisher) ⊎ (10 < place p)
joins_first joining_publisher h = inl refl
joins_first joining_snap h = inr (omega arith)
joins_first joining_client h = inr (omega arith)
joins_first joining_server h = inr (omega arith)
joins_first returned h = inr (omega arith)
joins_first other h = absurd (ground arith)

-- At its joins main has told the publisher's thread.
pub Told-publisher : {s : Program} → Sound s → Told s → s.publisher.stop_thread ≡ true
Told-publisher {s} inv h = elim (joins_first s.main h.joins) [
  | inl first ↦ inv.publisher.stopping (inl (inv.publisher_asked first))
  | inr later ↦ inv.publisher.stopping (inr (inv.publisher_joined later))
]

-- Behind a session the client's thread begins none.
Work-behind :
    {s t : Channel.Threads}
    → Channel.Work s t
    → is_behind s.worker ≡ true
    → Heard.Heard s
    → is_behind t.worker ≡ true
Work-behind (Channel.Work.handle_open w c) b h = ground arith
Work-behind (Channel.Work.handle_close w c) b h = ground arith
Work-behind (Channel.Work.handle_none w c) b h = ground arith
Work-behind (Channel.Work.handle_exit w c) b h = ground arith
Work-behind (Channel.Work.wake_up w r) b h = ground arith
Work-behind (Channel.Work.tear_down w) b h = ground arith
Work-behind (Channel.Work.announce w) b h = absurd (ground arith)
Work-behind (Channel.Work.finish_open w) b h = absurd (ground arith)
Work-behind (Channel.Work.deny w) b h = absurd (ground arith)
Work-behind (Channel.Work.finish_refused w) b h = absurd (ground arith)
Work-behind (Channel.Work.loop_on w c) b h = absurd (ground arith)
Work-behind (Channel.Work.loop_off w c) b h = absurd (ground arith)
Work-behind (Channel.Work.select_wake w k) b h = absurd (ground arith)
Work-behind (Channel.Work.withdraw w) b h = absurd (ground arith)

pub Peer-behind : {s t : Channel.Threads} → Channel.Peer s t → is_behind s.worker ≡ true → ⊥
Peer-behind (Channel.Peer.connect_works w) b = ground arith
Peer-behind (Channel.Peer.connect_fails w) b = ground arith
Peer-behind (Channel.Peer.goes_on w) b = ground arith
Peer-behind (Channel.Peer.breaks w) b = ground arith
Peer-behind (Channel.Peer.stopped w) b = ground arith

ThreadStep-Nearer :
    {s t : Program} (m : ThreadStep s t) → is_left_out m ≡ false → Sound s → Told s → Nearer s t
ThreadStep-Nearer (ThreadStep.publishes on m e) f inv h =
    ground (arith, publisher_closer m e (Told-publisher inv h))
ThreadStep-Nearer (ThreadStep.snap_works on m) f inv h =
    ground (arith, Exit.Work-Closer m h.snap, Exit.Work-is_listening m h.snap h.silent)
ThreadStep-Nearer (ThreadStep.player_acts on m) f inv h =
    absurd (Exit.Player-is_listening m h.snap h.silent)
ThreadStep-Nearer (ThreadStep.client_works on c d m) f inv h =
    ground (arith, Heard.Work-Closer m h.client, Work-behind m h.behind h.client)
ThreadStep-Nearer (ThreadStep.phone_acts on c d m b) f inv h = absurd (Peer-behind m h.behind)
ThreadStep-Nearer (ThreadStep.client_calls on m k) f inv h =
    absurd (ground (arith, Follows-same k inv.client_handles, h.behind))
ThreadStep-Nearer (ThreadStep.client_unsent on c o n k) f inv h =
    absurd (ground (arith, Unsent-same k inv.client_handles, h.behind))
ThreadStep-Nearer (ThreadStep.server_begins on r q) f inv h = ground arith
ThreadStep-Nearer (ThreadStep.server_opens on r q c d m) f inv h = ground arith
ThreadStep-Nearer (ThreadStep.server_calls on m k) f inv h =
    absurd (ground (arith, Follows-same k inv.server_stops, h.no_open))
ThreadStep-Nearer (ThreadStep.server_unsent on c o n k) f inv h =
    absurd (ground (arith, Unsent-same k inv.server_stops, h.no_open))
ThreadStep-Nearer (ThreadStep.server_read_ends on q r d) f inv h = ground arith
ThreadStep-Nearer (ThreadStep.server_ends on q c w r) f inv h = ground arith

join_keeps :
    {p q : Lifecycle.Publisher}
    → Lifecycle.Step p q
    → p.main ≡ Lifecycle.joining
    → q.main ≡ Lifecycle.joined
    → q.thread ≡ p.thread
join_keeps (Lifecycle.Step.registers a) e h = ground arith
join_keeps (Lifecycle.Step.fails a) e h = ground arith
join_keeps (Lifecycle.Step.registered a) e h = ground arith
join_keeps (Lifecycle.Step.sleeps a b) e h = ground arith
join_keeps (Lifecycle.Step.ends a b) e h = ground arith
join_keeps (Lifecycle.Step.unregister a b) e h = ground arith
join_keeps (Lifecycle.Step.unregister_null a b) e h = ground arith
join_keeps (Lifecycle.Step.unregister_unset a b) e h = ground arith
join_keeps (Lifecycle.Step.asks a) e h = ground arith
join_keeps (Lifecycle.Step.joins a b) e h = ground arith

MainStep-Nearer : {s t : Program} → MainStep s t → Sound s → Told s → Nearer s t
MainStep-Nearer (MainStep.start_publisher e) inv h = ground arith
MainStep-Nearer (MainStep.start_snap e) inv h = ground arith
MainStep-Nearer (MainStep.start_client e) inv h = ground arith
MainStep-Nearer (MainStep.start_server e) inv h = ground arith
MainStep-Nearer (MainStep.quits e) inv h = ground arith
MainStep-Nearer (MainStep.client_exits e f d m) inv h = ground arith
MainStep-Nearer (MainStep.main_calls e m k) inv h = ground arith
MainStep-Nearer (MainStep.main_unsent e f o n k) inv h = ground arith
MainStep-Nearer (MainStep.client_told e o) inv h = ground arith
MainStep-Nearer (MainStep.snap_exits e) inv h = ground arith
MainStep-Nearer (MainStep.server_exits e) inv h = ground arith
MainStep-Nearer (MainStep.unregisters e m p) inv h = ground arith
MainStep-Nearer (MainStep.asks e m p) inv h = ground arith
MainStep-Nearer (MainStep.joins_publisher e m p) inv h =
    ground (arith, join_keeps m (inv.publisher_asked e) p)
MainStep-Nearer (MainStep.joins_snap e x) inv h = ground arith
MainStep-Nearer (MainStep.joins_client e x) inv h = ground arith
MainStep-Nearer (MainStep.joins_server e x) inv h = ground arith

pub Closing-Nearer : {s t : Program} → Closing s t → Sound s → Told s → Nearer s t
Closing-Nearer (thread m f) inv h = ThreadStep-Nearer m f inv h
Closing-Nearer (main m) inv h = MainStep-Nearer m inv h
