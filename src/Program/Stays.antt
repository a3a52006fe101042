-- ===== src/Program/Stays.antt =====
-- What the steps of the other threads leave alone: how each sees the player's component, a thread that has
-- exited, and an `Exit` that has returned.
use lightning_cast_endpoint.Base.{◌≡◌, arith}
use lightning_cast_endpoint.Client.Channel
use lightning_cast_endpoint.Client.Channel.{exited, over}
use lightning_cast_endpoint.Snapcast.Interleaving
use lightning_cast_endpoint.Snapcast.Interleaving.{Caller, Work, Player, Calling}
use lightning_cast_endpoint.Snapcast.Interleaving.Safety.{Inv}
use lightning_cast_endpoint.Program.{seen_from}

-- The component's own steps and the player's do not depend on the caller.
pub Work-seen_from :
    {s t : Interleaving.Threads} (c : Caller) → Work s t → Inv (seen_from c s) → Inv (seen_from c t)
Work-seen_from c (Work.handle_open w e) inv = ground arith
Work-seen_from c (Work.handle_close w e) inv = ground arith
Work-seen_from c (Work.handle_none w e) inv = ground arith
Work-seen_from c (Work.handle_exit w e) inv = ground arith
Work-seen_from c (Work.wake_up w r) inv = ground arith
Work-seen_from c (Work.finish_open w) inv = ground arith
Work-seen_from c (Work.loop_on w e) inv = ground arith
Work-seen_from c (Work.loop_off w e) inv = ground arith
Work-seen_from c (Work.select_wake w k) inv = ground arith
Work-seen_from c (Work.tear_down w) inv = ground arith

pub Player-seen_from :
    {s t : Interleaving.Threads} (c : Caller)
    → Player s t
    → Inv (seen_from c s)
    → Inv (seen_from c t)
Player-seen_from c (Player.connect_fails w) inv = inv
Player-seen_from c (Player.connect_works w) inv = ground arith
Player-seen_from c (Player.answers w) inv = ground arith
Player-seen_from c (Player.breaks w) inv = ground arith
Player-seen_from c (Player.begins w) inv = ground arith
Player-seen_from c (Player.cuts w) inv = ground arith

-- A thread that stands at `c` in a call keeps its view of the component when one at `d` goes on with its own.
pub Calling-seen_from :
    (s : Interleaving.Threads) {t : Interleaving.Threads} (c d : Caller)
    → Calling (seen_from d s) t
    → Inv (seen_from c s)
    → Inv (seen_from c t)
Calling-seen_from s c d (Calling.call_open f) inv = ground arith
Calling-seen_from s c d (Calling.call_close f) inv = ground arith
Calling-seen_from s c d (Calling.call_send f o) inv = ground arith
Calling-seen_from s c d (Calling.return_open f r e) inv = ground arith
Calling-seen_from s c d (Calling.return_close f r e) inv = ground arith
Calling-seen_from s c d (Calling.return_reply f p) inv = ground arith

-- The player's component: its thread stays exited.
pub snap-Work_stays :
    {s t : Interleaving.Threads}
    → Work s t
    → s.worker ≡ Interleaving.exited
    → t.worker ≡ Interleaving.exited
snap-Work_stays (Work.handle_open w c) e = ground arith
snap-Work_stays (Work.handle_close w c) e = ground arith
snap-Work_stays (Work.handle_none w c) e = ground arith
snap-Work_stays (Work.handle_exit w c) e = ground arith
snap-Work_stays (Work.wake_up w r) e = ground arith
snap-Work_stays (Work.finish_open w) e = ground arith
snap-Work_stays (Work.loop_on w c) e = ground arith
snap-Work_stays (Work.loop_off w c) e = ground arith
snap-Work_stays (Work.select_wake w k) e = ground arith
snap-Work_stays (Work.tear_down w) e = ground arith

pub Player-stays :
    {s t : Interleaving.Threads}
    → Player s t
    → s.worker ≡ Interleaving.exited
    → t.worker ≡ Interleaving.exited
Player-stays (Player.connect_fails w) e = ground arith
Player-stays (Player.connect_works w) e = ground arith
Player-stays (Player.answers w) e = ground arith
Player-stays (Player.breaks w) e = ground arith
Player-stays (Player.begins w) e = ground arith
Player-stays (Player.cuts w) e = ground arith

pub Calling-stays :
    {s t : Interleaving.Threads}
    → Calling s t
    → s.worker ≡ Interleaving.exited
    → t.worker ≡ Interleaving.exited
Calling-stays (Calling.call_open f) e = ground arith
Calling-stays (Calling.call_close f) e = ground arith
Calling-stays (Calling.call_send f o) e = ground arith
Calling-stays (Calling.return_open f r c) e = ground arith
Calling-stays (Calling.return_close f r c) e = ground arith
Calling-stays (Calling.return_reply f p) e = ground arith

-- The client.
abbrev pub Stays : Channel.Threads → Channel.Threads → Type 0
Stays s t = (s.worker ≡ exited → t.worker ≡ exited) × (s.main ≡ over → t.main ≡ over)

-- Where its callers stand.
abbrev pub Callers : Channel.Threads → Channel.Threads → Type 0
Callers s t = (t.server ≡ s.server) × (t.main ≡ s.main)

pub client-Work-Stays : {s t : Channel.Threads} → Channel.Work s t → Stays s t × Callers s t
client-Work-Stays (Channel.Work.handle_open w c) = ground arith
client-Work-Stays (Channel.Work.handle_close w c) = ground arith
client-Work-Stays (Channel.Work.handle_none w c) = ground arith
client-Work-Stays (Channel.Work.handle_exit w c) = ground arith
client-Work-Stays (Channel.Work.wake_up w r) = ground arith
client-Work-Stays (Channel.Work.announce w) = ground arith
client-Work-Stays (Channel.Work.finish_open w) = ground arith
client-Work-Stays (Channel.Work.deny w) = ground arith
client-Work-Stays (Channel.Work.finish_refused w) = ground arith
client-Work-Stays (Channel.Work.loop_on w c) = ground arith
client-Work-Stays (Channel.Work.loop_off w c) = ground arith
client-Work-Stays (Channel.Work.select_wake w k) = ground arith
client-Work-Stays (Channel.Work.withdraw w) = ground arith
client-Work-Stays (Channel.Work.tear_down w) = ground arith

pub phone-Stays : {s t : Channel.Threads} → Channel.Peer s t → Stays s t × Callers s t
phone-Stays (Channel.Peer.connect_works w) = ground arith
phone-Stays (Channel.Peer.connect_fails w) = ground arith
phone-Stays (Channel.Peer.goes_on w) = ground arith
phone-Stays (Channel.Peer.breaks w) = ground arith
phone-Stays (Channel.Peer.stopped w) = ground arith

pub Opening-Stays :
    {s t : Channel.Threads}
    → Channel.Opening s t
    → Stays s t × (t.worker ≡ s.worker) × (t.main ≡ s.main)
Opening-Stays (Channel.Opening.open_busy f o) = ground arith
Opening-Stays (Channel.Opening.open_clear f o) = ground arith
Opening-Stays (Channel.Opening.open_closes f) = ground arith
Opening-Stays (Channel.Opening.close_returns f r c) = ground arith
Opening-Stays (Channel.Opening.open_asks f) = ground arith
Opening-Stays (Channel.Opening.open_returns f r c) = ground arith

pub Exiting-Stays :
    {s t : Channel.Threads}
    → Channel.Exiting s t
    → Stays s t × (t.worker ≡ s.worker) × (t.server ≡ s.server)
Exiting-Stays (Channel.Exiting.exit_busy f o) = ground arith
Exiting-Stays (Channel.Exiting.exit_clear f o) = ground arith
Exiting-Stays (Channel.Exiting.exit_closes f) = ground arith
Exiting-Stays (Channel.Exiting.exit_closed f r c) = ground arith
Exiting-Stays (Channel.Exiting.exit_asks f) = ground arith
