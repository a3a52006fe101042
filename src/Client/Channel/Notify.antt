-- ===== src/Client/Channel/Notify.antt =====
-- The condition variable `cond_sync` of the client: two threads can sleep in it, the server's and main's, and
-- notify_one wakes one of them. Wake-ups without
-- a notification, which the language allows and does not promise, are left out.
use lightning_cast_endpoint.Base.{◌≡◌, Bool, true, false}
use lightning_cast_endpoint.Client.Channel.{
  Caller, in_open, in_close, Threads, init, Work, Peer, Opening, Exiting,
}

-- The steps that call `notify_one`: those with `finishCmd` or `LockfinishCmd`.
abbrev pub notifies : {s t : Threads} → Work s t → Bool
notifies (Work.handle_close w c) = true
notifies (Work.handle_exit w c) = true
notifies (Work.finish_open w) = true
notifies (Work.finish_refused w) = true
notifies other = false

abbrev pub waits : Caller → Bool
waits in_open = true
waits in_close = true
waits other = false

-- Which of the calling threads sleep in `cond_sync`.
pub record Sleepers : Type 0 where
  pub threads : Threads
  pub server_sleeps : Bool
  pub main_sleeps : Bool

abbrev pub awake : Sleepers
awake = record { threads = init; server_sleeps = false; main_sleeps = false }

-- The steps of the class's own thread and of the phone and the player.
pub data Inner (s : Sleepers) : Sleepers → Type 0 where
  works :
      {t : Threads}
      → (m : Work s.threads t) → notifies m ≡ false
      → Inner s (record s { threads = t })
  wakes_server :
      {t : Threads}
      → (m : Work s.threads t) → notifies m ≡ true
      → s.server_sleeps ≡ true
      → Inner s (record s { threads = t; server_sleeps = false })
  wakes_main :
      {t : Threads}
      → (m : Work s.threads t) → notifies m ≡ true
      → s.main_sleeps ≡ true
      → Inner s (record s { threads = t; main_sleeps = false })
  wakes_nobody :
      {t : Threads}
      → (m : Work s.threads t) → notifies m ≡ true
      → s.server_sleeps ≡ false
      → s.main_sleeps ≡ false
      → Inner s (record s { threads = t })
  others : {t : Threads} → Peer s.threads t → Inner s (record s { threads = t })

-- The steps of the server's thread: it begins to wait with `ready_sync` down, and so it sleeps. A thread that
-- wakes and finds it down again sleeps again.
pub data Serving (s : Sleepers) : Sleepers → Type 0 where
  serves :
      {t : Threads}
      → s.server_sleeps ≡ false
      → Opening s.threads t
      → Serving s (record s { threads = t; server_sleeps = waits t.server })
  server_again :
      waits s.threads.server ≡ true
      → s.threads.ready_sync ≡ false
      → Serving s (record s { server_sleeps = true })

-- The steps of main's thread.
pub data Leaving (s : Sleepers) : Sleepers → Type 0 where
  leaves :
      {t : Threads}
      → s.main_sleeps ≡ false
      → Exiting s.threads t
      → Leaving s (record s { threads = t; main_sleeps = waits t.main })
  main_again :
      waits s.threads.main ≡ true
      → s.threads.ready_sync ≡ false
      → Leaving s (record s { main_sleeps = true })

pub data Trace (s : Sleepers) : Sleepers → Type 0 where
  stay : Trace s s
  inner : {t u : Sleepers} → Trace s t → Inner t u → Trace s u
  serving : {t u : Sleepers} → Trace s t → Serving t u → Trace s u
  leaving : {t u : Sleepers} → Trace s t → Leaving t u → Trace s u
