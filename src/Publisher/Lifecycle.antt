-- ===== src/Publisher/Lifecycle.antt =====
-- ServicePublisher::handle in its thread, and the end of main, which unregisters the service and joins the
-- thread.
use lightning_cast_endpoint.Base.{
  ◌⊎◌, ℕ, suc, ◌≡◌, ◌≢◌, Bool, true, false, arith, if◌then◌else◌, Bool-cases,
}

-- The member `svr`: without a value, since the constructor gives it none; NULL; or a server.
pub data Pointer : Type 0 where
  unset null server : Pointer

-- Where `handle` stands: before mdnsd_start has returned, at the rest of the registration, in its loop, behind it.
pub data Thread : Type 0 where
  registering publishing sleeping ended : Thread

-- Where main stands: at the keys, behind the unregistration, at the join, behind it.
pub data Main : Type 0 where
  typing unregistered joining joined : Main

-- `starts` says whether mdnsd_start gave a server, `stops` counts the calls of mdnsd_stop, and `early` says that main
-- was at `svr` before the registration was over.
pub record Publisher : Type 0 where
  pub svr : Pointer
  pub stop_thread : Bool
  pub thread : Thread
  pub main : Main
  pub starts : Bool
  pub stops : ℕ
  pub early : Bool

abbrev pub new : Publisher
new = record {
  svr = unset;
  stop_thread = false;
  thread = registering;
  main = typing;
  starts = false;
  stops = 0;
  early = false;
}

-- The registration is not over.
abbrev pub is_publishing : Thread → Bool
is_publishing registering = true
is_publishing publishing = true
is_publishing other = false

-- The rest of the registration, behind mdnsd_start, is one step. Nothing keeps main from its read of `svr` before
-- that: a member without a value is taken for NULL there, and one with another value is passed to mdnsd_stop, which is
-- undefined and has no step.
pub data Step (s : Publisher) : Publisher → Type 0 where
  registers :
      s.thread ≡ registering
      → Step s (record s { svr = server; starts = true; thread = publishing })
  fails : s.thread ≡ registering → Step s (record s { svr = null; thread = sleeping })
  registered : s.thread ≡ publishing → Step s (record s { thread = sleeping })
  sleeps : s.thread ≡ sleeping → s.stop_thread ≡ false → Step s s
  ends : s.thread ≡ sleeping → s.stop_thread ≡ true → Step s (record s { thread = ended })
  unregister :
      s.main ≡ typing
      → s.svr ≡ server
      → Step s (record s {
        svr = null;
        stops = suc s.stops;
        main = unregistered;
        early = is_publishing s.thread;
      })
  unregister_null : s.main ≡ typing → s.svr ≡ null → Step s (record s { main = unregistered })
  unregister_unset :
      s.main ≡ typing → s.svr ≡ unset → Step s (record s { main = unregistered; early = true })
  asks : s.main ≡ unregistered → Step s (record s { stop_thread = true; main = joining })
  joins : s.main ≡ joining → s.thread ≡ ended → Step s (record s { main = joined })

pub data Steps (s : Publisher) : Publisher → Type 0 where
  here : Steps s s
  later : {t u : Publisher} → Steps s t → Step t u → Steps s u

pub record Inv (s : Publisher) : Type 0 where
  pub waits : s.thread ≡ registering → s.svr ≡ unset
  pub waits_start : s.thread ≡ registering → s.starts ≡ false
  pub has_server : s.thread ≡ publishing → s.starts ≡ true
  pub late : s.thread ≢ registering → s.svr ≢ unset
  pub typed : s.main ≡ typing → s.stops ≡ 0
  pub in_time : s.main ≡ typing → s.early ≡ false
  pub begun : s.main ≢ typing → s.early ≡ false → is_publishing s.thread ≡ false
  pub keeps : s.main ≡ typing → s.svr ≡ server → s.starts ≡ true
  pub lacks : s.main ≡ typing → s.svr ≢ server → s.starts ≡ false
  pub gone : s.main ≢ typing → s.early ≡ false → s.svr ≡ null
  pub once : s.main ≢ typing → s.early ≡ false → s.stops ≡ (if s.starts then 1 else 0)
  pub over : s.main ≡ joined → s.thread ≡ ended
  pub stopping : (s.main ≡ joining) ⊎ (s.main ≡ joined) → s.stop_thread ≡ true

pub Inv-new : Inv new
Inv-new = ground arith

pub Step-Inv : {s t : Publisher} → Step s t → Inv s → Inv t
Step-Inv (Step.registers a) inv = ground arith
Step-Inv (Step.fails a) inv = ground arith
Step-Inv (Step.registered a) inv = ground arith
Step-Inv (Step.sleeps a b) inv = inv
Step-Inv (Step.ends a b) inv = ground arith
Step-Inv (Step.unregister a b) inv = ground arith
Step-Inv (Step.unregister_null a b) inv = ground arith
Step-Inv (Step.unregister_unset a b) inv = ground arith
Step-Inv (Step.asks a) inv = ground arith
Step-Inv (Step.joins a b) inv = ground arith

Steps-Inv : {s : Publisher} → Steps new s → Inv s
Steps-Inv here = Inv-new
Steps-Inv (later path st) = Step-Inv st (Steps-Inv path)

-- When main has joined the publisher's thread, however the two were interleaved, the thread has ended, and, unless main
-- was at `svr` before the registration was over, no server is left in `svr`, and mdnsd_stop has been called once if
-- mdnsd_start gave a server and not at all if it did not.
pub joined_stopped :
    {s : Publisher}
    → Steps new s
    → s.main ≡ joined
    → (s.thread ≡ ended)
      × ((s.early ≡ true) ⊎ ((s.svr ≡ null) × (s.stops ≡ (if s.starts then 1 else 0))))
joined_stopped {s} path e = let inv = Steps-Inv path in ground (arith, Bool-cases s.early)
