-- ===== src/Snapcast/Interleaving/Unheard.antt =====
-- Which notifications of `cond` reach the thread that they are for, and one that does not, with one calling thread.
use lightning_cast_endpoint.Base.{◌≡◌, ◌⊎◌, inl, inr, Bool-cases, refl, true, false, arith}
use lightning_cast_endpoint.Snapcast.State.{exiting}
use lightning_cast_endpoint.Snapcast.Interleaving.{
  waiting, in_reply, Threads, Work, Player, Calling,
}
use lightning_cast_endpoint.Snapcast.Interleaving.Notify.{
  CondSleepers, all_awake, falls_asleep, gives_command, lock_signals, Notified, CondTurn, CondExit,
  CondTrace, start, turn, leave, CondTurns, at_once, then,
}

-- Main's `Exit` has come and the class's own thread has not heard it: the caller waits for an answer.
abbrev Passed : Threads → Type 0
Passed t = (t.cmd ≡ exiting) × (t.caller ≡ in_reply) × (t.pending ≡ false)

record Heard (s : CondSleepers) : Type 0 where
  where_worker : s.worker_sleeps ≡ true → s.threads.worker ≡ waiting
  where_caller : s.caller_sleeps ≡ true → s.threads.caller ≡ in_reply
  unanswered : s.caller_sleeps ≡ true → s.threads.pending ≡ false
  uncalled : s.worker_sleeps ≡ true → (s.threads.ready ≡ false) ⊎ Passed s.threads

Heard-all_awake : Heard all_awake
Heard-all_awake = ground arith

-- A step of the class's own thread leaves the caller and `pending` alone.
Work-caller :
    {s t : Threads}
    → Work s t
    → (t.caller ≡ s.caller)
      × (t.pending ≡ s.pending)
      × (falls_asleep t.worker t.ready ≡ true → (t.worker ≡ waiting) × (t.ready ≡ false))
Work-caller (Work.handle_open w c) = ground arith
Work-caller (Work.handle_close w c) = ground arith
Work-caller {s} (Work.handle_none w c) = ground arith
Work-caller (Work.handle_exit w c) = ground arith
Work-caller (Work.wake_up w r) = ground arith
Work-caller (Work.finish_open w) = ground arith
Work-caller (Work.loop_on w c) = ground arith
Work-caller (Work.loop_off w c) = ground arith
Work-caller (Work.select_wake w k) = ground arith
Work-caller (Work.tear_down w) = ground arith

-- What the others do while the class's own thread stands in `handle`'s wait.
Player-elsewhere : {s t : Threads} → Player s t → ¬ (s.worker ≡ waiting)
Player-elsewhere (Player.connect_fails w) e = ground arith
Player-elsewhere (Player.connect_works w) e = ground arith
Player-elsewhere (Player.answers w) e = ground arith
Player-elsewhere (Player.breaks w) e = ground arith
Player-elsewhere (Player.begins w) e = ground arith
Player-elsewhere (Player.cuts w) e = ground arith

Player-caller :
    {s t : Threads} (m : Player s t)
    → (t.caller ≡ s.caller) × (lock_signals m ≡ false → t.pending ≡ s.pending)
Player-caller (Player.connect_fails w) = ground arith
Player-caller (Player.connect_works w) = ground arith
Player-caller (Player.answers w) = ground arith
Player-caller (Player.breaks w) = ground arith
Player-caller (Player.begins w) = ground arith
Player-caller (Player.cuts w) = ground arith

-- A call is made, or returns, when the caller does not wait for an answer or has it.
Calling-answered : {s t : Threads} → Calling s t → s.caller ≡ in_reply → s.pending ≡ true
Calling-answered (Calling.call_open f) e = ground arith
Calling-answered (Calling.call_close f) e = ground arith
Calling-answered (Calling.call_send f o) e = ground arith
Calling-answered (Calling.return_open f r c) e = ground arith
Calling-answered (Calling.return_close f r c) e = ground arith
Calling-answered (Calling.return_reply f p) e = p

Calling-worker :
    {s t : Threads} (m : Calling s t)
    → (t.worker ≡ s.worker) × (gives_command m ≡ false → t.ready ≡ s.ready)
Calling-worker (Calling.call_open f) = ground arith
Calling-worker (Calling.call_close f) = ground arith
Calling-worker (Calling.call_send f o) = ground arith
Calling-worker (Calling.return_open f r c) = ground arith
Calling-worker (Calling.return_close f r c) = ground arith
Calling-worker (Calling.return_reply f p) = ground arith

CondTurn-Heard : {s t : CondSleepers} → CondTurn s t → Heard s → Heard t
CondTurn-Heard (CondTurn.works z m) h = ground (arith, Work-caller m)
CondTurn-Heard (CondTurn.plays m n) h = ground (arith, Player-caller m, Player-elsewhere m)
CondTurn-Heard (CondTurn.signals m n (Notified.worker_wakes w)) h =
    absurd (Player-elsewhere m (h.where_worker w))
CondTurn-Heard (CondTurn.signals m n (Notified.caller_wakes c)) h =
    ground (arith, Player-elsewhere m)
CondTurn-Heard (CondTurn.signals m n (Notified.nobody w c)) h = ground arith
CondTurn-Heard (CondTurn.calls z m n) h = ground (arith, Calling-worker m, Calling-answered m)
CondTurn-Heard (CondTurn.commands z m n (Notified.worker_wakes w)) h = ground arith
CondTurn-Heard (CondTurn.commands z m n (Notified.caller_wakes c)) h = ground arith
CondTurn-Heard (CondTurn.commands z m n (Notified.nobody w c)) h = ground arith
CondTurn-Heard (CondTurn.caller_waits c p) h = ground arith
CondTurn-Heard (CondTurn.worker_again w r) h = ground arith

CondExit-Heard : {s t : CondSleepers} → CondExit s t → Heard s → Heard t
CondExit-Heard (CondExit.exits (Notified.worker_wakes w)) h = ground arith
CondExit-Heard (CondExit.exits (Notified.caller_wakes c)) h = ground arith
CondExit-Heard (CondExit.exits (Notified.nobody w c)) h = ground arith

CondTrace-Heard : {s : CondSleepers} → CondTrace all_awake s → Heard s
CondTrace-Heard start = Heard-all_awake
CondTrace-Heard (turn path m) = CondTurn-Heard m (CondTrace-Heard path)
CondTrace-Heard (leave path m) = CondExit-Heard m (CondTrace-Heard path)

-- With one calling thread beside main, no answer and no command of the caller goes unheard: in every reachable state the caller is awake, or it stands in
-- `LockWait` and no answer is there; and the class's own thread is awake, or it stands in `handle`'s wait and no
-- command is there but, it may be, main's `Exit`, that one only while the caller waits for an answer.
pub asleep_unneeded :
    {s : CondSleepers}
    → CondTrace all_awake s
    → ((s.caller_sleeps ≡ false) ⊎ ((s.threads.caller ≡ in_reply) × (s.threads.pending ≡ false)))
      × ((s.worker_sleeps ≡ false)
          ⊎ ((s.threads.worker ≡ waiting)
              × ((s.threads.ready ≡ false)
                  ⊎ ((s.threads.cmd ≡ exiting)
                      × (s.threads.caller ≡ in_reply)
                      × (s.threads.pending ≡ false)))))
asleep_unneeded {s} path =
    let h = CondTrace-Heard path in
    (
      elim (Bool-cases s.caller_sleeps) [
        | inl c ↦ inr (h.where_caller c, h.unanswered c)
        | inr c ↦ inl c
      ],
      elim (Bool-cases s.worker_sleeps) [
        | inl w ↦ inr (h.where_worker w, h.uncalled w)
        | inr w ↦ inl w
      ],
    )

-- `Exit` has woken the wrong thread.
record Unheard (s : CondSleepers) : Type 0 where
  sleeps : s.worker_sleeps ≡ true
  stands : s.threads.worker ≡ waiting
  passed : Passed s.threads

CondTurn-Unheard : {s t : CondSleepers} → CondTurn s t → Unheard s → Unheard t
CondTurn-Unheard (CondTurn.works z m) x = ground arith
CondTurn-Unheard (CondTurn.plays m n) x = absurd (Player-elsewhere m x.stands)
CondTurn-Unheard (CondTurn.signals m n y) x = absurd (Player-elsewhere m x.stands)
CondTurn-Unheard (CondTurn.calls z m n) x = ground (arith, Calling-answered m)
CondTurn-Unheard (CondTurn.commands z m n y) x = ground (arith, Calling-answered m)
CondTurn-Unheard (CondTurn.caller_waits c p) x = ground arith
CondTurn-Unheard (CondTurn.worker_again w r) x = ground arith

CondTurns-Unheard : {s t : CondSleepers} → CondTurns s t → Unheard s → Unheard t
CondTurns-Unheard at_once x = x
CondTurns-Unheard (then path m) x = CondTurn-Unheard m (CondTurns-Unheard path x)

-- One notify_one for two sleepers: in every reachable state in which both sleep, the class's own thread for a command and
-- the caller for an answer that does not come, the notification of `Exit` can wake the caller; then, as long as nobody
-- calls `Exit` again, the class's own thread sleeps in `handle` although the command and `ready` are there.
pub exit_unheard :
    {s : CondSleepers}
    → CondTrace all_awake s
    → s.worker_sleeps ≡ true
    → s.caller_sleeps ≡ true
    → (t : CondSleepers) × CondExit s t
      × (t.threads.cmd ≡ exiting)
      × (t.threads.ready ≡ true)
      × ((u : CondSleepers)
          → CondTurns t u
          → (u.worker_sleeps ≡ true) × (u.threads.worker ≡ waiting) × (u.threads.cmd ≡ exiting))
exit_unheard path w c =
    let h = CondTrace-Heard path in
    (
      _,
      CondExit.exits (Notified.caller_wakes c),
      refl,
      refl,
      λ u more.
          let x =
            CondTurns-Unheard more
              (ground (arith, h.where_worker w, h.where_caller c, h.unanswered c)) in
          (x.sleeps, x.stands, x.passed.0),
    )
