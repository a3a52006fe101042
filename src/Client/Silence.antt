-- ===== src/Client/Silence.antt =====
-- A phone that falls silent: heartbeats go out, and the session ends.
use lightning_cast_endpoint.Base.{
  repeat, ℕ, suc, ◌-◌, ◌^◌, ◌≤◌, ◌<◌, ◌≡◌, refl, sym, ap, ◌∙◌, true, false, List, [], ◌∷◌, ◌++◌,
  append_assoc, append-nil, some, arith, ltb, lt→ltb, done, pure, if◌then◌else◌, length,
}
use lightning_cast_endpoint.Json.{JsonCpp}
use lightning_cast_endpoint.Util.Time.{TimeSpec, nanos, IsNormal}
use lightning_cast_endpoint.Wire.Header.{frame}
use lightning_cast_endpoint.Wire.RoundTrip.{frames}
use lightning_cast_endpoint.Client.State.{World, SnapPort}
use lightning_cast_endpoint.Client.Send.{send_alive, alive_fields}
use lightning_cast_endpoint.Client.Session.{is_idle, Round, expired, enter, session_loop}
use lightning_cast_endpoint.Client.Lifecycle.{
  check_cast_server_alive_lem, AcceptsAll, sent, process_send_accepted,
}

-- A turn in which select times out, nobody gives a command, and the clock has not gone back behind the
-- last sign of life.
pub record Quiet (alive : TimeSpec) (r : Round) : Type 0 where
  pub no_command : is_idle r.cmd ≡ true
  pub timeout : r.select ≡ expired
  pub normal : IsNormal r.clock
  pub after : nanos alive ≤ nanos r.clock
  pub range : nanos r.clock - nanos alive < 2 ^ 52

abbrev pub elapsed : TimeSpec → Round → ℕ
elapsed alive r = nanos r.clock - nanos alive

-- Turns before the limit of 5.001 seconds.
abbrev pub AllEarly : TimeSpec → List Round → Type 0
AllEarly alive [] = Unit {0}
AllEarly alive (r ∷ rounds) =
    Quiet alive r × (elapsed alive r < 5_001_000_000) × AllEarly alive rounds

module _ (json : JsonCpp) {S : Type 0} (port : SnapPort S) where
  abbrev heartbeat : List ℕ
  heartbeat = json.write alive_fields

  -- One quiet turn sends a heartbeat, then looks at the clock.
  turn :
      (r : Round) (rounds : List Round) (w : World S) (fd : ℕ)
      → Quiet w.alive_time r
      → IsNormal w.alive_time
      → w.server_fd ≡ some fd
      → AcceptsAll (heartbeat ∷ []) w.writes
      → session_loop json port (r ∷ rounds) w
        ≡ (if ltb (elapsed w.alive_time r) 5_001_000_000
              then session_loop json port rounds
              else pure tt)
            (sent heartbeat (enter r w))
  unfolding session_loop send_alive
  turn r rounds w fd q n open_fd (takes, _) = ground (
    arith,
    q.no_command,
    q.timeout,
    process_send_accepted heartbeat (enter r w) fd open_fd takes,
    check_cast_server_alive_lem (sent heartbeat (enter r w)) n q.normal q.after q.range,
  )

  -- A phone that says nothing: as long as less than 5.001 seconds have passed, every turn sends one
  -- heartbeat and the session goes on; at the first turn after that one more goes out and the loop returns,
  -- with the socket, the player and the metadata as they were. So the loop ends whenever the socket takes
  -- the heartbeats, nobody gives a command and the clock reaches the limit.
  pub session_loop_silence :
      (early : List Round) (late : Round) (rest : List Round) (w : World S) (fd : ℕ)
      → w.server_fd ≡ some fd
      → IsNormal w.alive_time
      → AllEarly w.alive_time early
      → Quiet w.alive_time late
      → 5_001_000_000 ≤ elapsed w.alive_time late
      → AcceptsAll (repeat (suc (length early)) heartbeat) w.writes
      → (w' : World S) × (session_loop json port (early ++ late ∷ rest) w ≡ done (tt, w'))
        × (w'.out ≡ w.out ++ frames (repeat (suc (length early)) heartbeat))
        × (w'.server_fd ≡ w.server_fd)
        × (w'.snap ≡ w.snap)
        × (w'.title ≡ w.title)
  session_loop_silence [] late rest w fd open_fd n _ q over takes =
      let over' : ltb (elapsed w.alive_time late) 5_001_000_000 ≡ false = ground arith in
      (
        sent heartbeat (enter late w),
        turn late rest w fd q n open_fd takes ∙ rw over',
        ap (◌++◌ w.out) (sym (append-nil (frame heartbeat))),
        refl,
        refl,
        refl,
      )
  session_loop_silence (r ∷ early) late rest w fd open_fd n (q, below, all) ql over takes =
      let (w', runs, out, same_fd, same_snap, same_title) =
        session_loop_silence early late rest (sent heartbeat (enter r w)) fd open_fd n all ql over
          (takes.1) in
      (
        w',
        turn r (early ++ late ∷ rest) w fd q n open_fd (takes.0, tt)
            ∙ rw (lt→ltb (elapsed w.alive_time r) 5_001_000_000 below) runs,
        out ∙ append_assoc w.out (frame heartbeat) (frames (repeat (suc (length early)) heartbeat)),
        same_fd,
        same_snap,
        same_title,
      )
