-- ===== src/Snapcast/Link.antt =====
-- SnapcastComm keeps the contract that the client relies on: what each call does to the connection.
use lightning_cast_endpoint.Base.{
  ℕ, ◌≡◌, refl, ap, Bool, true, false, List, [], ◌∷◌, ◌++◌, Option, none, some, arith, Run, Outcome,
  done, thrown, undefined, stuck, >>=-eq-done, inl, inr, Option-cases, Keeps,
}
use lightning_cast_endpoint.Json.{JsonCpp}
use lightning_cast_endpoint.Wire.Receive.{ReadEvent}
use lightning_cast_endpoint.Client.Contract.{Contract}
use lightning_cast_endpoint.Snapcast.State.{Snap, opening}
use lightning_cast_endpoint.Snapcast.Parse.{do_read}
use lightning_cast_endpoint.Snapcast.Calls.{
  command, close_server, finish_cmd, connect_server, watch, start_session, reopen, snap_open,
  snap_close, snap_port,
}
use lightning_cast_endpoint.Snapcast.Untouched.{
  On, watch-Keeps, send_start-Keeps, send_pause-Keeps, send_stop-Keeps,
}

abbrev is_linked : Option ℕ → Bool
is_linked none = false
is_linked (some fd) = true

abbrev pub linked : Snap → Bool
linked s = is_linked s.server_fd

-- A call that leaves the socket alone, for one state.
left_alone :
    {A : Type 0} {m : Run Snap A} {s : Snap}
    → Keeps (On s.server_fd) m
    → (s' : Snap) (a : A) → m s ≡ done (a, s')
    → s'.server_fd ≡ s.server_fd
left_alone {s} keep s' a h = keep.keeps s s' a h refl

connect_server-linked :
    (fd : ℕ) (connects : List Bool) (s s' : Snap) (u : Unit {0})
    → connect_server fd connects s ≡ done (u, s')
    → s'.server_fd ≡ some fd
unfolding connect_server
connect_server-linked fd [] s s' u h = cc
connect_server-linked fd (true ∷ later) s s' u h = ground arith
connect_server-linked fd (false ∷ later) s s' u h = connect_server-linked fd later s s' u h

start_session-linked :
    (fd : ℕ) (s s' : Snap) (u : Unit {0})
    → start_session fd s ≡ done (u, s')
    → s'.server_fd ≡ some fd
start_session-linked fd s s' u h =
    let (_, t, connects, rest) =
      >>=-eq-done (connect_server fd s.connects) _ (record s { ready = false; incoming = [] }) h in
    let on = connect_server-linked fd s.connects _ t tt connects in
    let (_, v, watches, last) = >>=-eq-done (watch fd) _ (finish_cmd t) rest in
    let same = (watch-Keeps fd).keeps (finish_cmd t) v tt watches on in ground arith

module _ (json : JsonCpp) where
  reopen-linked :
      (fd : ℕ) (turns : List (List ReadEvent)) (s s' : Snap) (u : Unit {0})
      → reopen json fd turns s ≡ done (u, s')
      → s'.server_fd ≡ some fd
  unfolding reopen
  reopen-linked fd [] s s' u h = cc
  reopen-linked fd (events ∷ turns) s s' u h =
      go (reopen-linked fd turns there s' u) (do_read json there) h
    where
      there : Snap
      there = record s { incoming = s.incoming ++ events; turns = turns }

      go :
          (reopen json fd turns there ≡ done (u, s') → s'.server_fd ≡ some fd)
          → (o : Outcome (Bool × Snap))
          → (elim o as (λ _. Outcome (Unit {0} × Snap)) [
            | done (ok, t) ↦ start_session fd (close_server t)
            | thrown ↦ thrown
            | undefined ↦ undefined
            | stuck ↦ reopen json fd turns there
          ])
            ≡ done (u, s')
          → s'.server_fd ≡ some fd
      go rest (done (ok, t)) e = start_session-linked fd (close_server t) s' u e
      go rest thrown e = cc
      go rest undefined e = cc
      go rest stuck e = rest e

  snap_open-linked :
      (fd : ℕ) (s s' : Snap) (u : Unit {0})
      → snap_open json fd s ≡ done (u, s')
      → s'.server_fd ≡ some fd
  unfolding snap_open
  snap_open-linked fd s s' u h = elim (Option-cases s.server_fd) [
    | inl closed ↦ start_session-linked fd (command opening s) s' u (ground arith)
    | inr (p, on) ↦ reopen-linked fd s.turns (command opening s) s' u (ground arith)
  ]

  snap_close-unlinked :
      (s s' : Snap) (u : Unit {0}) → snap_close s ≡ done (u, s') → s'.server_fd ≡ none
  unfolding snap_close
  snap_close-unlinked s s' u h = ground arith

  pub snap_port-Contract : (fd : ℕ) → Contract (snap_port json fd) linked
  snap_port-Contract fd = record {
    open_links = λ s s' u h. ground (arith, snap_open-linked fd s s' u h);
    close_unlinks = λ s s' u h. ground (arith, snap_close-unlinked s s' u h);
    start_keeps =
        λ ip r f c s s' b h. ap is_linked (left_alone (send_start-Keeps json ip r f c) s' b h);
    pause_keeps = λ s s' b h. ap is_linked (left_alone (send_pause-Keeps json) s' b h);
    stop_keeps = λ s s' b h. ap is_linked (left_alone (send_stop-Keeps json) s' b h);
  }
