-- ===== src/Server/Descriptors.antt =====
-- The descriptor set of the server's loop.
use lightning_cast_endpoint.Base.{
  ℕ, zero, suc, ◌+◌, ◌≤◌, ◌<◌, ◌≡◌, ◌≢◌, ◌&&◌, Bool, true, List, [], ◌∷◌, Option, none, some, arith,
  Run, Bool-cases, Option-cases, inl, inr, subst, ℕ_discrete, done, >>=-eq-done,
}
use lightning_cast_endpoint.Json.{JsonCpp}
use lightning_cast_endpoint.Wire.Header.{cast_port}
use lightning_cast_endpoint.Util.EventFd.{EventFd, get, read}
use lightning_cast_endpoint.Util.FdSet.{fd_setsize, fits_set, is_set, is_set-fd_clear}
use lightning_cast_endpoint.Server.State.{Connection, Binding, create_and_bind}
use lightning_cast_endpoint.Server.Reported.{Reported, handle-Reported}
use lightning_cast_endpoint.Server.Loop.{
  Loop, Round, enter_loop, arrive, accept_client, serve, visit, visit_all, handle, run_server,
}

-- The loop watches its listener and `wake_fd`, its bound reaches every descriptor in the set, and
-- every one has room in an fd_set.
pub record Sound {L : Type 0} (s : Loop L) : Type 0 where
  pub listens : is_set s.listener s.master ≡ true
  pub wakes : is_set (get s.wake_fd) s.master ≡ true
  pub bounded : (j : ℕ) → is_set j s.master ≡ true → j ≤ s.fdmax
  pub fits : s.fdmax < fd_setsize

pub enter_loop-Sound :
    {L : Type 0} (client : L) (wake_fd : EventFd) (listener : ℕ) (sockets : ℕ → Connection)
    → fits_set listener ≡ true
    → fits_set (get wake_fd) ≡ true
    → Sound (enter_loop client wake_fd listener sockets)
unfolding is_set
enter_loop-Sound client wake_fd listener sockets fits fits' = record {
  listens = ground arith;
  wakes = ground arith;
  bounded = λ j h. ground arith;
  fits = ground arith;
}

accept_client-Sound :
    {L : Type 0} (a : Option (ℕ × Connection)) (s t : Loop L) (u : Unit {0})
    → accept_client a s ≡ done (u, t)
    → Sound s
    → Sound t
unfolding accept_client is_set
accept_client-Sound none s t u h v = subst Sound (ground arith) v
accept_client-Sound (some (fd, c)) s t u h v = record {
  listens = ground (arith, v.listens);
  wakes = ground (arith, v.wakes);
  bounded = λ j m. ground (arith, v.bounded j);
  fits = ground (arith, v.fits);
}

module _ (json : JsonCpp) {L : Type 0} (client_open : List ℕ → Run L Bool) where
  -- Where select reports another descriptor alone, nothing is done.
  pub visit_other :
      (r : Round) (i j : ℕ) (s : Loop L)
      → r.ready ≡ i ∷ []
      → j ≢ i
      → visit json client_open r j s ≡ done (tt, s)
  unfolding visit is_set
  visit_other r i j s only apart = ground arith

  serve-Sound :
      (i : ℕ) (s t : Loop L) (u : Unit {0})
      → i ≢ s.listener
      → i ≢ get s.wake_fd
      → serve json client_open i s ≡ done (u, t)
      → Sound s
      → Sound t
  unfolding serve
  serve-Sound i s t u a b h v = record {
    listens = ground (arith, v.listens, is_set-fd_clear i s.listener s.master);
    wakes = ground (arith, v.wakes, is_set-fd_clear i (get s.wake_fd) s.master);
    bounded = λ j m. ground (arith, v.bounded j, is_set-fd_clear i j s.master);
    fits = ground (arith, v.fits);
  }

  wake-Sound :
      (s : Loop L) → Sound s → Sound (record s { wake_fd = (read s.wake_fd).1; stop = true })
  unfolding read
  wake-Sound s v = record {
    listens = v.listens;
    wakes = ground (arith, v.wakes);
    bounded = v.bounded;
    fits = v.fits;
  }

  visit-Sound :
      (r : Round) (i : ℕ) (s t : Loop L) (u : Unit {0})
      → visit json client_open r i s ≡ done (u, t)
      → Sound s
      → Sound t
  unfolding visit
  visit-Sound r i s t u h v = elim (Bool-cases (is_set i r.ready)) [
    | inr quiet ↦ subst Sound (ground arith) v
    | inl hit ↦ elim (ℕ_discrete i s.listener) [
      | yes a ↦ accept_client-Sound r.accepts s t u (ground arith) v
      | no a ↦ elim (ℕ_discrete i (get s.wake_fd)) [
        | yes b ↦ subst Sound (ground arith) (wake-Sound s v)
        | no b ↦ serve-Sound i s t u a b (ground arith) v
      ]
    ]
  ]

  visit_all-Sound :
      (r : Round) (n i : ℕ) (s t : Loop L) (u : Unit {0})
      → visit_all json client_open r n i s ≡ done (u, t)
      → Sound s
      → Sound t
  unfolding visit_all
  visit_all-Sound r zero i s t u h v = subst Sound (ground arith) v
  visit_all-Sound r (suc n) i s t u h v = elim (Bool-cases s.stop) [
    | inl stopped ↦ subst Sound (ground arith) v
    | inr on ↦
        let (x, s', visited, rest) =
          >>=-eq-done (visit json client_open r i) (λ _. visit_all json client_open r n (suc i)) s
            (simp on at h) in
        visit_all-Sound r n (suc i) s' t u rest (visit-Sound r i s s' x visited v)
  ]

  -- From a sound state, whatever select reports and the connections bring, if the loop returns the
  -- state is sound: its listener and `wake_fd` are in the set and its bound reaches every
  -- descriptor in the set; and the flag that ends the loop is set.
  pub handle-Sound :
      (rounds : List Round) (s t : Loop L) (u : Unit {0})
      → handle json client_open rounds s ≡ done (u, t)
      → Sound s
      → Sound t × (t.stop ≡ true)
  unfolding handle
  handle-Sound [] s t u h v = cc
  handle-Sound (r ∷ rounds) s t u h v = elim (Bool-cases s.stop) [
    | inl stopped ↦ (subst Sound (ground arith) v, ground arith)
    | inr on ↦ elim (Bool-cases r.works) [
      | inr broken ↦ ground arith
      | inl works ↦
          let (x, s', visited, rest) =
            >>=-eq-done (visit_all json client_open r (s.fdmax + 1) 0)
              (λ _. handle json client_open rounds) (arrive r s) (ground arith) in
          handle-Sound rounds s' t u rest (
            visit_all-Sound r (s.fdmax + 1) 0 (arrive r s) s' x visited
              (record { listens = v.listens; wakes = v.wakes; bounded = v.bounded; fits = v.fits }))
    ]
  ]

  -- Whatever the calls before the loop return, whatever select reports and the connections bring: if the
  -- server's thread returns, its listener and `wake_fd` are still in the set, its bound reaches every
  -- descriptor in the set, the flag that ends the loop is set, and in one of the rounds select has reported `wake_fd`.
  pub run_server-Sound :
      (b : Binding) (client : L) (wake_fd : EventFd) (sockets : ℕ → Connection)
      (rounds : List Round) (t : Loop L) (u : Unit {0})
      → run_server json client_open b client wake_fd sockets rounds ≡ done (u, t)
      → Sound t × (t.stop ≡ true) × Reported (get wake_fd) rounds
  unfolding run_server
  run_server-Sound b client wake_fd sockets rounds t u h =
      elim (Option-cases (create_and_bind cast_port b)) [
        | inl none_bound ↦ ground arith
        | inr (listener, bound) ↦ elim (Bool-cases (fits_set listener && fits_set (get wake_fd))) [
          | inl fit ↦
              let entry = enter_loop client wake_fd listener sockets in
              let ran : handle json client_open rounds entry ≡ done (u, t) = ground arith in
              let (sound, stopped) =
                handle-Sound rounds entry t u ran (
                  enter_loop-Sound client wake_fd listener sockets (ground arith) (ground arith)) in
              let reported : Reported (get wake_fd) rounds =
                elim (handle-Reported json client_open rounds entry t u ran) [
                  | inl already ↦ cc
                  | inr told ↦ told
                ] in
              (sound, stopped, reported)
          | inr none_fits ↦ ground arith
        ]
      ]
