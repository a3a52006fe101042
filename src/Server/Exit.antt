-- ===== src/Server/Exit.antt =====
-- How the server's loop ends.
use lightning_cast_endpoint.Base.{
  ℕ, zero, suc, ◌+◌, ◌≤◌, ◌<◌, ◌≡◌, ◌≢◌, refl, sym, ap, ◌∙◌, Bool, true, false, List, [], ◌∷◌,
  arith, ◌==◌, Run, ℕ_discrete, done, if◌then◌else◌,
}
use lightning_cast_endpoint.Json.{JsonCpp}
use lightning_cast_endpoint.Util.EventFd.{EventFd, get, read, write}
use lightning_cast_endpoint.Util.FdSet.{is_set}
use lightning_cast_endpoint.Server.Loop.{Loop, Round, arrive, visit, visit_all, handle, exit_server}
use lightning_cast_endpoint.Server.Descriptors.{Sound}

get-write : (e : EventFd) → get (write e) ≡ get e
unfolding write
get-write e = ground arith

module _ (json : JsonCpp) {L : Type 0} (client_open : List ℕ → Run L Bool) where
  -- After the wake-up is read.
  abbrev pub woken : Loop L → Loop L
  woken s = record s { wake_fd = (read s.wake_fd).1; stop = true }

  visit_all_stopped :
      (r : Round) (n i : ℕ) (s : Loop L)
      → s.stop ≡ true
      → visit_all json client_open r n i s ≡ done (tt, s)
  unfolding visit_all
  visit_all_stopped r zero i s h = refl
  visit_all_stopped r (suc n) i s h = ground arith

  visit_wake :
      (r : Round) (i : ℕ) (s : Loop L)
      → r.ready ≡ get s.wake_fd ∷ []
      → get s.wake_fd ≢ s.listener
      → visit json client_open r i s ≡ done (tt, if i == get s.wake_fd then woken s else s)
  unfolding visit is_set
  visit_wake r i s only apart = ground arith

  -- The `for` loop passes the descriptors below that of `wake_fd`.
  visit_all_wake :
      (r : Round) (n i : ℕ) (s : Loop L)
      → r.ready ≡ get s.wake_fd ∷ []
      → get s.wake_fd ≢ s.listener
      → s.stop ≡ false
      → i ≤ get s.wake_fd
      → get s.wake_fd < i + n
      → visit_all json client_open r n i s ≡ done (tt, woken s)
  unfolding visit_all
  visit_all_wake r zero i s only apart on low high = absurd (omega arith)
  visit_all_wake r (suc n) i s only apart on low high = elim (ℕ_discrete i (get s.wake_fd)) [
    | yes e ↦
        ground (arith, visit_wake r i s only apart, visit_all_stopped r n (suc i) (woken s) refl)
    | no e ↦ ground (
      arith,
      visit_wake r i s only apart,
      visit_all_wake r n (suc i) s only apart on (omega arith) (omega arith),
    )
  ]

  -- Once `Exit` has been called and select works and reports `wake_fd` alone, which is not the
  -- listener, the loop returns from every sound state in which it runs: no connection is touched,
  -- the client is not called, and the bytes that came meanwhile stay unread.
  pub handle_exit :
      (r r' : Round) (rounds : List Round) (s : Loop L)
      → Sound s
      → s.stop ≡ false
      → get s.wake_fd ≢ s.listener
      → r.works ≡ true
      → r.ready ≡ get s.wake_fd ∷ []
      → handle json client_open (r ∷ r' ∷ rounds) (exit_server s)
        ≡ done (tt, woken (arrive r (exit_server s)))
  unfolding handle
  handle_exit r r' rounds s v on apart works only =
      let same = get-write s.wake_fd in
      ground (
        arith,
        visit_all_wake r (s.fdmax + 1) 0 (arrive r (exit_server s))
            (only ∙ ap (λ i. i ∷ []) (sym same)) (λ e. apart (sym same ∙ e)) on (omega arith)
            (omega (arith, same, v.bounded (get s.wake_fd) v.wakes)),
      )
