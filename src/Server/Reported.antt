-- ===== src/Server/Reported.antt =====
-- That the server's loop ends only after select has reported `wake_fd`.
use lightning_cast_endpoint.Base.{
  ℕ, zero, suc, ◌+◌, ◌≡◌, ◌⊎◌, Bool, true, false, List, [], ◌∷◌, Option, none, some, arith, Run,
  Bool-cases, inl, inr, subst, ℕ_discrete, done, >>=-eq-done, ◌>>◌,
}
use lightning_cast_endpoint.Json.{JsonCpp}
use lightning_cast_endpoint.Util.EventFd.{get, read}
use lightning_cast_endpoint.Util.FdSet.{is_set}
use lightning_cast_endpoint.Server.State.{Connection}
use lightning_cast_endpoint.Server.Loop.{
  Loop, Round, arrive, accept_client, serve, visit, visit_all, handle,
}

-- select has reported a descriptor in one of the rounds.
abbrev pub Reported : ℕ → List Round → Type 0
Reported fd [] = ⊥
Reported fd (r ∷ rounds) = (is_set fd r.ready ≡ true) ⊎ Reported fd rounds

newly : {A : Type 0} {b : Bool} → b ≡ false → (b ≡ true) ⊎ A → A
newly off (inl on) = absurd (ground arith)
newly off (inr a) = a

-- `wake_fd` stays the same descriptor, and if the loop is told to stop, it had been before or `wake_fd` is reported.
abbrev Tells : {L : Type 0} → Round → Loop L → Loop L → Type 0
Tells r s t =
    (get t.wake_fd ≡ get s.wake_fd)
    × (t.stop ≡ true → (s.stop ≡ true) ⊎ (is_set (get s.wake_fd) r.ready ≡ true))

accept_client-Tells :
    {L : Type 0} (r : Round) (a : Option (ℕ × Connection)) (s t : Loop L) (u : Unit {0})
    → accept_client a s ≡ done (u, t)
    → Tells r s t
unfolding accept_client
accept_client-Tells r none s t u h = ground arith
accept_client-Tells r (some (fd, c)) s t u h = ground arith

module _ (json : JsonCpp) {L : Type 0} (client_open : List ℕ → Run L Bool) where
  serve-Tells :
      (r : Round) (i : ℕ) (s t : Loop L) (u : Unit {0})
      → serve json client_open i s ≡ done (u, t)
      → Tells r s t
  unfolding serve
  serve-Tells r i s t u h = ground arith

  visit-Tells :
      (r : Round) (i : ℕ) (s t : Loop L) (u : Unit {0})
      → visit json client_open r i s ≡ done (u, t)
      → Tells r s t
  unfolding visit read
  visit-Tells r i s t u h = elim (Bool-cases (is_set i r.ready)) [
    | inr quiet ↦ ground arith
    | inl hit ↦ elim (ℕ_discrete i s.listener) [
      | yes a ↦ accept_client-Tells r r.accepts s t u (ground arith)
      | no a ↦ elim (ℕ_discrete i (get s.wake_fd)) [
        | yes b ↦ ground arith
        | no b ↦ serve-Tells r i s t u (ground arith)
      ]
    ]
  ]

  visit_all-Tells :
      (r : Round) (n i : ℕ) (s t : Loop L) (u : Unit {0})
      → visit_all json client_open r n i s ≡ done (u, t)
      → Tells r s t
  unfolding visit_all
  visit_all-Tells r zero i s t u h = ground arith
  visit_all-Tells r (suc n) i s t u h = elim (Bool-cases s.stop) [
    | inl stopped ↦ ground arith
    | inr on ↦
        let (x, s', visited, rest) =
          >>=-eq-done (visit json client_open r i) (λ _. visit_all json client_open r n (suc i)) s
            (simp on at h) in
        ground (arith, visit-Tells r i s s' x visited, visit_all-Tells r n (suc i) s' t u rest)
  ]

  -- The loop returns from a state in which it runs only after a round that tells it to.
  pub handle-Reported :
      (rounds : List Round) (s t : Loop L) (u : Unit {0})
      → handle json client_open rounds s ≡ done (u, t)
      → (s.stop ≡ true) ⊎ Reported (get s.wake_fd) rounds
  unfolding handle
  handle-Reported [] s t u h = cc
  handle-Reported (r ∷ rounds) s t u h = elim (Bool-cases s.stop) [
    | inl stopped ↦ inl stopped
    | inr on ↦ elim (Bool-cases r.works) [
      | inr broken ↦ ground arith
      | inl works ↦
          let ran : (do
            visit_all json client_open r (s.fdmax + 1) 0
            handle json client_open rounds)
                (arrive r s)
              ≡ done (u, t) =
            ground arith in
          let (x, s', visited, rest) =
            >>=-eq-done (visit_all json client_open r (s.fdmax + 1) 0)
              (λ _. handle json client_open rounds) (arrive r s) ran in
          let (same, told) = visit_all-Tells r (s.fdmax + 1) 0 (arrive r s) s' x visited in
          elim (handle-Reported rounds s' t u rest) [
            | inl stopped ↦ inr (inl (newly on (told stopped)))
            | inr later ↦ inr (inr (subst (λ fd. Reported fd rounds) same later))
          ]
    ]
  ]
