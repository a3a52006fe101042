-- ===== src/Server/Turn.antt =====
-- One turn of the server's loop in which one connection has something to say.
use lightning_cast_endpoint.Base.{
  ℕ, zero, suc, ◌+◌, ◌≤◌, ◌<◌, ◌^◌, ◌≡◌, ◌≢◌, refl, ap, ◌∙◌, Bool, true, false, List, [], ◌∷◌, ◌++◌,
  some, pos, arith, Run, ℕ_discrete, done, length,
}
use lightning_cast_endpoint.Json.{JsonCpp}
use lightning_cast_endpoint.Wire.Header.{frame}
use lightning_cast_endpoint.Wire.Send.{Accepts}
use lightning_cast_endpoint.Wire.Receive.{stream}
use lightning_cast_endpoint.Util.EventFd.{get}
use lightning_cast_endpoint.Client.State.{World, SnapPort}
use lightning_cast_endpoint.Client.Session.{Attempt}
use lightning_cast_endpoint.Client.Calls.{open_call}
use lightning_cast_endpoint.Client.Calls.Opened.{reaches, opened}
use lightning_cast_endpoint.Server.State.{Server}
use lightning_cast_endpoint.Server.Handlers.{open_fields}
use lightning_cast_endpoint.Server.Handshake.{Rests, handshake}
use lightning_cast_endpoint.Util.FdSet.{is_set}
use lightning_cast_endpoint.Server.Descriptors.{visit_other}
use lightning_cast_endpoint.Server.Loop.{Loop, Round, arrive, put, serve, visit, visit_all, handle}

module _ (json : JsonCpp) {L : Type 0} (client_open : List ℕ → Run L Bool) where
  visit_one :
      (r : Round) (i : ℕ) (s t : Loop L)
      → r.ready ≡ i ∷ []
      → i ≢ s.listener
      → i ≢ get s.wake_fd
      → serve json client_open i s ≡ done (tt, t)
      → visit json client_open r i s ≡ done (tt, t)
  unfolding visit is_set
  visit_one r i s t only a b serves = ground arith

  -- Behind the one descriptor there is nothing to do.
  visit_all_behind :
      (r : Round) (i n j : ℕ) (s : Loop L)
      → r.ready ≡ i ∷ []
      → i < j
      → visit_all json client_open r n j s ≡ done (tt, s)
  unfolding visit_all
  visit_all_behind r i zero j s only after = refl
  visit_all_behind r i (suc n) j s only after = ground (
    arith,
    visit_other json client_open r i j s only (λ e. omega arith),
    visit_all_behind r i n (suc j) s only (omega arith),
  )

  visit_all_one :
      (r : Round) (i n j : ℕ) (s t : Loop L)
      → r.ready ≡ i ∷ []
      → i ≢ s.listener
      → i ≢ get s.wake_fd
      → s.stop ≡ false
      → serve json client_open i s ≡ done (tt, t)
      → j ≤ i
      → i < j + n
      → visit_all json client_open r n j s ≡ done (tt, t)
  unfolding visit_all
  visit_all_one r i zero j s t only a b on serves low high = absurd (omega arith)
  visit_all_one r i (suc n) j s t only a b on serves low high = elim (ℕ_discrete j i) [
    | yes e ↦
        let here = ap (λ k. visit json client_open r k s) e ∙ visit_one r i s t only a b serves in
        ground (arith, here, visit_all_behind r i n (suc j) t only (omega arith))
    | no e ↦ ground (
      arith,
      visit_other json client_open r i j s only e,
      visit_all_one r i n (suc j) s t only a b on serves (omega arith) (omega arith),
    )
  ]

  -- A turn in which select reports the connection with descriptor `i` alone serves it, once, and goes on.
  pub handle_one :
      (r : Round) (rounds : List Round) (i : ℕ) (s t : Loop L)
      → s.stop ≡ false
      → r.works ≡ true
      → r.ready ≡ i ∷ []
      → i ≢ s.listener
      → i ≢ get s.wake_fd
      → i ≤ s.fdmax
      → serve json client_open i (arrive r s) ≡ done (tt, t)
      → handle json client_open (r ∷ rounds) s ≡ handle json client_open rounds t
  unfolding handle
  handle_one r rounds i s t on works only a b le serves = ground (
    arith,
    visit_all_one r i (s.fdmax + 1) 0 (arrive r s) t only a b on serves (omega arith) (omega arith),
  )

module _ (json : JsonCpp) {S : Type 0} (port : SnapPort S) where
  -- A whole handshake, in a turn of the server's loop in which select reports one connection, whose bytes, with those
  -- that now come, in any pieces, are an open message and perhaps others behind it; the client rests between two calls,
  -- closed or in a session whose player answers, and the socket takes the answer. Then a session that runs is closed,
  -- one attempt is made to connect to the address in the message, one frame goes back to the phone that says 1 exactly
  -- if it succeeded, and so does `is_open`; the connection stays in the set, with just the other bytes left, and the loop
  -- goes on.
  pub handle_handshake :
      (attempts : List ℕ → Attempt) (r : Round) (rounds : List Round) (i : ℕ)
      (text rest ip : List ℕ) (root : json.Value) (s : Loop (World S)) (v : World S)
      → s.stop ≡ false
      → r.works ≡ true
      → r.ready ≡ i ∷ []
      → i ≢ s.listener
      → i ≢ get s.wake_fd
      → i ≤ s.fdmax
      → Rests json port s.cast_client v
      → length text < 2 ^ 32
      → stream ((s.sockets i).incoming ++ r.arrives i) ≡ frame text ++ rest
      → json.parse text ≡ some root
      → json.int_at root "Cmd" ≡ some (pos 1)
      → json.string_at root "IpAddr" ≡ some ip
      → let answer = frame (json.write (open_fields (reaches (attempts ip)))) in
        Accepts (length answer) (s.sockets i).writes
        → (t : Loop (World S)) × (handle json (open_call json port attempts) (r ∷ rounds) s
            ≡ handle json (open_call json port attempts) rounds t)
          × (t.cast_client ≡ opened json port attempts ip v)
          × (t.cast_client.is_open ≡ reaches (attempts ip))
          × ((t.sockets i).out ≡ (s.sockets i).out ++ answer)
          × (stream (t.sockets i).incoming ≡ rest)
          × (t.master ≡ s.master)
          × (t.stop ≡ false)
  unfolding serve
  handle_handshake attempts r rounds i text rest ip root s v on works only a b le rests short e
        parsed named address takes =
      let there : Server (World S) = record {
        cast_client = s.cast_client;
        wake_fd = s.wake_fd;
        connection = (arrive r s).sockets i;
      } in
      let (s', reads, client, told, out, behind) =
        handshake json port attempts text rest ip root there v rests short e parsed named address
          takes in
      let t : Loop (World S) = record (arrive r s) {
        cast_client = s'.cast_client;
        sockets = put i s'.connection (arrive r s).sockets;
      } in
      (
        t,
        handle_one json (open_call json port attempts) r rounds i s t on works only a b le
            (ground (arith, reads)),
        client,
        told,
        ground (arith, out),
        ground (arith, behind),
        refl,
        on,
      )
