-- ===== src/Server/Capacity.antt =====
-- How many connections the server's loop can hold.
use lightning_cast_endpoint.Base.{
  Outcome, ℕ, zero, suc, ◌+◌, ◌≤◌, ◌<◌, ◌≡◌, ◌≢◌, refl, Bool, true, false, List, [], ◌∷◌, Option,
  none, some, arith, ℤ, Run, Bool-cases, inl, inr, ℕ_discrete, done, thrown, undefined, stuck, ◌>>◌,
}
use lightning_cast_endpoint.Json.{JsonCpp}
use lightning_cast_endpoint.Wire.Receive.{Received, payload, rejected, incomplete, read_frame}
use lightning_cast_endpoint.Util.FdSet.{fd_setsize, is_set}
use lightning_cast_endpoint.Server.State.{
  HandshakeCmd, open_client, Connection, Server, handshake_command,
}
use lightning_cast_endpoint.Server.Handlers.{
  process_send, open_connection, handle_command, do_parse, do_read,
}
use lightning_cast_endpoint.Server.Descriptors.{Sound, visit_other}
use lightning_cast_endpoint.Server.Loop.{
  Loop, Round, arrive, accept_client, serve, visit, visit_all, handle,
}

-- What accept gives has room in an fd_set.
abbrev pub HasRoom : Round → Type 0
HasRoom r = (fd : ℕ) (c : Connection) → r.accepts ≡ some (fd, c) → fd < fd_setsize

abbrev pub HaveRoom : List Round → Type 0
HaveRoom [] = Unit {0}
HaveRoom (r ∷ rounds) = HasRoom r × HaveRoom rounds

-- A call that is not defined, made behind another one.
>>-undefined :
    {S : Type 0} (m k : Run S (Unit {0})) (s : S)
    → m s ≢ undefined
    → ((t : S) → m s ≡ done (tt, t) → k t ≢ undefined)
    → (do m; k) s ≢ undefined
>>-undefined {S} m k s first rest h = go (m s) refl
  where
    go : (o : Outcome (Unit {0} × S)) → m s ≡ o → ⊥
    go (done (u, t)) e = rest t e (ground arith)
    go thrown e = ground arith
    go undefined e = first e
    go stuck e = ground arith

module _ (json : JsonCpp) {L : Type 0} (client_open : List ℕ → Run L Bool)
    (opens : (ip : List ℕ) (c : L) → client_open ip c ≢ undefined) where
  open_connection_defined :
      (ip : List ℕ) (s : Server L) → open_connection json client_open ip s ≢ undefined
  unfolding open_connection process_send
  open_connection_defined ip s h = ground (arith, opens ip s.cast_client)

  command_defined :
      (c : Option HandshakeCmd) (root : json.Value) (s : Server L)
      → handle_command json client_open c root s ≢ undefined
  unfolding handle_command
  command_defined (some open_client) root s h = go (json.string_at root "IpAddr") refl
    where
      go : (o : Option (List ℕ)) → json.string_at root "IpAddr" ≡ o → ⊥
      go none e = ground arith
      go (some ip) e = ground (arith, open_connection_defined ip s)
  command_defined c root s h = ground arith

  parse_defined : (text : List ℕ) (s : Server L) → do_parse json client_open text s ≢ undefined
  unfolding do_parse
  parse_defined text s h = go (json.parse text) refl
    where
      named :
          (root : json.Value) (o : Option ℤ)
          → json.parse text ≡ some root
          → json.int_at root "Cmd" ≡ o
          → ⊥
      named root none e f = ground arith
      named root (some n) e f = ground (arith, command_defined (handshake_command n) root s)

      go : (o : Option json.Value) → json.parse text ≡ o → ⊥
      go none e = ground arith
      go (some root) e = named root (json.int_at root "Cmd") e refl

  read_defined : (s : Server L) → do_read json client_open s ≢ undefined
  unfolding do_read
  read_defined s h = go (read_frame s.connection.incoming) refl
    where
      go : (r : Received) → read_frame s.connection.incoming ≡ r → ⊥
      go (payload text rest) e =
          parse_defined text (record s { connection = record s.connection { incoming = rest } })
            (ground arith)
      go (rejected rest) e = ground arith
      go incomplete e = ground arith

  serve_defined : (i : ℕ) (s : Loop L) → serve json client_open i s ≢ undefined
  unfolding serve
  serve_defined i s h = ground (
    arith,
    read_defined
        (record { cast_client = s.cast_client; wake_fd = s.wake_fd; connection = s.sockets i }),
  )

  accept_defined : (r : Round) (s : Loop L) → HasRoom r → accept_client r.accepts s ≢ undefined
  unfolding accept_client
  accept_defined r s room h = go r.accepts refl
    where
      go : (o : Option (ℕ × Connection)) → r.accepts ≡ o → ⊥
      go none e = ground arith
      go (some (fd, c)) e = ground (arith, room fd c)

  visit_defined :
      (r : Round) (i : ℕ) (s : Loop L) → HasRoom r → visit json client_open r i s ≢ undefined
  unfolding visit
  visit_defined r i s room h = ground (arith, accept_defined r s room, serve_defined i s)

  visit_all_defined :
      (r : Round) (n i : ℕ) (s : Loop L)
      → HasRoom r
      → visit_all json client_open r n i s ≢ undefined
  unfolding visit_all
  visit_all_defined r zero i s room h = ground arith
  visit_all_defined r (suc n) i s room h =
      let rest = λ (t : Loop L). visit_all_defined r n (suc i) t room in
      elim (Bool-cases s.stop) [
        | inl stopped ↦ ground arith
        | inr on ↦
            >>-undefined (visit json client_open r i) (visit_all json client_open r n (suc i)) s
              (visit_defined r i s room) (λ t e. rest t) (simp on at h)
      ]

  -- The loop's behaviour is defined as long as accept gives descriptors below FD_SETSIZE, whatever else select and the
  -- connections bring, if that of the client's `Open` is.
  pub handle_defined :
      (rounds : List Round) (s : Loop L)
      → HaveRoom rounds
      → handle json client_open rounds s ≢ undefined
  unfolding handle
  handle_defined [] s room h = cc
  handle_defined (r ∷ rounds) s (room, more) h =
      let rest = λ (t : Loop L). handle_defined rounds t more in
      elim (Bool-cases s.stop) [
        | inl stopped ↦ ground arith
        | inr on ↦ elim (Bool-cases r.works) [
          | inr broken ↦ ground arith
          | inl works ↦
              >>-undefined (visit_all json client_open r (s.fdmax + 1) 0)
                (handle json client_open rounds) (arrive r s)
                (visit_all_defined r (s.fdmax + 1) 0 (arrive r s) room) (λ t e. rest t)
                (ground arith)
        ]
      ]

module _ (json : JsonCpp) {L : Type 0} (client_open : List ℕ → Run L Bool) where
  visit_listener :
      (r : Round) (i : ℕ) (s : Loop L)
      → r.ready ≡ s.listener ∷ []
      → i ≡ s.listener
      → visit json client_open r i s ≡ accept_client r.accepts s
  unfolding visit is_set
  visit_listener r i s only here = ground arith

  -- The `for` loop passes the descriptors below that of the listener.
  visit_all_crowded :
      (r : Round) (n i : ℕ) (s : Loop L)
      → r.ready ≡ s.listener ∷ []
      → accept_client r.accepts s ≡ undefined
      → s.stop ≡ false
      → i ≤ s.listener
      → s.listener < i + n
      → visit_all json client_open r n i s ≡ undefined
  unfolding visit_all
  visit_all_crowded r zero i s only full on low high = absurd (omega arith)
  visit_all_crowded r (suc n) i s only full on low high = elim (ℕ_discrete i s.listener) [
    | yes e ↦ ground (arith, visit_listener r i s only e)
    | no e ↦ ground (
      arith,
      visit_other json client_open r s.listener i s only e,
      visit_all_crowded r n (suc i) s only full on (omega arith) (omega arith),
    )
  ]

  -- A connection too many: in every sound state in which the loop runs, a turn in which select reports the listener
  -- alone and accept gives a descriptor of FD_SETSIZE or more is undefined: FD_SET writes behind the set.
  pub handle_crowded :
      (r : Round) (rounds : List Round) (s : Loop L) (fd : ℕ) (c : Connection)
      → Sound s
      → s.stop ≡ false
      → r.works ≡ true
      → r.ready ≡ s.listener ∷ []
      → r.accepts ≡ some (fd, c)
      → fd_setsize ≤ fd
      → handle json client_open (r ∷ rounds) s ≡ undefined
  unfolding handle accept_client
  handle_crowded r rounds s fd c v on works only accepts much = ground (
    arith,
    visit_all_crowded r (s.fdmax + 1) 0 (arrive r s) only (ground arith) on (omega arith)
        (omega (arith, v.bounded s.listener v.listens)),
  )
