-- ===== src/Client/Contract.antt =====
-- What the client relies on in the player's component, and what follows for the phone's commands: an abstract
-- player, of which only the connection is seen.
use lightning_cast_endpoint.Base.{
  subst, ℕ, ◌≡◌, refl, ap, sym, ◌∙◌, Bool, true, false, List, Option, some, arith, ℤ, Run, done,
  pure, ◌>>◌, ◌⊎◌, inl, inr, >>=-eq-done, if◌then◌else◌,
}
use lightning_cast_endpoint.Json.{JsonCpp}
use lightning_cast_endpoint.Client.Commands.{CommCmd, set_play, set_pause, set_stop, command}
use lightning_cast_endpoint.Client.State.{World, SnapPort, on_snap}
use lightning_cast_endpoint.Client.Dispatch.{
  do_set_alive, do_play, do_pause, do_stop, dispatch, do_parse,
}
use lightning_cast_endpoint.Client.Footprint.{plays, do_parse-Footprint}
use lightning_cast_endpoint.Client.Session.{
  Attempt, connect_server, Round, do_open, set_open, finish, greet, close_server, watch,
  session_loop, run_session,
}

-- The calls that return: `Open` connects, `Close` disconnects, and the requests leave the connection alone.
pub record Contract {S : Type 0} (port : SnapPort S) (linked : S → Bool) : Type 0 where
  pub open_links : (s s' : S) (u : Unit {0}) → port.snap_open s ≡ done (u, s') → linked s' ≡ true
  pub close_unlinks :
      (s s' : S) (u : Unit {0}) → port.snap_close s ≡ done (u, s') → linked s' ≡ false
  pub start_keeps :
      (ip : List ℕ) (sample_rate format channels : ℤ) (s s' : S) (b : Bool)
      → port.send_start ip sample_rate format channels s ≡ done (b, s')
      → linked s' ≡ linked s
  pub pause_keeps : (s s' : S) (b : Bool) → port.send_pause s ≡ done (b, s') → linked s' ≡ linked s
  pub stop_keeps : (s s' : S) (b : Bool) → port.send_stop s ≡ done (b, s') → linked s' ≡ linked s

on_snap-eq-done :
    {S A : Type 0} (m : Run S A) (w w' : World S) (a : A)
    → on_snap m w ≡ done (a, w')
    → (s : S) × (m w.snap ≡ done (a, s)) × (w' ≡ record w { snap = s })
on_snap-eq-done m w w' a h = (w'.snap, ground arith, ground arith)

-- The rest of a sequence that returns.
after_first :
    {W : Type 0} (m k : Run W (Unit {0})) (w : W) {r : Unit {0} × W}
    → (do m; k) w ≡ done r
    → (v : W) × (k v ≡ done r)
after_first m k w h = let (_, v, _, rest) = >>=-eq-done m (λ _. k) w h in (v, rest)

-- What a command does to the abstract player's connection; `asked` says whether a start that was sent to it has
-- been accepted.
pub data LinkStep (asked : Bool → Type 0) : Option CommCmd → Bool → Bool → Type 0 where
  played : (l b : Bool) → asked b → LinkStep asked (some set_play) l b
  paused : (l : Bool) → LinkStep asked (some set_pause) l false
  stopped : (l : Bool) → LinkStep asked (some set_stop) l false
  other : (c : Option CommCmd) (l : Bool) → plays c ≡ false → LinkStep asked c l l

-- `Open` was called and returned, with a connection, and a start with the client's address and format was then
-- answered with `b`.
abbrev pub Asked : {S : Type 0} → SnapPort S → (S → Bool) → World S → Bool → Type 0
Asked {S} port linked w b =
    (s s' : S) × (port.snap_open w.snap ≡ done (tt, s))
    × (linked s ≡ true)
    × (port.send_start w.server_ip w.sample_rate w.format w.channels s ≡ done (b, s'))

module _ {S : Type 0} (port : SnapPort S) (linked : S → Bool)
    (contract : Contract port linked) where
  do_stop-unlinked :
      (w w' : World S) (u : Unit {0}) → do_stop port w ≡ done (u, w') → linked w'.snap ≡ false
  unfolding do_stop
  do_stop-unlinked w w' u h =
      let (b, v, sent, rest) = >>=-eq-done (on_snap port.send_stop) _ w h in
      let (s, closes, same) = on_snap-eq-done port.snap_close v w' u rest in
      ap (λ x. linked x.snap) same ∙ contract.close_unlinks v.snap s u closes

  do_pause-unlinked :
      (w w' : World S) (u : Unit {0}) → do_pause port w ≡ done (u, w') → linked w'.snap ≡ false
  unfolding do_pause
  do_pause-unlinked w w' u h =
      let (b, v, sent, rest) = >>=-eq-done (on_snap port.send_pause) _ w h in
      let (s, closes, same) = on_snap-eq-done port.snap_close v w' u rest in
      ap (λ x. linked x.snap) same ∙ contract.close_unlinks v.snap s u closes

  -- A connection on which the start was accepted stays, and any other is closed.
  play_ends :
      (b : Bool) (x w' : World S) (u : Unit {0})
      → (if b then pure tt else on_snap port.snap_close) x ≡ done (u, w')
      → linked x.snap ≡ true
      → linked w'.snap ≡ b
  play_ends true x w' u h on = let same : w' ≡ x = cc in ap (λ y. linked y.snap) same ∙ on
  play_ends false x w' u h on =
      let (s, closes, same) = on_snap-eq-done port.snap_close x w' u h in
      ap (λ y. linked y.snap) same ∙ contract.close_unlinks x.snap s u closes

  do_play-linked :
      (w w' : World S) (u : Unit {0})
      → do_play port w ≡ done (u, w')
      → (b : Bool) × Asked port linked w b × (linked w'.snap ≡ b)
  unfolding do_play
  do_play-linked w w' u h =
      let (_, v, opens, rest) = >>=-eq-done (on_snap port.snap_open) _ w h in
      let (b, x, starts, last) =
        >>=-eq-done (on_snap (port.send_start w.server_ip w.sample_rate w.format w.channels)) _ v
          rest in
      let (s, opened, same) = on_snap-eq-done port.snap_open w v tt opens in
      let opening = opened ∙ ap (λ y. done (tt, y.snap)) (sym same) in
      let on = ap (λ y. linked y.snap) same ∙ contract.open_links w.snap s tt opened in
      let (s', started, after) =
        on_snap-eq-done (port.send_start w.server_ip w.sample_rate w.format w.channels) v x b
          starts in
      let kept =
        contract.start_keeps w.server_ip w.sample_rate w.format w.channels v.snap s' b started in
      (
        b,
        (v.snap, s', opening, on, started),
        play_ends b x w' u last (ap (λ y. linked y.snap) after ∙ (kept ∙ on)),
      )

module _ (json : JsonCpp) {S : Type 0} (port : SnapPort S) (linked : S → Bool)
    (contract : Contract port linked) where
  dispatch-LinkStep :
      (c : Option CommCmd) (root : json.Value) (w w' : World S) (b : Bool)
      → dispatch json port c root w ≡ done (b, w')
      → (plays c ≡ true) ⊎ (w'.snap ≡ w.snap)
      → LinkStep (Asked port linked w) c (linked w.snap) (linked w'.snap)
  unfolding dispatch
  dispatch-LinkStep (some set_play) root w w' b h same =
      let (_, v, plays_it, rest) = >>=-eq-done (do_play port) _ w h in
      let (r, asked, is_linked) = do_play-linked port linked contract w v tt plays_it in
      let last : w' ≡ v = cc in
      subst (LinkStep (Asked port linked w) (some set_play) (linked w.snap))
        (sym (ap (λ y. linked y.snap) last ∙ is_linked)) (played (linked w.snap) r asked)
  dispatch-LinkStep (some set_pause) root w w' b h same =
      let (_, v, pauses, rest) = >>=-eq-done (do_pause port) _ w h in
      let last : w' ≡ v = cc in
      subst (LinkStep (Asked port linked w) (some set_pause) (linked w.snap))
        (sym (ap (λ y. linked y.snap) last ∙ do_pause-unlinked port linked contract w v tt pauses))
        (paused (linked w.snap))
  dispatch-LinkStep (some set_stop) root w w' b h same =
      let (_, v, stops, rest) = >>=-eq-done (do_stop port) _ w h in
      let last : w' ≡ v = cc in
      subst (LinkStep (Asked port linked w) (some set_stop) (linked w.snap))
        (sym (ap (λ y. linked y.snap) last ∙ do_stop-unlinked port linked contract w v tt stops))
        (stopped (linked w.snap))
  dispatch-LinkStep c root w w' b h (inr e) =
      subst (λ s. LinkStep (Asked port linked w) c (linked w.snap) (linked s)) (sym e)
        (other c (linked w.snap) refl)
  dispatch-LinkStep c root w w' b h (inl p) = cc

  -- With a player's component that keeps the contract, the phone's messages move the abstract player as the
  -- specification says: whenever the handling of a message that names a command returns, play has opened a connection,
  -- sent a start on it with the client's own address and format, and kept the connection just if that was accepted;
  -- after pause and stop there is none; and any other command has left it as it was.
  pub do_parse-LinkStep :
      (text : List ℕ) (root : json.Value) (n : ℤ) (w w' : World S) (b : Bool)
      → json.parse text ≡ some root
      → json.int_at root "Cmd" ≡ some n
      → do_parse json port text w ≡ done (b, w')
      → LinkStep (Asked port linked w) (command n) (linked w.snap) (linked w'.snap)
  unfolding do_parse
  do_parse-LinkStep text root n w w' b parsed named h =
      dispatch-LinkStep (command n) root w w' b (ground arith)
        (do_parse-Footprint json port text root n w w' b parsed named h).0.player

  close_server-snap :
      (w w' : World S) (u : Unit {0}) → close_server w ≡ done (u, w') → w'.snap ≡ w.snap
  close_server-snap w w' u h = ground arith

  run_session-unlinked :
      (rounds : List Round) (w w' : World S) (u : Unit {0})
      → run_session json port rounds w ≡ done (u, w')
      → linked w'.snap ≡ false
  run_session-unlinked rounds w w' u h =
      let stop : Run (World S) (Unit {0}) = (do do_stop port; close_server) in
      let quit : Run (World S) (Unit {0}) = (do set_open false; stop) in
      let loop : Run (World S) (Unit {0}) = (do session_loop json port rounds; quit) in
      let look : Run (World S) (Unit {0}) = (do watch; loop) in
      let live : Run (World S) (Unit {0}) = (do do_set_alive; look) in
      let talk : Run (World S) (Unit {0}) = (do greet json; live) in
      let (w1, h1) = after_first (set_open true) (do finish; talk) w h in
      let (w2, h2) = after_first finish talk w1 h1 in
      let (w3, h3) = after_first (greet json) live w2 h2 in
      let (w4, h4) = after_first do_set_alive look w3 h3 in
      let (w4', h4') = after_first watch loop w4 h4 in
      let (w5, h5) = after_first (session_loop json port rounds) quit w4' h4' in
      let (w6, h6) = after_first (set_open false) stop w5 h5 in
      let (_, w7, stops, h7) = >>=-eq-done (do_stop port) (λ _. close_server) w6 h6 in
      ap linked (close_server-snap w7 w' u h7)
      ∙ do_stop-unlinked port linked contract w6 w7 tt stops

  -- A session leaves no connection to a player whose component keeps the contract: whatever the phone sends and however
  -- the session ends, when `do_open` returns after a connection to the phone was made, there is none to the player.
  pub do_open-unlinked :
      (a : Attempt) (rounds : List Round) (w w' : World S) (u : Unit {0})
      → (connect_server a w.client).0 ≡ true
      → do_open json port a rounds w ≡ done (u, w')
      → linked w'.snap ≡ false
  unfolding do_open
  do_open-unlinked a rounds w w' u works h =
      run_session-unlinked rounds (record w { client = (connect_server a w.client).1 }) w' u
        (ground arith)
