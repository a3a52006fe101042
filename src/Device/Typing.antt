-- ===== src/Device/Typing.antt =====
-- What the keyboard loop sends, and that it ends.
use lightning_cast_endpoint.Base.{
  ℕ, ◌≡◌, Bool, true, refl, sym, ap, ◌∙◌, false, List, [], ◌∷◌, ◌++◌, append_assoc, append-nil,
  some, arith, done, Option, none, ℤ, subst, ◌≢◌,
}
use lightning_cast_endpoint.Json.{JsonCpp}
use lightning_cast_endpoint.Client.Commands.{CommCmd}
use lightning_cast_endpoint.Wire.Header.{frame}
use lightning_cast_endpoint.Wire.Send.{WriteResult}
use lightning_cast_endpoint.Wire.RoundTrip.{frames}
use lightning_cast_endpoint.Client.State.{Client, World}
use lightning_cast_endpoint.Client.Send.{remote_fields, send_remote_command}
use lightning_cast_endpoint.Client.Lifecycle.{AcceptsAll, sent, process_send_accepted}
use lightning_cast_endpoint.Device.Meaning.{meaning, Fits, act, act-meaning}
use lightning_cast_endpoint.Device.Keys.{
  Action, quit, nothing, overflows, send, action, Input, silence, end_of_input, key, turn, key_loop,
}

-- The inputs before a q, of a player at the client's volume and position.
abbrev pub Typed : Client → List Input → Type 0
Typed c [] = Unit {0}
Typed c (silence ∷ inputs) = Typed c inputs
Typed c (end_of_input ∷ inputs) = ⊥
Typed c (key ch ∷ inputs) = (ch ≢ 113) × Fits ch c.current_volume c.position × Typed c inputs

abbrev pub goes_on : Action → Bool
goes_on quit = false
goes_on overflows = false
goes_on other = true

-- Inputs after which the loop goes on.
abbrev pub GoesOn : Client → List Input → Type 0
GoesOn c [] = Unit {0}
GoesOn c (silence ∷ inputs) = GoesOn c inputs
GoesOn c (end_of_input ∷ inputs) = ⊥
GoesOn c (key ch ∷ inputs) = (goes_on (action ch c) ≡ true) × GoesOn c inputs

module _ (json : JsonCpp) where
  -- The texts that an action asks for.
  abbrev pub request : Client → Action → List (List ℕ)
  request c quit = []
  request c nothing = []
  request c overflows = []
  request c (send cmd value) = json.write (remote_fields c.version cmd value) ∷ []

  abbrev pub requests : Client → List Input → List (List ℕ)
  requests c [] = []
  requests c (silence ∷ inputs) = requests c inputs
  requests c (end_of_input ∷ inputs) = requests c inputs
  requests c (key ch ∷ inputs) = request c (action ch c) ++ requests c inputs

  -- The texts that the keys stand for.
  abbrev pub text_of : Client → Option (CommCmd × ℤ) → List (List ℕ)
  text_of c none = []
  text_of c (some (cmd, value)) = json.write (remote_fields c.version cmd value) ∷ []

  abbrev pub texts : Client → List Input → List (List ℕ)
  texts c [] = []
  texts c (silence ∷ inputs) = texts c inputs
  texts c (end_of_input ∷ inputs) = texts c inputs
  texts c (key ch ∷ inputs) = text_of c (meaning ch c.current_volume c.position) ++ texts c inputs

  request-act :
      (c : Client) (m : Option (CommCmd × ℤ))
      → (request c (act m) ≡ text_of c m) × (goes_on (act m) ≡ true)
  request-act c none = (refl, refl)
  request-act c (some (cmd, value)) = (refl, refl)

  requests-Typed :
      (c : Client) (inputs : List Input)
      → Typed c inputs
      → (requests c inputs ≡ texts c inputs) × GoesOn c inputs
  requests-Typed c [] typed = (refl, tt)
  requests-Typed c (silence ∷ inputs) typed = requests-Typed c inputs typed
  requests-Typed c (end_of_input ∷ inputs) typed = absurd typed
  requests-Typed c (key ch ∷ inputs) (other, fits, typed) =
      let (same, goes) = requests-Typed c inputs typed in
      let means = act-meaning ch c other fits in
      let (asks, on) = request-act c (meaning ch c.current_volume c.position) in
      (ground (arith, means, asks, same), (ground (arith, means, on), goes))

frames-append : (xs ys : List (List ℕ)) → frames (xs ++ ys) ≡ frames xs ++ frames ys
frames-append [] ys = refl
frames-append (x ∷ xs) ys =
    ap (◌++◌ (frame x)) (frames-append xs ys) ∙ sym (append_assoc (frame x) (frames xs) (frames ys))

q_quits : (c : Client) → action b'q' c ≡ quit
unfolding action
q_quits c = refl

module _ (json : JsonCpp) {S : Type 0} where
  -- What one key does, when the loop goes on after it.
  turn_sends :
      (ch : ℕ) (a : Action) (w : World S) (fd : ℕ)
      → action ch w.client ≡ a
      → goes_on a ≡ true
      → w.server_fd ≡ some fd
      → (more : List (List ℕ)) → AcceptsAll (request json w.client a ++ more) w.writes
      → (writes : List WriteResult) × (turn json (key ch) w
          ≡ done (
            false,
            record w { out = w.out ++ frames (request json w.client a); writes = writes },
          ))
        × AcceptsAll more writes
  unfolding send_remote_command
  turn_sends ch quit w fd e on open_fd more takes = cc
  turn_sends ch overflows w fd e on open_fd more takes = cc
  turn_sends ch nothing w fd e on open_fd more takes =
      let same = append-nil w.out in (w.writes, ground (arith, e, same), takes)
  turn_sends ch (send cmd value) w fd e on open_fd more (takes, rest) =
      let text = json.write (remote_fields w.version cmd value) in
      let same = append-nil (frame text) in
      (
        (sent text w).writes,
        ground (arith, e, same, process_send_accepted text w fd open_fd takes),
        rest,
      )

  key_loop_runs :
      (inputs rest : List Input) (w : World S) (fd : ℕ)
      → w.server_fd ≡ some fd
      → GoesOn w.client inputs
      → AcceptsAll (requests json w.client inputs) w.writes
      → (writes : List WriteResult) × (key_loop json (inputs ++ key b'q' ∷ rest) w
          ≡ done (
            tt,
            record w { out = w.out ++ frames (requests json w.client inputs); writes = writes },
          ))
  unfolding key_loop
  key_loop_runs [] rest w fd open_fd goes takes =
      let same = append-nil w.out in (w.writes, ground (arith, same, q_quits w.client))
  key_loop_runs (silence ∷ inputs) rest w fd open_fd goes takes =
      key_loop_runs inputs rest w fd open_fd goes takes
  key_loop_runs (end_of_input ∷ inputs) rest w fd open_fd goes takes = absurd goes
  key_loop_runs (key ch ∷ inputs) rest w fd open_fd (on, goes) takes =
      let asked = frames (request json w.client (action ch w.client)) in
      let (between, pressed, more) =
        turn_sends ch (action ch w.client) w fd refl on open_fd (requests json w.client inputs)
          takes in
      let v : World S = record w { out = w.out ++ asked; writes = between } in
      let (writes, runs) = key_loop_runs inputs rest v fd open_fd goes more in
      let out : v.out ++ frames (requests json w.client inputs)
          ≡ w.out ++ frames (requests json w.client (key ch ∷ inputs)) =
        append_assoc w.out asked (frames (requests json w.client inputs))
        ∙ ap (◌++◌ w.out) (
            sym (
              frames-append (request json w.client (action ch w.client))
                (requests json w.client inputs))) in
      (writes, ground (arith, pressed, runs, out))

  -- The loop up to the key q: k, s, p, n and b send play, stop, pause, next and previous, r and e the volume five up and
  -- down, within 0 and 100, u and y the position five up and down, each as one frame, in the order of the keys, if the
  -- socket takes them and no sum overflows an int; other keys and silence send nothing; at q the loop returns, and the
  -- client and the player are as they were.
  pub key_loop_sends :
      (inputs rest : List Input) (w : World S) (fd : ℕ)
      → w.server_fd ≡ some fd
      → Typed w.client inputs
      → AcceptsAll (texts json w.client inputs) w.writes
      → (writes : List WriteResult) × (key_loop json (inputs ++ key 113 ∷ rest) w
          ≡ done (
            tt,
            record w { out = w.out ++ frames (texts json w.client inputs); writes = writes },
          ))
  key_loop_sends inputs rest w fd open_fd typed takes =
      let (same, goes) = requests-Typed json w.client inputs typed in
      let (writes, runs) =
        key_loop_runs inputs rest w fd open_fd goes
          (subst (λ ts. AcceptsAll ts w.writes) (sym same) takes) in
      (writes, ground (arith, runs, same))
