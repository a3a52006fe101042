-- ===== src/Snapcast/Untouched.antt =====
-- The methods of SnapcastComm that leave the connection as it is: the requests, and reading an answer.
use lightning_cast_endpoint.Base.{
  take, drop, Bool-cases, ℕ, ◌≡◌, refl, Bool, true, false, List, [], ◌∷◌, ◌++◌, Option, none, some,
  arith, ℤ, Outcome, done, thrown, undefined, stuck, inl, inr, Option-cases, pure, if◌then◌else◌,
  ◌>>=◌, ◌>>◌, Keeps, >>=-Keeps, >>-Keeps, if-Keeps, update-Keeps, pure-Keeps, state-Keeps,
  asks-Keeps,
}
use lightning_cast_endpoint.Json.{JsonCpp}
use lightning_cast_endpoint.Wire.Receive.{
  ReadEvent, Received, payload, rejected, incomplete, read_frame,
}
use lightning_cast_endpoint.Wire.Header.{header_size, load_header}
use lightning_cast_endpoint.Snapcast.State.{Snap, PlayerCmd, start, player_command}
use lightning_cast_endpoint.Snapcast.Parse.{answer, parse_text, do_parse, do_read}
use lightning_cast_endpoint.Snapcast.Calls.{
  process_send, watch, wait_for, lock_wait, send_start, send_stop, stop_fields, start_fields,
  send_pause,
}

-- What `server_fd` is, for the calls that leave the socket alone.
abbrev pub On : Option ℕ → Snap → Type 0
On o s = s.server_fd ≡ o

pub process_send-Keeps : {o : Option ℕ} (message : List ℕ) → Keeps (On o) (process_send message)
unfolding process_send
process_send-Keeps message = record { keeps = λ s s' a h p. ground arith }

pub watch-Keeps : {o : Option ℕ} (fd : ℕ) → Keeps (On o) (watch fd)
watch-Keeps fd = record { keeps = λ s s' u h p. ground arith }

module _ (json : JsonCpp) {o : Option ℕ} where
  answer-Keeps : (c : Option PlayerCmd) (root : json.Value) → Keeps (On o) (answer json c root)
  unfolding answer
  answer-Keeps none root = pure-Keeps false
  answer-Keeps (some start) root = record { keeps = λ s s' a h p. ground arith }
  answer-Keeps (some c) root = record { keeps = λ s s' a h p. ground arith }

  parse_text-Keeps : (text : List ℕ) → Keeps (On o) (parse_text json text)
  parse_text-Keeps text = elim (Option-cases (json.parse text)) [
    | inl bad ↦ record { keeps = λ s s' a h p. ground arith }
    | inr (root, parsed) ↦ elim (Option-cases (json.int_at root "Cmd")) [
      | inl bad ↦ record { keeps = λ s s' a h p. ground arith }
      | inr (n, named) ↦ record {
        keeps = λ s s' a h p. (answer-Keeps (player_command n) root).keeps s s' a (ground arith) p;
      }
    ]
  ]

  do_parse-Keeps : (buf : List ℕ) → Keeps (On o) (do_parse json buf)
  unfolding do_parse
  do_parse-Keeps buf = record {
    keeps = λ s s' a h p.
        let text = take (load_header buf).data_size (drop header_size buf) in
        ground (arith, (parse_text-Keeps text).keeps s s' a);
  }

  do_read-Keeps : Keeps (On o) (do_read json)
  unfolding do_read
  do_read-Keeps = record { keeps = λ s s' a h p. go s s' a p (read_frame s.incoming) h }
    where
      go :
          (s s' : Snap) (a : Bool)
          → On o s
          → (r : Received)
          → (elim r as (λ _. Outcome (Bool × Snap)) [
            | payload text rest ↦ do_parse json text (record s { incoming = rest })
            | rejected rest ↦ done (false, record s { incoming = rest })
            | incomplete ↦ stuck
          ])
            ≡ done (a, s')
          → On o s'
      go s s' a p (payload text rest) e =
          (do_parse-Keeps text).keeps (record s { incoming = rest }) s' a e p
      go s s' a p (rejected rest) e = ground arith
      go s s' a p incomplete e = cc

  -- Whatever comes while a call waits.
  wait_for-Keeps : (turns : List (List ReadEvent)) → Keeps (On o) (wait_for json turns)
  unfolding wait_for
  wait_for-Keeps [] = record { keeps = λ s s' a h p. ground arith }
  wait_for-Keeps (events ∷ turns) = record {
    keeps = λ s s' a h p.
        let there : Snap = record s { incoming = s.incoming ++ events } in
        elim (Bool-cases s.pending) [
          | inl up ↦ ground arith
          | inr down ↦ go (wait_for-Keeps turns) there s' p (do_read json there) refl (ground arith)
        ];
  }
    where
      go :
          Keeps (On o) (wait_for json turns)
          → (there s' : Snap) → On o there
          → (r : Outcome (Bool × Snap)) → do_read json there ≡ r
          → (elim r as (λ _. Outcome (Unit {0} × Snap)) [
            | done (true, t) ↦ wait_for json turns t
            | done (false, t) ↦ stuck
            | thrown ↦ thrown
            | undefined ↦ undefined
            | stuck ↦ wait_for json turns there
          ])
            ≡ done (tt, s')
          → On o s'
      go rest there s' p (done (true, t)) e f =
          rest.keeps t s' tt f (do_read-Keeps.keeps there t true e p)
      go rest there s' p (done (false, t)) e f = cc
      go rest there s' p thrown e f = cc
      go rest there s' p undefined e f = cc
      go rest there s' p stuck e f = rest.keeps there s' tt f p

  lock_wait-Keeps : Keeps (On o) (lock_wait json)
  unfolding lock_wait
  lock_wait-Keeps = state-Keeps (λ s. wait_for json s.turns) (λ s. wait_for-Keeps s.turns)

  -- A request: the answer is waited for if it was sent.
  asked-Keeps :
      (message : List ℕ) (result : Snap → Bool)
      → Keeps (On o) (do
        sent ← process_send message
        if sent then (do lock_wait json; (λ s. done (result s, s))) else pure false)
  asked-Keeps message result =
      >>=-Keeps (process_send-Keeps message)
        (λ sent. if-Keeps sent (>>-Keeps lock_wait-Keeps (asks-Keeps result)) (pure-Keeps false))

  pub send_stop-Keeps : Keeps (On o) (send_stop json)
  unfolding send_stop
  send_stop-Keeps = asked-Keeps (json.write (stop_fields json)) (λ s. true)

  pub send_pause-Keeps : Keeps (On o) (send_pause json)
  unfolding send_pause
  send_pause-Keeps = asked-Keeps (json.write (stop_fields json)) (λ s. true)

  pub send_start-Keeps :
      (address : List ℕ) (sample_rate format channels : ℤ)
      → Keeps (On o) (send_start json address sample_rate format channels)
  unfolding send_start
  send_start-Keeps address sample_rate format channels =
      >>-Keeps (update-Keeps (λ s. record s { send_start_result = false }) tt (λ s p. p))
        (asked-Keeps (json.write (start_fields json address)) (λ s. s.send_start_result))
