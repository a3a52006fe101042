-- ===== src/Snapcast/Answers.antt =====
-- What the player's answers do to a call that waits for them.
use lightning_cast_endpoint.Base.{
  ℕ, ◌+◌, ◌^◌, ◌<◌, ◌≡◌, refl, sym, ap, ◌∙◌, true, false, List, [], ◌∷◌, ◌++◌, append-nil,
  append_assoc, subst, some, arith, ltb, length, take, take-append_exact, ℤ, pos, ◌==ℤ◌, done,
}
use lightning_cast_endpoint.Json.{JsonCpp}
use lightning_cast_endpoint.Wire.Header.{
  header_size, frame, load_header-frame, length-frame, drop-frame,
}
use lightning_cast_endpoint.Wire.Send.{
  Accepts, Leaves, broken, write_loop, write_loop-complete, write_loop-prefix,
}
use lightning_cast_endpoint.Wire.Receive.{ReadEvent, read_frame, stream}
use lightning_cast_endpoint.Wire.RoundTrip.{read_frame-frame, verdict-accept}
use lightning_cast_endpoint.Snapcast.State.{Snap, player_command}
use lightning_cast_endpoint.Snapcast.Parse.{parse_text, answer, do_parse, do_read}
use lightning_cast_endpoint.Snapcast.Calls.{
  process_send, wait_for, lock_wait, send_start, start_fields,
}

take_all : (xs : List ℕ) → take (length xs) xs ≡ xs
take_all xs = ap (take (length xs)) (sym (append-nil xs)) ∙ take-append_exact (length xs) xs [] refl

pub process_send_accepted :
    (message : List ℕ) (s : Snap) (fd : ℕ)
    → s.server_fd ≡ some fd
    → Accepts (length (frame message)) s.writes
    → process_send message s
      ≡ done (
        true,
        record s {
          out = s.out ++ frame message;
          writes = (write_loop [] (frame message) s.writes).writes;
        },
      )
unfolding process_send
process_send_accepted message s fd open_fd h =
    ground (arith, write_loop-complete [] (frame message) s.writes h)

-- An error of ::write is not told from success: on a connected socket, where the loop breaks off,
-- `processSend` returns true with some of the frame missing.
pub process_send_broken :
    (message : List ℕ) (s : Snap) (fd : ℕ)
    → s.server_fd ≡ some fd
    → (write_loop [] (frame message) s.writes).ending ≡ broken
    → (s' : Snap) × (rest : List ℕ) × (process_send message s ≡ done (true, s'))
      × (s'.out ++ rest ≡ s.out ++ frame message)
      × (0 < length rest)
unfolding process_send
process_send_broken message s fd open_fd cut =
    let (rest, e, missing) = write_loop-prefix [] (frame message) s.writes in
    (
      record s {
        out = s.out ++ (write_loop [] (frame message) s.writes).out;
        writes = (write_loop [] (frame message) s.writes).writes;
      },
      rest,
      ground arith,
      append_assoc s.out (write_loop [] (frame message) s.writes).out rest ∙ ap (◌++◌ s.out) e,
      subst (λ end. Leaves end rest) cut missing,
    )

module _ (json : JsonCpp) where
  -- An answer with its own header inside the payload is taken as the text that the header announces.
  do_parse-frame :
      (text : List ℕ) (s : Snap)
      → length text < 2 ^ 31
      → do_parse json (frame text) s ≡ parse_text json text s
  unfolding do_parse
  do_parse-frame text s h =
      let long : ltb (length (frame text)) header_size ≡ false =
        ground (arith, length-frame text) in
      let all : ltb (length (frame text)) (header_size + length text) ≡ false =
        ground (arith, length-frame text) in
      let small : ltb (length text) (2 ^ 31) ≡ true = ground arith in
      rw (long, load_header-frame text (omega arith), small, all, drop-frame text, take_all text)

  -- So is one that arrives split in any way.
  pub do_read-frame :
      (text rest : List ℕ) (s : Snap)
      → length text < 2 ^ 31
      → stream s.incoming ≡ frame (frame text) ++ rest
      → (left : List ReadEvent) × (do_read json s
          ≡ parse_text json text (record s { incoming = left }))
        × (stream left ≡ rest)
  unfolding do_read
  do_read-frame text rest s h e =
      let (left, got, behind) =
        verdict-accept (read_frame s.incoming)
          (read_frame-frame (frame text) rest s.incoming (omega (arith, length-frame text)) e) in
      (left, rw (got, do_read) (do_parse-frame text (record s { incoming = left }) h), behind)

  parse_text_start :
      (text : List ℕ) (root : json.Value) (n : ℤ) (s : Snap)
      → json.parse text ≡ some root
      → json.int_at root "Cmd" ≡ some (pos 1)
      → json.int_at root "Result" ≡ some n
      → parse_text json text s
        ≡ done (true, record s { send_start_result = n ==ℤ pos 1; pending = true })
  unfolding answer player_command
  parse_text_start text root n s parsed named result = ground arith

  wait_for_signalled :
      (turns : List (List ReadEvent)) (s : Snap)
      → s.pending ≡ true
      → wait_for json turns s ≡ done (tt, record s { pending = false; turns = turns })
  unfolding wait_for
  wait_for_signalled [] s h = ground arith
  wait_for_signalled (events ∷ turns) s h = ground arith

  pub wait_for_turn :
      (events : List ReadEvent) (later : List (List ReadEvent)) (s t : Snap)
      → s.pending ≡ false
      → do_read json (record s { incoming = s.incoming ++ events }) ≡ done (true, t)
      → t.pending ≡ true
      → wait_for json (events ∷ later) s ≡ done (tt, record t { pending = false; turns = later })
  unfolding wait_for
  wait_for_turn events later s t low read up = ground (arith, wait_for_signalled later t up)

  -- `sendStart` on a connected player that takes the message and answers in the first turn, when
  -- no earlier answer is pending: the call returns, its result is whether the answer's "Result" is
  -- 1, exactly one frame has gone out, just the bytes behind the answer are left, and the flag for
  -- the next call is down again.
  pub send_start_answered :
      (address text rest : List ℕ) (rate format channels n : ℤ) (root : json.Value) (fd : ℕ)
      (events : List ReadEvent) (later : List (List ReadEvent)) (s : Snap)
      → s.server_fd ≡ some fd
      → s.pending ≡ false
      → s.turns ≡ events ∷ later
      → Accepts (length (frame (json.write (start_fields json address)))) s.writes
      → length text < 2 ^ 31
      → stream (s.incoming ++ events) ≡ frame (frame text) ++ rest
      → json.parse text ≡ some root
      → json.int_at root "Cmd" ≡ some (pos 1)
      → json.int_at root "Result" ≡ some n
      → (s' : Snap) × (send_start json address rate format channels s ≡ done (n ==ℤ pos 1, s'))
        × (s'.out ≡ s.out ++ frame (json.write (start_fields json address)))
        × (s'.pending ≡ false)
        × (s'.server_fd ≡ some fd)
        × (stream s'.incoming ≡ rest)
  unfolding send_start lock_wait
  send_start_answered address text rest rate format channels n root fd events later s open_fd low t
        takes h e parsed named result =
      let asked : Snap = record s { send_start_result = false } in
      let sent : Snap = record asked {
        out = s.out ++ frame (json.write (start_fields json address));
        writes = (write_loop [] (frame (json.write (start_fields json address))) s.writes).writes;
      } in
      let there : Snap = record sent { incoming = s.incoming ++ events } in
      let (left, read, behind) = do_read-frame text rest there h e in
      let got : Snap = record there {
        incoming = left;
        send_start_result = n ==ℤ pos 1;
        pending = true;
      } in
      let heard : wait_for json (events ∷ later) sent
          ≡ done (tt, record got { pending = false; turns = later }) =
        wait_for_turn events later sent got low
          (read
            ∙ parse_text_start text root n (record there { incoming = left }) parsed named result)
          refl in
      (
        record got { pending = false; turns = later },
        ground (
          arith,
          process_send_accepted (json.write (start_fields json address)) asked fd open_fd takes,
          heard,
        ),
        refl,
        refl,
        open_fd,
        behind,
      )
