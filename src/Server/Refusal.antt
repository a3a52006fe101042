-- ===== src/Server/Refusal.antt =====
-- How the server closes a connection that sends anything but an open message.
use lightning_cast_endpoint.Base.{
  ℕ, ◌≡◌, ◌≢◌, refl, ◌∙◌, Bool, false, List, none, some, arith, ℤ, pos, Run, done,
}
use lightning_cast_endpoint.Json.{JsonCpp}
use lightning_cast_endpoint.Wire.Receive.{
  ReadEvent, Received, payload, rejected, incomplete, read_frame, stream, is_cut,
}
use lightning_cast_endpoint.Wire.RoundTrip.{
  accept, reject, take_message, verdict, verdict-accept, read_frame-take_message,
}
use lightning_cast_endpoint.Server.State.{Server, handshake_command}
use lightning_cast_endpoint.Server.Handlers.{do_parse, do_read, handle_command}
use lightning_cast_endpoint.Util.FdSet.{is_set, fd_clear, is_set-fd_clear}
use lightning_cast_endpoint.Server.Loop.{Loop, put, serve}

verdict-reject : (r : Received) → verdict r ≡ reject → (left : List ReadEvent) × (r ≡ rejected left)
verdict-reject (payload t left) h = cc
verdict-reject (rejected left) h = (left, refl)
verdict-reject incomplete h = cc

module _ (json : JsonCpp) where
  -- A text that is no JSON, or that has a number other than that of open.
  pub data Foreign (text : List ℕ) : Type 0 where
    no_json : json.parse text ≡ none → Foreign text
    other_command :
        (root : json.Value) (n : ℤ)
        → json.parse text ≡ some root
        → json.int_at root "Cmd" ≡ some n
        → n ≢ pos 1
        → Foreign text

  -- What the server refuses on a connection, by the protocol on plain bytes: a wrong key, a stream that ends or
  -- breaks within a message, or a foreign text.
  pub data Refused (bytes : List ℕ) (cut : Bool) : Type 0 where
    no_frame : take_message bytes cut ≡ reject → Refused bytes cut
    foreign :
        (text rest : List ℕ)
        → take_message bytes cut ≡ accept text rest
        → Foreign text
        → Refused bytes cut

module _ (json : JsonCpp) {L : Type 0} (client_open : List ℕ → Run L Bool) where
  do_parse-Foreign :
      (text : List ℕ) (s : Server L)
      → Foreign json text
      → do_parse json client_open text s ≡ done (false, s)
  unfolding do_parse handle_command handshake_command
  do_parse-Foreign text s (no_json e) = ground arith
  do_parse-Foreign text s (other_command root n e f g) = ground arith

  do_read-Refused :
      (s : Server L)
      → Refused json (stream s.connection.incoming) (is_cut s.connection.incoming)
      → (left : List ReadEvent) × (do_read json client_open s
          ≡ done (false, record s { connection = record s.connection { incoming = left } }))
  unfolding do_read
  do_read-Refused s (no_frame h) =
      let (left, e) =
        verdict-reject (read_frame s.connection.incoming)
          (read_frame-take_message s.connection.incoming ∙ h) in
      (left, ground arith)
  do_read-Refused s (foreign text rest h other) =
      let (left, e, behind) =
        verdict-accept (read_frame s.connection.incoming)
          (read_frame-take_message s.connection.incoming ∙ h) in
      (
        left,
        ground (
          arith,
          do_parse-Foreign text (record s { connection = record s.connection { incoming = left } })
              other,
        ),
      )

  -- A connection whose bytes, in any pieces, begin with one of these is closed: a header with a wrong key, a message
  -- that the stream's end or an error cuts off, a text that is no JSON, or one with a command number other than that
  -- of open, close among them. Its descriptor leaves the set and every other stays, nothing is sent to it, the client
  -- is not called, and the loop's flag is as it was.
  pub serve_refuses :
      (i : ℕ) (s : Loop L)
      → Refused json (stream (s.sockets i).incoming) (is_cut (s.sockets i).incoming)
      → (t : Loop L) × (serve json client_open i s ≡ done (tt, t))
        × (is_set i t.master ≡ false)
        × ((j : ℕ) → j ≢ i → is_set j t.master ≡ is_set j s.master)
        × ((t.sockets i).out ≡ (s.sockets i).out)
        × (t.cast_client ≡ s.cast_client)
        × (t.stop ≡ s.stop)
  unfolding serve
  serve_refuses i s h =
      let there : Server L = record {
        cast_client = s.cast_client;
        wake_fd = s.wake_fd;
        connection = s.sockets i;
      } in
      let (left, e) = do_read-Refused there h in
      (
        record s {
          sockets = put i (record (s.sockets i) { incoming = left }) s.sockets;
          master = fd_clear i s.master;
        },
        ground arith,
        ground (arith, is_set-fd_clear i i s.master),
        λ j apart. ground (arith, is_set-fd_clear i j s.master),
        ground arith,
        refl,
        refl,
      )
