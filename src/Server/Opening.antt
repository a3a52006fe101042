-- ===== src/Server/Opening.antt =====
-- How the server answers a handshake message.
use lightning_cast_endpoint.Base.{
  ap, ◌∙◌, ◌^◌, ◌<◌, ℕ, ◌≡◌, refl, Bool, true, List, [], ◌++◌, some, arith, pos, Run, done, length,
}
use lightning_cast_endpoint.Json.{JsonCpp}
use lightning_cast_endpoint.Wire.Header.{frame}
use lightning_cast_endpoint.Wire.Send.{Accepts, write_loop, write_loop-complete}
use lightning_cast_endpoint.Wire.Receive.{read_frame, stream}
use lightning_cast_endpoint.Wire.RoundTrip.{read_frame-frame, verdict-accept}
use lightning_cast_endpoint.Server.State.{Server, handshake_command}
use lightning_cast_endpoint.Server.Handlers.{
  process_send, open_fields, open_connection, handle_command, do_parse, do_read,
}

module _ {L : Type 0} where
  process_send_accepted :
      (text : List ℕ) (s : Server L)
      → Accepts (length (frame text)) s.connection.writes
      → process_send text s
        ≡ done (
          tt,
          record s {
            connection = record s.connection {
              out = s.connection.out ++ frame text;
              writes = (write_loop [] (frame text) s.connection.writes).writes;
            };
          },
        )
  unfolding process_send
  process_send_accepted text s h =
      ground (arith, write_loop-complete [] (frame text) s.connection.writes h)

module _ (json : JsonCpp) {L : Type 0} (client_open : List ℕ → Run L Bool) where
  -- An open message makes the client open a connection to the address that it names, once, and is answered
  -- on its own connection with one frame that says whether that worked; the connection stays.
  pub do_parse_open :
      (text ip_addr : List ℕ) (root : json.Value) (s : Server L) (c : L) (b : Bool)
      → json.parse text ≡ some root
      → json.int_at root "Cmd" ≡ some (pos 1)
      → json.string_at root "IpAddr" ≡ some ip_addr
      → client_open ip_addr s.cast_client ≡ done (b, c)
      → Accepts (length (frame (json.write (open_fields b)))) s.connection.writes
      → (s' : Server L) × (do_parse json client_open text s ≡ done (true, s'))
        × (s'.cast_client ≡ c)
        × (s'.connection.out ≡ s.connection.out ++ frame (json.write (open_fields b)))
        × (s'.connection.incoming ≡ s.connection.incoming)
  unfolding do_parse handle_command handshake_command open_connection
  do_parse_open text ip_addr root s c b parsed named address opened takes =
      let opened_state : Server L = record s { cast_client = c } in
      (
        record opened_state {
          connection = record s.connection {
            out = s.connection.out ++ frame (json.write (open_fields b));
            writes =
                (write_loop [] (frame (json.write (open_fields b))) s.connection.writes).writes;
          };
        },
        ground (arith, process_send_accepted (json.write (open_fields b)) opened_state takes),
        refl,
        refl,
        refl,
      )

  -- An open message that comes in any pieces, with other bytes behind it, makes the client open a connection to
  -- the address that it names, once, and if the socket takes the answer it is answered on its own connection with
  -- one frame that says whether that worked; the connection stays, and just the other bytes are left.
  pub do_read_open :
      (text rest ip_addr : List ℕ) (root : json.Value) (s : Server L) (c : L) (b : Bool)
      → length text < 2 ^ 32
      → stream s.connection.incoming ≡ frame text ++ rest
      → json.parse text ≡ some root
      → json.int_at root "Cmd" ≡ some (pos 1)
      → json.string_at root "IpAddr" ≡ some ip_addr
      → client_open ip_addr s.cast_client ≡ done (b, c)
      → Accepts (length (frame (json.write (open_fields b)))) s.connection.writes
      → (s' : Server L) × (do_read json client_open s ≡ done (true, s'))
        × (s'.cast_client ≡ c)
        × (s'.connection.out ≡ s.connection.out ++ frame (json.write (open_fields b)))
        × (stream s'.connection.incoming ≡ rest)
  unfolding do_read
  do_read_open text rest ip_addr root s c b short e parsed named address opens takes =
      let (left, got, behind) =
        verdict-accept (read_frame s.connection.incoming)
          (read_frame-frame text rest s.connection.incoming short e) in
      let there : Server L = record s { connection = record s.connection { incoming = left } } in
      let (s', runs, client, out, same) =
        do_parse_open text ip_addr root there c b parsed named address opens takes in
      (s', ground arith, client, out, ap stream same ∙ behind)
