-- ===== src/Server/Handlers.antt =====
-- processSend, Open, doParse and doRead of class LightningCastServer, for one connection.
use Prim.Native.String.{String}
use lightning_cast_endpoint.Base.{
  ℕ, Bool, true, false, List, [], ◌∷◌, ◌++◌, Option, none, some, pos, Run, done, thrown, undefined,
  stuck, pure, ◌>>=◌, ◌>>◌, if◌then◌else◌,
}
use lightning_cast_endpoint.Json.{JsonCpp, Scalar, number, int_member, string_member}
use lightning_cast_endpoint.Wire.Header.{frame}
use lightning_cast_endpoint.Wire.Send.{Sending, blocked, write_loop}
use lightning_cast_endpoint.Wire.Receive.{payload, rejected, incomplete, read_frame}
use lightning_cast_endpoint.Server.State.{
  HandshakeCmd, open_client, handshake_code, handshake_command, Server,
}

module _ {L : Type 0} where
  abbrev after_write : Sending → Run (Server L) (Unit {0})
  after_write sending s = elim sending.ending [
    | blocked ↦ stuck
    | _ ↦ done (
      tt,
      record s {
        connection = record s.connection {
          out = s.connection.out ++ sending.out;
          writes = sending.writes;
        };
      },
    )
  ]

  unfoldable pub process_send : List ℕ → Run (Server L) (Unit {0})
  process_send text s = after_write (write_loop [] (frame text) s.connection.writes) s

-- The answer to an open message.
abbrev pub open_fields : Bool → List (String × Scalar)
open_fields is_open =
    ("Cmd", number (pos (handshake_code open_client)))
    ∷ ("IsOpen", number (pos (if is_open then 1 else 0)))
    ∷ []

-- `client_open` is LightningCastClient::Open.
module _ (json : JsonCpp) {L : Type 0} (client_open : List ℕ → Run L Bool) where
  open json use {Value, parse, write}

  abbrev call_client : List ℕ → Run (Server L) Bool
  call_client ip_addr s = elim (client_open ip_addr s.cast_client) [
    | done (b, c) ↦ done (b, record s { cast_client = c })
    | thrown ↦ thrown
    | undefined ↦ undefined
    | stuck ↦ stuck
  ]

  unfoldable pub open_connection : List ℕ → Run (Server L) (Unit {0})
  open_connection ip_addr = do
    is_open ← call_client ip_addr
    process_send (write (open_fields is_open))

  -- The `switch` of `doParse`: false closes the connection.
  unfoldable pub handle_command : Option HandshakeCmd → Value → Run (Server L) Bool
  handle_command (some open_client) root = do
    ip_addr ← string_member json root "IpAddr"
    open_connection ip_addr
    pure true
  handle_command other root = pure false

  unfoldable pub do_parse : List ℕ → Run (Server L) Bool
  do_parse text s = elim (parse text) [
    | none ↦ done (false, s)
    | some root ↦
        (do cmd ← int_member json root "Cmd"; handle_command (handshake_command cmd) root) s
  ]

  unfoldable pub do_read : Run (Server L) Bool
  do_read s = elim (read_frame s.connection.incoming) [
    | payload text rest ↦
        do_parse text (record s { connection = record s.connection { incoming = rest } })
    | rejected rest ↦
        done (false, record s { connection = record s.connection { incoming = rest } })
    | incomplete ↦ stuck
  ]
