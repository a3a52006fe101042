-- ===== src/Server/State.antt =====
-- The members of class LightningCastServer, its listening socket and its clients' sockets.
use lightning_cast_endpoint.Base.{
  ℕ, Bool, not, ◌||◌, List, Option, none, some, ltb, ◌==◌, if◌then◌else◌, ℤ, pos, negsuc,
}
use lightning_cast_endpoint.Wire.Send.{WriteResult}
use lightning_cast_endpoint.Wire.Receive.{ReadEvent}
use lightning_cast_endpoint.Util.EventFd.{EventFd}

-- LightningCastHandshakeCmd, with `no_command` for NONE
pub data HandshakeCmd : Type 0 where
  no_command open_client close_client : HandshakeCmd

unfoldable pub handshake_code : HandshakeCmd → ℕ
handshake_code no_command = 0
handshake_code open_client = 1
handshake_code close_client = 2

-- What a `switch` on the cast of an int sees.
unfoldable pub handshake_command : ℤ → Option HandshakeCmd
handshake_command (pos n) =
    if n == 0
    then some no_command
    else if n == 1
    then some open_client
    else if n == 2
    then some close_client
    else none
handshake_command (negsuc n) = none

-- The socket of one connection.
pub record Connection : Type 0 where
  pub out : List ℕ
  pub writes : List WriteResult
  pub incoming : List ReadEvent

-- `L` is the state of the client behind `lightningCastClient`.
pub record Server (L : Type 0) : Type 0 where
  pub cast_client : L
  pub wake_fd : EventFd
  pub connection : Connection

-- What the calls of `create_and_bind` return.
pub record Binding : Type 0 where
  pub socket : Option ℕ
  pub set_option : Bool
  pub binds : Bool
  pub listens : Bool

-- The descriptor, or `none` for -1. `make_socket_non_blocking` is called and its result is not read.
unfoldable pub create_and_bind : ℕ → Binding → Option ℕ
create_and_bind port b = if ltb port 1024 || ltb 32767 port then none else (elim b.socket [
  | none ↦ none
  | some fd ↦
      if not b.set_option
      then none
      else if not b.binds
      then none
      else if not b.listens
      then none
      else some fd
])
