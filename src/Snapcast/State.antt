-- ===== src/Snapcast/State.antt =====
-- The members of class SnapcastComm, its command enumerations, and its environment.
use lightning_cast_endpoint.Base.{
  ℕ, Bool, false, List, [], Option, none, some, ℤ, pos, negsuc, ◌==◌, if◌then◌else◌,
}
use lightning_cast_endpoint.Wire.Send.{WriteResult}
use lightning_cast_endpoint.Wire.Receive.{ReadEvent}
use lightning_cast_endpoint.Util.EventFd.{EventFd}

-- SNAPCASTThreadCmd, with `idle` for NONE
pub data ThreadCmd : Type 0 where
  idle opening closing exiting : ThreadCmd

-- LIGHTNINGCASTCLIENTCmd, with `no_command` for NONE
pub data PlayerCmd : Type 0 where
  no_command start stop report_data : PlayerCmd

unfoldable pub player_code : PlayerCmd → ℕ
player_code no_command = 0
player_code start = 1
player_code stop = 2
player_code report_data = 3

-- What a `switch` on the cast of an int sees.
unfoldable pub player_command : ℤ → Option PlayerCmd
player_command (pos n) =
    if n == 0
    then some no_command
    else if n == 1
    then some start
    else if n == 2
    then some stop
    else if n == 3
    then some report_data
    else none
player_command (negsuc n) = none

-- The members, and behind them what the socket of the player has got (`out`), what it answers to writes,
-- the bytes that are there to read, those that come before each later turn of the reading thread, and
-- whether each later attempt to connect succeeds.
pub record Snap : Type 0 where
  pub cmd : ThreadCmd
  pub ready : Bool
  pub ready_sync : Bool
  pub server_fd : Option ℕ
  pub wake_fd : EventFd
  pub current_snapserver_ipaddr : List ℕ
  pub send_start_result : Bool
  pub pending : Bool
  pub out : List ℕ
  pub writes : List WriteResult
  pub incoming : List ReadEvent
  pub turns : List (List ReadEvent)
  pub connects : List Bool

-- The constructor, with an environment in which nothing will happen.
abbrev pub new : EventFd → Snap
new wake_fd = record {
  cmd = idle;
  ready = false;
  ready_sync = false;
  server_fd = none;
  wake_fd = wake_fd;
  current_snapserver_ipaddr = [];
  send_start_result = false;
  pending = false;
  out = [];
  writes = [];
  incoming = [];
  turns = [];
  connects = [];
}
