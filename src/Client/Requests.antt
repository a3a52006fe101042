-- ===== src/Client/Requests.antt =====
-- The calls of SnapcastComm that doPlay, doPause and doStop make, in order, and how a thread goes through them.
use lightning_cast_endpoint.Base.{◌≡◌, List, [], ◌∷◌}
use lightning_cast_endpoint.Client.Channel
use lightning_cast_endpoint.Client.Channel.{Worker, selecting, testing, stopping, was_open}
use lightning_cast_endpoint.Snapcast.Interleaving.{Caller, free, in_open, in_close, in_reply}

-- `send_stop` stands for sendStop and for sendPause, which are the same.
pub data Request : Type 0 where
  open_player send_start send_stop close_player : Request

-- Where a thread stands in such a call.
abbrev pub waits_in : Request → Caller
waits_in open_player = in_open
waits_in close_player = in_close
waits_in other = in_reply

-- doPlay, as long as sendStart does not return false.
abbrev pub play : List Request
play = open_player ∷ send_start ∷ []

-- doPause and doStop.
abbrev pub halt : List Request
halt = send_stop ∷ close_player ∷ []

-- A thread that stands at `c` and has the calls `todo` before it begins the first, or returns from it; then it stands
-- at `d` and has the calls `rest` before it.
pub data Follows (c : Caller) (todo : List Request) (d : Caller) (rest : List Request)
    : Type 0 where
  asks :
      (r : Request) (more : List Request)
      → c ≡ free
      → todo ≡ r ∷ more
      → d ≡ waits_in r
      → rest ≡ r ∷ more
      → Follows c todo d rest
  returns :
      (r : Request) (more : List Request)
      → c ≡ waits_in r
      → todo ≡ r ∷ more
      → d ≡ free
      → rest ≡ more
      → Follows c todo d rest
  -- The player's answer does not accept.
  start_refused :
      c ≡ in_reply
      → todo ≡ send_start ∷ []
      → d ≡ free
      → rest ≡ close_player ∷ []
      → Follows c todo d rest

-- `processSend` returns false without a socket, and the request returns at once.
pub data Unsent (todo rest : List Request) : Type 0 where
  stop_unsent : (more : List Request) → todo ≡ send_stop ∷ more → rest ≡ more → Unsent todo rest
  start_unsent : todo ≡ send_start ∷ [] → rest ≡ close_player ∷ [] → Unsent todo rest

-- What a step of the phone makes the client's thread do with the player: a message is handled behind its
-- select and before the test of the loop.
pub data Brings (s t : Channel.Threads) (todo : List Request) : Type 0 where
  nothing : todo ≡ [] → Brings s t todo
  play_message : s.worker ≡ selecting → t.worker ≡ testing → todo ≡ play → Brings s t todo
  stop_message : s.worker ≡ selecting → t.worker ≡ testing → todo ≡ halt → Brings s t todo

-- `doStop` behind the loop.
abbrev pub halts_at : Worker → List Request
halts_at stopping = halt
halts_at other = []

-- `doStop` in `Open` and in `Exit`.
abbrev pub halts_in : Channel.Caller → List Request
halts_in was_open = halt
halts_in other = []
