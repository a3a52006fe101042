-- ===== src/Device/Place.antt =====
-- The statements of main, from the first std::thread to the last join.
use lightning_cast_endpoint.Base.{ℕ}

-- Where main stands: at one of the four std::thread, at the keys, at one of the calls behind the loop, or
-- at one of the joins.
pub data Position : Type 0 where
  starting_publisher starting_snap starting_client starting_server : Position
  typing : Position
  exiting_client exiting_snap exiting_server : Position
  unregistering asking : Position
  joining_publisher joining_snap joining_client joining_server : Position
  returned : Position

-- The order in which main passes them.
abbrev pub place : Position → ℕ
place starting_publisher = 0
place starting_snap = 1
place starting_client = 2
place starting_server = 3
place typing = 4
place exiting_client = 5
place exiting_snap = 6
place exiting_server = 7
place unregistering = 8
place asking = 9
place joining_publisher = 10
place joining_snap = 11
place joining_client = 12
place joining_server = 13
place returned = 14
