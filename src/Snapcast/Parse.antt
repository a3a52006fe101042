-- ===== src/Snapcast/Parse.antt =====
-- doParse and doRead of class SnapcastComm: the answers of the player.
use lightning_cast_endpoint.Base.{
  ℕ, ◌+◌, ◌^◌, Bool, true, false, List, Option, none, some, ltb, length, take, drop, pos, ◌==◌,
  ◌==ℤ◌, Run, done, thrown, undefined, stuck, pure, ◌>>=◌, ◌>>◌, if◌then◌else◌,
}
use lightning_cast_endpoint.Json.{JsonCpp, int_member}
use lightning_cast_endpoint.Wire.Header.{header_key, header_size, load_header}
use lightning_cast_endpoint.Wire.Receive.{payload, rejected, incomplete, read_frame}
use lightning_cast_endpoint.Snapcast.State.{Snap, PlayerCmd, start, stop, player_command}

-- The second half of `LockWait` and `LockSignal`: the flag that one thread waits for.
abbrev pub lock_signal : Run Snap (Unit {0})
lock_signal s = done (tt, record s { pending = true })

module _ (json : JsonCpp) where
  open json use {Value, parse}

  unfoldable pub answer : Option PlayerCmd → Value → Run Snap Bool
  answer (some start) root = do
    result ← int_member json root "Result"
    (λ s. done (tt, record s { send_start_result = result ==ℤ pos 1 }))
    lock_signal
    pure true
  answer (some stop) root = do lock_signal; pure true
  answer other root = pure false

  abbrev pub parse_text : List ℕ → Run Snap Bool
  parse_text text s = elim (parse text) [
    | none ↦ done (false, s)
    | some root ↦ (do cmd ← int_member json root "Cmd"; answer (player_command cmd) root) s
  ]

  -- The payload has a header of its own. Eight bytes are copied and the text is taken without a look at
  -- `length`: past the end of the buffer is undefined. A size of 2^31 or more is negative as an int,
  -- and the string constructor throws.
  unfoldable pub do_parse : List ℕ → Run Snap Bool
  do_parse buf s =
      if ltb (length buf) header_size
      then undefined
      else if (load_header buf).key == header_key
      then (let size = (load_header buf).data_size in
          if ltb size (2 ^ 31)
          then (if ltb (length buf) (header_size + size)
              then undefined
              else parse_text (take size (drop header_size buf)) s)
          else thrown)
      else done (false, s)

  unfoldable pub do_read : Run Snap Bool
  do_read s = elim (read_frame s.incoming) [
    | payload text rest ↦ do_parse text (record s { incoming = rest })
    | rejected rest ↦ done (false, record s { incoming = rest })
    | incomplete ↦ stuck
  ]
