-- ===== src/Device/Keys.antt =====
-- The keyboard loop of main.
use lightning_cast_endpoint.Base.{
  ℕ, Bool, true, false, List, [], ◌∷◌, ◌==◌, if◌then◌else◌, ℤ, pos, ltb_ℤ, Option, none, some,
  add_int, sub_int, Run, done, undefined, stuck, pure, ◌>>=◌, ◌>>◌,
}
use lightning_cast_endpoint.Json.{JsonCpp}
use lightning_cast_endpoint.Client.Commands.{
  CommCmd, notify_play, notify_pause, notify_stop, notify_previous, notify_next, notify_seek,
  notify_volume,
}
use lightning_cast_endpoint.Client.State.{Client, World}
use lightning_cast_endpoint.Client.Send.{send_remote_command}

-- What a key does: end the loop, nothing, send a command with a value, or overflow an int.
pub data Action : Type 0 where
  quit nothing overflows : Action
  send : CommCmd → ℤ → Action

-- A command whose value is made from the result of int arithmetic.
abbrev pub with_result : (ℤ → Action) → Option ℤ → Action
with_result act none = overflows
with_result act (some value) = act value

-- `v < 100 ? v : 100`
abbrev pub at_most_100 : ℤ → ℤ
at_most_100 v = if ltb_ℤ v (pos 100) then v else pos 100

-- `v > 0 ? v : 0`
abbrev pub at_least_0 : ℤ → ℤ
at_least_0 v = if ltb_ℤ (pos 0) v then v else pos 0

unfoldable pub action : ℕ → Client → Action
action ch c =
    if ch == b'q'
    then quit
    else if ch == b'k'
    then send notify_play (pos 0)
    else if ch == b's'
    then send notify_stop (pos 0)
    else if ch == b'p'
    then send notify_pause (pos 0)
    else if ch == b'n'
    then send notify_next (pos 0)
    else if ch == b'b'
    then send notify_previous (pos 0)
    else if ch == b'r'
    then with_result (λ v. send notify_volume (at_most_100 v)) (add_int c.current_volume (pos 5))
    else if ch == b'e'
    then with_result (λ v. send notify_volume (at_least_0 v)) (sub_int c.current_volume (pos 5))
    else if ch == b'u'
    then with_result (send notify_seek) (add_int c.position (pos 5))
    else if ch == b'y'
    then with_result (send notify_seek) (sub_int c.position (pos 5))
    else nothing

-- What poll brings: nothing within 100 ms, a byte, or the end of the input, after which `ch` has no
-- value.
pub data Input : Type 0 where
  silence end_of_input : Input
  key : ℕ → Input

module _ (json : JsonCpp) {S : Type 0} where
  -- One turn; true ends the loop.
  abbrev pub press : Action → Run (World S) Bool
  press quit = pure true
  press nothing = pure false
  press overflows = λ w. undefined
  press (send cmd value) = do send_remote_command json cmd value; pure false

  abbrev pub turn : Input → Run (World S) Bool
  turn silence w = done (false, w)
  turn end_of_input w = undefined
  turn (key ch) w = press (action ch w.client) w

  unfoldable pub key_loop : List Input → Run (World S) (Unit {0})
  key_loop [] w = stuck
  key_loop (input ∷ inputs) w =
      let more : Run (World S) (Unit {0}) = key_loop inputs in
      (do over ← turn input; if over then pure tt else more) w
