-- ===== src/Client/Commands.antt =====
-- The command enumerations of LightningCastClient.h.
use lightning_cast_endpoint.Base.{
  ◌↔◌, ℕ, ◌≡◌, sym, ap, inl, inr, ◌⊎◌, ◌∙◌, refl, Option, none, some, arith, ◌==◌, if◌then◌else◌, ℤ,
  pos, negsuc,
}

-- LightningCastClientCmd, with `idle` for NONE
pub data ClientCmd : Type 0 where
  idle open_server close_server exit : ClientCmd

-- LightningCastCommCmd, with `no_command` for NONE
pub data CommCmd : Type 0 where
  no_command : CommCmd
  set_version set_exit set_metadata set_audioformat set_duration set_position set_status : CommCmd
  set_play set_pause set_stop set_volume set_mute set_step_volume : CommCmd
  notify_version notify_exit notify_alive notify_play notify_pause notify_stop : CommCmd
  notify_previous notify_next notify_seek notify_volume_control notify_volume notify_mute : CommCmd

-- The cast of a command to int: the numbers run from 0 and from 101.
unfoldable pub code : CommCmd → ℕ
code no_command = 0
code set_version = 1
code set_exit = 2
code set_metadata = 3
code set_audioformat = 4
code set_duration = 5
code set_position = 6
code set_status = 7
code set_play = 8
code set_pause = 9
code set_stop = 10
code set_volume = 11
code set_mute = 12
code set_step_volume = 13
code notify_version = 101
code notify_exit = 102
code notify_alive = 103
code notify_play = 104
code notify_pause = 105
code notify_stop = 106
code notify_previous = 107
code notify_next = 108
code notify_seek = 109
code notify_volume_control = 110
code notify_volume = 111
code notify_mute = 112

-- What a `switch` on the cast of an int sees; `none` for a number that names no command.
below_100 : ℕ → Option CommCmd
below_100 n =
    if n == 0
    then some no_command
    else if n == 1
    then some set_version
    else if n == 2
    then some set_exit
    else if n == 3
    then some set_metadata
    else if n == 4
    then some set_audioformat
    else if n == 5
    then some set_duration
    else if n == 6
    then some set_position
    else if n == 7
    then some set_status
    else if n == 8
    then some set_play
    else if n == 9
    then some set_pause
    else if n == 10
    then some set_stop
    else if n == 11
    then some set_volume
    else if n == 12
    then some set_mute
    else if n == 13
    then some set_step_volume
    else none

above_100 : ℕ → Option CommCmd
above_100 n =
    if n == 101
    then some notify_version
    else if n == 102
    then some notify_exit
    else if n == 103
    then some notify_alive
    else if n == 104
    then some notify_play
    else if n == 105
    then some notify_pause
    else if n == 106
    then some notify_stop
    else if n == 107
    then some notify_previous
    else if n == 108
    then some notify_next
    else if n == 109
    then some notify_seek
    else if n == 110
    then some notify_volume_control
    else if n == 111
    then some notify_volume
    else if n == 112
    then some notify_mute
    else none

abbrev or_else : Option CommCmd → Option CommCmd → Option CommCmd
or_else (some c) other = some c
or_else none other = other

unfoldable pub command : ℤ → Option CommCmd
unfolding below_100 above_100
command (negsuc n) = none
command (pos n) = or_else (below_100 n) (above_100 n)

-- Every command survives the cast to int and back.
pub command-code : (c : CommCmd) → command (pos (code c)) ≡ some c
unfolding command code
command-code no_command = refl
command-code c = refl

below_100-code : (n : ℕ) (c : CommCmd) → below_100 n ≡ some c → n ≡ code c
unfolding code below_100
below_100-code n c h = ground arith

above_100-code : (n : ℕ) (c : CommCmd) → above_100 n ≡ some c → n ≡ code c
unfolding code above_100
above_100-code n c h = ground arith

or_else_cases :
    (a b : Option CommCmd) {c : CommCmd} → or_else a b ≡ some c → (a ≡ some c) ⊎ (b ≡ some c)
or_else_cases (some d) b h = inl h
or_else_cases none b h = inr h

pos-command : (n : ℕ) → command (pos n) ≡ or_else (below_100 n) (above_100 n)
unfolding command
pos-command n = refl

-- A number names at most one command, the one that is cast to it.
pub code-command : (n : ℤ) (c : CommCmd) → command n ≡ some c → n ≡ pos (code c)
code-command (negsuc n) c h = unfold command in cc
code-command (pos n) c h =
    elim (or_else_cases (below_100 n) (above_100 n) (sym (pos-command n) ∙ h)) [
      | inl low ↦ ap pos (below_100-code n c low)
      | inr high ↦ ap pos (above_100-code n c high)
    ]

-- The numbers of the commands and the cast back agree: a number is taken as a command just if it is the
-- number of that command.
pub command_iff : (n : ℤ) (c : CommCmd) → (command n ≡ some c) ↔ (n ≡ pos (code c))
command_iff n c = (code-command n c, λ e. ap command e ∙ command-code c)
