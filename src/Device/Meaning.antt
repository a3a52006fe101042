-- ===== src/Device/Meaning.antt =====
-- What the keys of main stand for, in a table.
use lightning_cast_endpoint.Base.{
  ℕ, ◌≡◌, ◌≢◌, true, List, [], ◌∷◌, some, arith, Option, none, ℤ, pos, ltb_ℤ, ◌+ℤ◌, ◌-ℤ◌, fits_int,
  add_int, sub_int, ◌==◌, if◌then◌else◌,
}
use lightning_cast_endpoint.Client.Commands.{
  CommCmd, notify_play, notify_pause, notify_stop, notify_previous, notify_next, notify_seek,
  notify_volume,
}
use lightning_cast_endpoint.Client.State.{Client}
use lightning_cast_endpoint.Device.Keys.{Action, nothing, send, action}

-- What the keys stand for: a command without a value, or five units more or less of the volume, which stays within 0
-- and 100, or of the position.
abbrev pub plain_keys : List (ℕ × CommCmd)
plain_keys =
    (107, notify_play)
    ∷ (115, notify_stop)
    ∷ (112, notify_pause)
    ∷ (110, notify_next)
    ∷ (98, notify_previous)
    ∷ []

abbrev pub named : ℕ → List (ℕ × CommCmd) → Option CommCmd
named ch [] = none
named ch ((k, cmd) ∷ keys) = if ch == k then some cmd else named ch keys

abbrev pub louder : ℤ → ℤ
louder v = if ltb_ℤ (v +ℤ pos 5) (pos 100) then v +ℤ pos 5 else pos 100

abbrev pub quieter : ℤ → ℤ
quieter v = if ltb_ℤ (pos 0) (v -ℤ pos 5) then v -ℤ pos 5 else pos 0

abbrev pub adjusts : ℕ → ℤ → ℤ → Option (CommCmd × ℤ)
adjusts ch volume position =
    if ch == 121
    then some (notify_seek, position -ℤ pos 5)
    else if ch == 117
    then some (notify_seek, position +ℤ pos 5)
    else if ch == 101
    then some (notify_volume, quieter volume)
    else if ch == 114
    then some (notify_volume, louder volume)
    else none

-- The command of a key and its value, for a player at a volume and a position.
abbrev pub meaning : ℕ → ℤ → ℤ → Option (CommCmd × ℤ)
meaning ch volume position = elim (named ch plain_keys) [
  | some cmd ↦ some (cmd, pos 0)
  | none ↦ adjusts ch volume position
]

-- The sum or difference that the key asks for is an int.
abbrev pub Fits : ℕ → ℤ → ℤ → Type 0
Fits ch volume position =
    (ch ≡ 114 → fits_int (volume +ℤ pos 5) ≡ true)
    × (ch ≡ 101 → fits_int (volume -ℤ pos 5) ≡ true)
    × (ch ≡ 117 → fits_int (position +ℤ pos 5) ≡ true)
    × (ch ≡ 121 → fits_int (position -ℤ pos 5) ≡ true)

abbrev pub act : Option (CommCmd × ℤ) → Action
act none = nothing
act (some (cmd, value)) = send cmd value

pub act-meaning :
    (ch : ℕ) (c : Client)
    → ch ≢ 113
    → Fits ch c.current_volume c.position
    → action ch c ≡ act (meaning ch c.current_volume c.position)
unfolding action add_int sub_int
act-meaning ch c other fits = ground arith
