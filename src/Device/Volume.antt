-- ===== src/Device/Volume.antt =====
-- The volume and seek keys.
use lightning_cast_endpoint.Base.{◌≡◌, arith, ℤ, pos, ◌+ℤ◌, ◌-ℤ◌, ◌≤ℤ◌, add_int, sub_int}
use lightning_cast_endpoint.Client.Commands.{notify_volume}
use lightning_cast_endpoint.Client.State.{Client}
use lightning_cast_endpoint.Device.Keys.{send, action, at_most_100, at_least_0}

-- The volume keys: from a volume between 0 and 100 "r" asks for one that is no lower, at most five
-- higher and at most 100, and "e" for one that is no higher, at most five lower and at least 0.
pub volume_keys :
    (c : Client)
    → pos 0 ≤ℤ c.current_volume
    → c.current_volume ≤ℤ pos 100
    → (up down : ℤ) × (action b'r' c ≡ send notify_volume up)
      × (action b'e' c ≡ send notify_volume down)
      × (c.current_volume ≤ℤ up)
      × (up ≤ℤ c.current_volume +ℤ pos 5)
      × (up ≤ℤ pos 100)
      × (down ≤ℤ c.current_volume)
      × (c.current_volume ≤ℤ down +ℤ pos 5)
      × (pos 0 ≤ℤ down)
unfolding action ◌+ℤ◌ ◌-ℤ◌ add_int sub_int
volume_keys c low high = (
  at_most_100 (c.current_volume +ℤ pos 5),
  at_least_0 (c.current_volume -ℤ pos 5),
  ground arith,
  ground arith,
  ground arith,
  ground arith,
  ground arith,
  ground arith,
  ground arith,
  ground arith,
)
