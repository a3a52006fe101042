-- ===== src/Util/EventFd.antt =====
-- class EventFD of Util.h and Util.cpp, and make_socket_non_blocking.
use Prim.Native.Nat.{bit_or}
use lightning_cast_endpoint.Base.{
  ℕ, zero, suc, ◌+◌, ◌-◌, ◌^◌, ◌<◌, ◌≡◌, refl, Bool, true, false, Option, none, some, arith, ltb,
  ◌==◌, if◌then◌else◌, ℤ, pos, negsuc,
}

-- The counter behind the descriptor; it is opened with EFD_NONBLOCK.
pub record EventFd : Type 0 where
  pub fd : ℕ
  pub counter : ℕ

-- EventFD(), given the descriptor that eventfd(0, ...) returns.
abbrev pub create : ℕ → EventFd
create fd = record { fd = fd; counter = 0 }

abbrev pub get : EventFd → ℕ
get e = e.fd

-- A read of a zero counter fails with EAGAIN; any other returns the counter and resets it.
unfoldable pub read : EventFd → Bool × EventFd
read e = if e.counter == 0 then (false, e) else (true, record e { counter = 0 })

-- The counter stays below 2^64 - 1; a write that would pass it fails with EAGAIN and changes nothing.
unfoldable pub write : EventFd → EventFd
write e = if ltb (e.counter + 1) (2 ^ 64 - 1) then record e { counter = e.counter + 1 } else e

unfoldable pub writes : ℕ → EventFd → EventFd
writes zero e = e
writes (suc n) e = writes n (write e)

write_pos : (e : EventFd) → (0 < (write e).counter) × ((write e).fd ≡ e.fd)
unfolding write
write_pos e = ground arith

writes_pos :
    (n : ℕ) (e : EventFd) → 0 < e.counter → (0 < (writes n e).counter) × ((writes n e).fd ≡ e.fd)
unfolding writes
writes_pos zero e h = (h, refl)
writes_pos (suc n) e h = ground (arith, write_pos e, writes_pos n (write e))

-- Wake-ups are never lost and never counted: after one or more calls of `Write`, the next `Read`
-- succeeds, and a second one fails.
pub read-writes :
    (n : ℕ) (e : EventFd)
    → let r = read (writes (suc n) e) in (r.0 ≡ true) × (r.1.fd ≡ e.fd) × ((read r.1).0 ≡ false)
unfolding read writes
read-writes n e = ground (arith, write_pos e, writes_pos n (write e))

-- O_NONBLOCK
abbrev o_nonblock : ℕ
o_nonblock = 0o4000

-- What fcntl(F_GETFL) returns (`none` for -1), and whether fcntl(F_SETFL) accepts the flags. The
-- result is the return value with the flags that the socket then has, where they are set.
unfoldable pub make_socket_non_blocking : Option ℕ → (ℕ → Bool) → ℤ × Option ℕ
make_socket_non_blocking none set = (negsuc 0, none)
make_socket_non_blocking (some flags) set =
    let flags' = bit_or flags o_nonblock in
    if set flags' then (pos 0, some flags') else (negsuc 0, none)
