-- ===== src/Wire/Shared.antt =====
-- The mutex `server_mutex` of LightningCastClient and of SnapcastComm: any number of threads call `processSend`
-- on one connected socket, and each call of ::write, of each thread, is one step.
use lightning_cast_endpoint.Base.{
  ℕ, ◌≡◌, Bool, true, false, List, [], ◌∷◌, ◌++◌, ◌==◌, if◌then◌else◌, take, drop,
}
use lightning_cast_endpoint.Wire.Header.{frame}

-- `server_mutex`: free, or held by the thread with this number, which has these bytes of its buffer, those from
-- `ptr` on, still to write.
pub data Lock : Type 0 where
  unlocked : Lock
  held : ℕ → List ℕ → Lock

-- `connected` says that `server_fd` is not -1. `out` is what the peer gets; `sent` has the calls that found the
-- socket, in the order in which they took the lock, each with its thread; `todo` is what each thread will still send;
-- `cut` says that a call has broken off; `intact` has the calls up to the last that returned before one did.
pub record Shared : Type 0 where
  pub connected : Bool
  pub lock : Lock
  pub out : List ℕ
  pub sent : List (ℕ × List ℕ)
  pub todo : ℕ → List (List ℕ)
  pub cut : Bool
  pub intact : List (ℕ × List ℕ)

-- Behind `connectServer`.
abbrev pub begin : (ℕ → List (List ℕ)) → Shared
begin program = record {
  connected = true;
  lock = unlocked;
  out = [];
  sent = [];
  todo = program;
  cut = false;
  intact = [];
}

-- A call has written all.
abbrev pub release : Shared → Shared
release s = record s { lock = unlocked; intact = if s.cut then s.intact else s.sent }

abbrev pub with_todo : ℕ → List (List ℕ) → (ℕ → List (List ℕ)) → ℕ → List (List ℕ)
with_todo i more todo j = if i == j then more else todo j

pub data SendStep (s : Shared) : Shared → Type 0 where
  -- `lock_guard`, and the buffer is filled.
  locks :
      (i : ℕ) (text : List ℕ) (more : List (List ℕ))
      → s.lock ≡ unlocked
      → s.connected ≡ true
      → s.todo i ≡ text ∷ more
      → SendStep s (record s {
        lock = held i (frame text);
        sent = s.sent ++ (i, text) ∷ [];
        todo = with_todo i more s.todo;
      })
  -- `if(server_fd == -1) return;`
  finds_closed :
      (i : ℕ) (text : List ℕ) (more : List (List ℕ))
      → s.lock ≡ unlocked
      → s.connected ≡ false
      → s.todo i ≡ text ∷ more
      → SendStep s (record s { todo = with_todo i more s.todo })
  -- ::write takes `suc n` bytes, or all if there are not so many.
  writes :
      (i n b : ℕ) (left : List ℕ)
      → s.lock ≡ held i (b ∷ left)
      → SendStep s (record s { lock = held i (drop n left); out = s.out ++ b ∷ take n left })
  -- ::write says EAGAIN.
  tries_again : (i b : ℕ) (left : List ℕ) → s.lock ≡ held i (b ∷ left) → SendStep s s
  -- ::write fails, or returns 0: `break`.
  breaks :
      (i b : ℕ) (left : List ℕ)
      → s.lock ≡ held i (b ∷ left)
      → SendStep s (record s { lock = unlocked; cut = true })
  -- The loop is done, and the lock is released.
  returns : (i : ℕ) → s.lock ≡ held i [] → SendStep s (release s)
  -- `do_open` closes the socket, under the same lock.
  closes : s.lock ≡ unlocked → SendStep s (record s { connected = false })

pub data SendSteps (s : Shared) : Shared → Type 0 where
  none_yet : SendSteps s s
  further : {t u : Shared} → SendSteps s t → SendStep t u → SendSteps s u
