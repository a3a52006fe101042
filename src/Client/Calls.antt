-- ===== src/Client/Calls.antt =====
-- Open, Close and Exit of LightningCastClient, each up to its return. While such a call waits, the class's own
-- thread runs; between the calls it waits for a command, or in the select of a session, which `is_open` tells.
pub mod Opened
use lightning_cast_endpoint.Base.{
  ℕ, Bool, true, false, List, none, some, Run, done, ◌>>=◌, ◌>>◌, if◌then◌else◌,
}
use lightning_cast_endpoint.Json.{JsonCpp}
use lightning_cast_endpoint.Util.EventFd.{write}
use lightning_cast_endpoint.Client.Commands.{ClientCmd, open_server, close_server, exit}
use lightning_cast_endpoint.Client.State.{Client, World, SnapPort, get_is_open}
use lightning_cast_endpoint.Client.Dispatch.{do_stop}
use lightning_cast_endpoint.Client.Session
use lightning_cast_endpoint.Client.Session.{Attempt, connect_server, serve, set_open, finish}

-- What the three write under the lock.
abbrev pub ask : ClientCmd → Client → Client
ask c client = record client { cmd = c; ready = true; ready_sync = false }

module _ {S : Type 0} where
  -- `ready = false` behind `cond.wait`.
  abbrev pub take_command : Run (World S) (Unit {0})
  take_command w = done (tt, record w { client = record w.client { ready = false } })

  -- `do_open` up to LockfinishCmd.
  unfoldable pub begin_open : Attempt → Run (World S) (Unit {0})
  begin_open a w =
      let (connected, c) = connect_server a w.client in
      (do set_open connected; finish) (record w { client = c })

module _ (json : JsonCpp) {S : Type 0} (port : SnapPort S) where
  -- The thread is woken in select and sees the command at the loop's test.
  abbrev pub leave_session : Run (World S) (Unit {0})
  leave_session = do
    stop ← serve json port false close_server
    set_open false
    do_stop port
    Session.close_server

  -- `Close`. With no session the thread is woken in `cond.wait`.
  unfoldable pub close_call : Run (World S) (Unit {0})
  close_call w =
      (do
        (elim w.server_fd as (λ _. Run (World S) (Unit {0})) [
          | none ↦ take_command
          | some fd ↦ leave_session
        ])
        finish
        take_command
        set_open false)
        (record w { client = record (ask close_server w.client) { wake_fd = write w.wake_fd } })

  -- The `if` at the beginning of `Open` and `Exit`.
  unfoldable pub close_if_open : Run (World S) (Unit {0})
  close_if_open w =
      (if get_is_open w.client then (do do_stop port; close_call) else (λ v. done (tt, v))) w

  -- `Open`; what the attempt to connect meets depends on the address.
  unfoldable pub open_call : (List ℕ → Attempt) → List ℕ → Run (World S) Bool
  open_call attempts ip = do
    close_if_open
    (λ w. done (
      tt,
      record w { client = record (ask open_server w.client) { is_open = false; server_ip = ip } },
    ))
    take_command
    begin_open (attempts ip)
    (λ w. done (w.is_open, w))

  -- `Exit`.
  unfoldable pub exit_call : Run (World S) (Unit {0})
  exit_call = do close_if_open; (λ w. done (tt, record w { client = ask exit w.client }))
