-- ===== src/Server/Loop.antt =====
-- LightningCastServer::handle: the select loop over the listener, `wake_fd` and the connections.
use lightning_cast_endpoint.Base.{
  Outcome, ℕ, zero, suc, ◌+◌, Bool, true, false, ◌&&◌, List, [], ◌∷◌, ◌++◌, Option, none, some, ltb,
  ◌==◌, if◌then◌else◌, Run, done, thrown, undefined, stuck, ◌>>◌,
}
use lightning_cast_endpoint.Json.{JsonCpp}
use lightning_cast_endpoint.Wire.Header.{cast_port}
use lightning_cast_endpoint.Wire.Receive.{ReadEvent}
use lightning_cast_endpoint.Util.EventFd.{EventFd, get, read, write}
use lightning_cast_endpoint.Util.FdSet.{fits_set, is_set, fd_set, fd_clear}
use lightning_cast_endpoint.Server.State.{Connection, Server, Binding, create_and_bind}
use lightning_cast_endpoint.Server.Handlers.{do_read}

-- The locals of `handle` and what stands behind the descriptors.
pub record Loop (L : Type 0) : Type 0 where
  pub cast_client : L
  pub wake_fd : EventFd
  pub listener : ℕ
  pub master : List ℕ
  pub fdmax : ℕ
  pub sockets : ℕ → Connection
  pub stop : Bool

-- Before the loop: the listener and `wake_fd` are in the set.
abbrev pub enter_loop : {L : Type 0} → L → EventFd → ℕ → (ℕ → Connection) → Loop L
enter_loop client wake_fd listener sockets = record {
  cast_client = client;
  wake_fd = wake_fd;
  listener = listener;
  master = fd_set (get wake_fd) (fd_set listener []);
  fdmax = if ltb (get wake_fd) listener then listener else get wake_fd;
  sockets = sockets;
  stop = false;
}

-- One return of select: whether it works, the descriptors that it reports, what accept returns if the
-- listener is among them (`none` for an error), and the bytes that come on each connection.
pub record Round : Type 0 where
  pub works : Bool
  pub ready : List ℕ
  pub accepts : Option (ℕ × Connection)
  pub arrives : ℕ → List ReadEvent

abbrev pub put : ℕ → Connection → (ℕ → Connection) → ℕ → Connection
put i c sockets j = if i == j then c else sockets j

module _ {L : Type 0} where
  abbrev pub arrive : Round → Loop L → Loop L
  arrive r s = record s {
    sockets = λ j. record (s.sockets j) { incoming = (s.sockets j).incoming ++ r.arrives j };
  }

  -- FD_SET of a descriptor that the set has no room for is undefined.
  unfoldable pub accept_client : Option (ℕ × Connection) → Run (Loop L) (Unit {0})
  accept_client none s = done (tt, s)
  accept_client (some (fd, connection)) s =
      if fits_set fd
      then done (
        tt,
        record s {
          master = fd_set fd s.master;
          fdmax = if ltb s.fdmax fd then fd else s.fdmax;
          sockets = put fd connection s.sockets;
        },
      )
      else undefined

-- `Exit`, in main's thread.
abbrev pub exit_server : {L : Type 0} → Loop L → Loop L
exit_server s = record s { wake_fd = write s.wake_fd }

module _ (json : JsonCpp) {L : Type 0} (client_open : List ℕ → Run L Bool) where
  -- A message of connection `i`; where it is refused the connection is closed.
  unfoldable pub serve : ℕ → Run (Loop L) (Unit {0})
  serve i s =
      let server : Server L = record {
        cast_client = s.cast_client;
        wake_fd = s.wake_fd;
        connection = s.sockets i;
      } in
      elim (do_read json client_open server) [
        | done (ok, t) ↦ done (
          tt,
          record s {
            cast_client = t.cast_client;
            sockets = put i t.connection s.sockets;
            master = if ok then s.master else fd_clear i s.master;
          },
        )
        | thrown ↦ thrown
        | undefined ↦ undefined
        | stuck ↦ stuck
      ]

  -- The body of the `for` loop.
  unfoldable pub visit : Round → ℕ → Run (Loop L) (Unit {0})
  visit r i s =
      if is_set i r.ready
      then (if i == s.listener
          then accept_client r.accepts s
          else if i == get s.wake_fd
          then done (tt, record s { wake_fd = (read s.wake_fd).1; stop = true })
          else serve i s)
      else done (tt, s)

  -- `n` turns of the `for` loop from `i` on. It `break`s where `stop` is set. The bound is that of the loop's
  -- start: a descriptor accepted during the loop is not among those that select reported.
  unfoldable pub visit_all : Round → ℕ → ℕ → Run (Loop L) (Unit {0})
  visit_all r zero i s = done (tt, s)
  visit_all r (suc n) i s =
      let more : Run (Loop L) (Unit {0}) = visit_all r n (suc i) in
      if s.stop then done (tt, s) else (do visit r i; more) s

  -- The `while` loop. If select fails the process ends.
  unfoldable pub handle : List Round → Run (Loop L) (Unit {0})
  handle [] s = stuck
  handle (r ∷ rounds) s =
      let more : Run (Loop L) (Unit {0}) = handle rounds in
      if s.stop
      then done (tt, s)
      else if r.works
      then (do visit_all r (s.fdmax + 1) 0; more) (arrive r s)
      else thrown

  -- All of `LightningCastServer::handle`: without a listener the process ends.
  unfoldable pub run_server :
      Binding → L → EventFd → (ℕ → Connection) → List Round → Outcome (Unit {0} × Loop L)
  run_server b client wake_fd sockets rounds = elim (create_and_bind cast_port b) [
    | none ↦ thrown
    | some listener ↦
        if fits_set listener && fits_set (get wake_fd)
        then handle rounds (enter_loop client wake_fd listener sockets)
        else undefined
  ]
