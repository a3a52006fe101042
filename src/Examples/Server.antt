-- ===== src/Examples/Server.antt =====
-- The server, at concrete inputs.
use lightning_cast_endpoint.Base.{
  ◌≢◌, arith, ℕ, ◌≡◌, refl, true, false, Bool, List, [], ◌∷◌, none, some, Run, done, pos,
}
use lightning_cast_endpoint.Wire.Header.{load_header}
use lightning_cast_endpoint.Wire.Send.{wrote}
use lightning_cast_endpoint.Wire.Receive.{arrived, read_frame, read_full}
use lightning_cast_endpoint.Util.EventFd.{read}
use lightning_cast_endpoint.Server.State.{
  Binding, create_and_bind, Connection, Server, handshake_command,
}
use lightning_cast_endpoint.Server.Handlers.{do_parse, do_read, handle_command}
use lightning_cast_endpoint.Util.FdSet.{is_set, fd_clear}
use lightning_cast_endpoint.Server.Loop.{
  run_server, Loop, Round, enter_loop, arrive, exit_server, handle, visit, visit_all, serve,
  accept_client,
}
use lightning_cast_endpoint.Server.Descriptors.{Sound, enter_loop-Sound, run_server-Sound}
use lightning_cast_endpoint.Server.Reported.{Reported}
use lightning_cast_endpoint.Server.Refusal.{foreign, other_command, serve_refuses}
use lightning_cast_endpoint.Server.Exit.{woken, handle_exit}
use lightning_cast_endpoint.Examples.Data.{plain_json, wake}

-- A client whose state is the address that it last opened; it reaches every address.
abbrev reach : List ℕ → Run (List ℕ) Bool
reach address _ = done (true, address)

abbrev silent : Connection
silent = record { out = []; writes = wrote 100 ∷ []; incoming = [] }

abbrev server : Server (List ℕ)
server = record { cast_client = []; wake_fd = wake; connection = silent }

-- A connection on descriptor 6 is accepted, asks for something else, and is closed; then `Exit`.
abbrev entry : Loop (List ℕ)
entry = enter_loop [] wake 5 (λ j. silent)

abbrev greets : Round
greets = record { works = true; ready = 5 ∷ []; accepts = some (6, silent); arrives = λ j. [] }

abbrev asks : Round
asks = record {
  works = true;
  ready = 6 ∷ [];
  accepts = none;
  arrives = λ j. arrived 0 (0 ∷ 152 ∷ 118 ∷ 0 ∷ 0 ∷ 0 ∷ 1 ∷ 2 ∷ []) ∷ [];
}

abbrev stops : Round
stops = record { works = true; ready = 3 ∷ []; accepts = none; arrives = λ j. [] }

abbrev rounds : List Round
rounds = greets ∷ asks ∷ stops ∷ stops ∷ []

abbrev bound : Binding
bound = record { socket = some 5; set_option = true; binds = true; listens = true }

-- What the loop leaves.
abbrev left : Loop (List ℕ)
left = elim (run_server plain_json reach bound [] wake (λ j. silent) rounds) [
  | done (u, t) ↦ t
  | _ ↦ entry
]

run_server-Sound_example : Sound left × (left.stop ≡ true) × Reported 3 rounds
unfolding run_server create_and_bind handle visit_all visit serve accept_client is_set fd_clear
    do_read read_frame read_full load_header do_parse handle_command handshake_command read
run_server-Sound_example =
    run_server-Sound plain_json reach bound [] wake (λ j. silent) rounds left tt refl

-- `Exit` before anyone has called.
handle_exit_example :
    handle plain_json reach (stops ∷ stops ∷ []) (exit_server entry)
    ≡ done (tt, woken plain_json reach (arrive stops (exit_server entry)))
handle_exit_example =
    handle_exit plain_json reach stops stops [] entry
      (enter_loop-Sound [] wake 5 (λ j. silent) refl refl) refl (omega arith) refl refl

-- A close message, in two pieces.
abbrev closing : Loop (List ℕ)
closing = record entry {
  master = 6 ∷ entry.master;
  sockets = λ j. record silent {
    incoming = arrived 0 (0 ∷ 152 ∷ 118 ∷ []) ∷ arrived 0 (0 ∷ 0 ∷ 1 ∷ 2 ∷ []) ∷ [];
  };
}

serve_refuses_example :
    (t : Loop (List ℕ)) × (serve plain_json reach 6 closing ≡ done (tt, t))
    × (is_set 6 t.master ≡ false)
    × ((j : ℕ) → j ≢ 6 → is_set j t.master ≡ is_set j closing.master)
    × ((t.sockets 6).out ≡ [])
    × (t.cast_client ≡ [])
    × (t.stop ≡ false)
unfolding load_header
serve_refuses_example =
    serve_refuses plain_json reach 6 closing
      (foreign (2 ∷ []) [] refl (other_command (2 ∷ []) (pos 2) refl refl (λ e. cc)))
