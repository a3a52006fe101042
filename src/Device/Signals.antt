-- ===== src/Device/Signals.antt =====
-- init_sig of LightningCastDeviceSample.cpp and the signals of main.
use lightning_cast_endpoint.Base.{ℕ, ◌||◌, ◌≡◌, ◌≢◌, List, arith, ◌==◌, if◌then◌else◌, codes}

-- What happens when a signal comes: the default action, or a function that prints a line on std::cerr and
-- returns, so that the call it broke into fails with EINTR (`sa_flags` is 0).
pub data Disposition : Type 0 where
  by_default : Disposition
  prints : List ℕ → Disposition

abbrev pub sigint : ℕ
sigint = 2

abbrev pub sigpipe : ℕ
sigpipe = 13

abbrev pub sigterm : ℕ
sigterm = 15

abbrev pub ignoring : List ℕ
ignoring = codes "Received SIGPIPE, ignoring..."

abbrev pub press_q : List ℕ
press_q = codes "Press q to shutting down..."

-- `sigaction`, which replaces the disposition of one signal.
abbrev pub sigaction : ℕ → Disposition → (ℕ → Disposition) → ℕ → Disposition
sigaction sig action table i = if i == sig then action else table i

unfoldable pub init_sig : ℕ → (ℕ → Disposition) → ℕ → Disposition
init_sig sig table =
    if sig == sigpipe
    then sigaction sig (prints ignoring) table
    else if sig == sigterm || sig == sigint
    then sigaction sig (prints press_q) table
    else table

-- The beginning of main.
unfoldable pub init_signals : (ℕ → Disposition) → ℕ → Disposition
init_signals table = init_sig sigint (init_sig sigterm (init_sig sigpipe table))

-- Behind its first three calls main has a handler for each of the three signals, whose default action would end
-- the process, and has left every other signal as it was.
pub init_signals_lem :
    (table : ℕ → Disposition) (i : ℕ)
    → (init_signals table sigpipe ≡ prints ignoring)
      × (init_signals table sigterm ≡ prints press_q)
      × (init_signals table sigint ≡ prints press_q)
      × (i ≢ sigpipe → i ≢ sigterm → i ≢ sigint → init_signals table i ≡ table i)
unfolding init_signals init_sig
init_signals_lem table i = ground arith
