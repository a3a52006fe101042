-- ===== src/Wire/Receive.antt =====
-- The two loops of `doRead` over ::read, the same in all three classes.
use lightning_cast_endpoint.Base.{
  ℕ, zero, suc, ◌-◌, ◌≤◌, ◌<◌, ◌≡◌, Bool, true, false, List, [], ◌∷◌, ◌++◌, length, take, drop, leb,
  ◌==◌, if◌then◌else◌,
}
use lightning_cast_endpoint.Wire.Header.{header_key, header_size, load_header}

-- What the socket has for later calls of ::read: bytes that arrived together, of which a call takes
-- as many as it asked for; EAGAIN; another error; or 0, the end of the stream.
pub data ReadEvent : Type 0 where
  arrived : ℕ → List ℕ → ReadEvent
  would_block read_error end_of_stream : ReadEvent

-- What one call leaves of a run of bytes.
abbrev pub unread : List ℕ → List ReadEvent → List ReadEvent
unread [] events = events
unread (b ∷ bs) events = arrived b bs ∷ events

-- All bytes are there; the function returns false; or it still asks for more.
pub data Reading : Type 0 where
  full : List ℕ → List ReadEvent → Reading
  refused : List ReadEvent → Reading
  waiting : Reading

-- `need` bytes are missing, `got` is the buffer so far. A call asks for `need` bytes.
unfoldable pub read_full : ℕ → List ℕ → List ReadEvent → Reading
read_full zero got events = full got events
read_full (suc need) got [] = waiting
read_full (suc need) got (would_block ∷ events) = read_full (suc need) got events
read_full (suc need) got (read_error ∷ events) = refused events
read_full (suc need) got (end_of_stream ∷ events) = refused events
read_full (suc need) got (arrived b bs ∷ events) =
    let later = read_full (need - length bs) (got ++ b ∷ bs) events in
    if leb (length bs) need
    then later
    else full (got ++ b ∷ take need bs) (unread (drop need bs) events)

-- How `doRead` ends before `doParse`: with the payload, with `return false`, or not yet.
pub data Received : Type 0 where
  payload : List ℕ → List ReadEvent → Received
  rejected : List ReadEvent → Received
  incomplete : Received

abbrev pub read_payload : ℕ → List ReadEvent → Received
read_payload size events = elim (read_full size [] events) [
  | full text rest ↦ payload text rest
  | refused rest ↦ rejected rest
  | waiting ↦ incomplete
]

-- Behind the header: the key is tested, then the text is read.
abbrev pub read_rest : List ℕ → List ReadEvent → Received
read_rest head events =
    if (load_header head).key == header_key
    then read_payload (load_header head).data_size events
    else rejected events

unfoldable pub read_frame : List ReadEvent → Received
read_frame events = elim (read_full header_size [] events) [
  | full head rest ↦ read_rest head rest
  | refused rest ↦ rejected rest
  | waiting ↦ incomplete
]

-- The bytes that come before an error or the end of the stream, however they are split.
abbrev pub stream : List ReadEvent → List ℕ
stream [] = []
stream (arrived b bs ∷ events) = b ∷ bs ++ stream events
stream (would_block ∷ events) = stream events
stream (read_error ∷ events) = []
stream (end_of_stream ∷ events) = []

-- Whether the bytes end in an error or an end of the stream.
abbrev pub is_cut : List ReadEvent → Bool
is_cut [] = false
is_cut (arrived b bs ∷ events) = is_cut events
is_cut (would_block ∷ events) = is_cut events
is_cut (read_error ∷ events) = true
is_cut (end_of_stream ∷ events) = true

-- What reading `need` bytes is to do, by the bytes of the stream alone.
abbrev pub Reads : ℕ → List ℕ → List ReadEvent → Reading → Type 0
Reads need got events (full text rest) =
    (need ≤ length (stream events))
    × (text ≡ got ++ take need (stream events))
    × (stream rest ≡ drop need (stream events))
    × (is_cut rest ≡ is_cut events)
Reads need got events (refused rest) = (length (stream events) < need) × (is_cut events ≡ true)
Reads need got events waiting = (length (stream events) < need) × (is_cut events ≡ false)
