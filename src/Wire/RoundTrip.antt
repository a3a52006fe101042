-- ===== src/Wire/RoundTrip.antt =====
-- `doRead` against a reading of the plain byte stream, and against `processSend`.
use lightning_cast_endpoint.Base.{
  ℕ, zero, suc, ◌<◌, ◌^◌, ◌≡◌, refl, sym, ◌∙◌, Bool, true, false, List, [], ◌∷◌, ◌++◌, append_assoc,
  ◌≢◌, arith, length, take, drop, ltb, ◌==◌, if◌then◌else◌, Option, none, some, Bool-cases, inl,
  inr, length-append, take-append_exact, drop-append_exact, lt→ltb,
}
use mathlib.Core.Option
use lightning_cast_endpoint.Wire.Header.{
  header_key, header_size, load_header, store_header, frame, length-store_header,
  load_header-store_header,
}
use lightning_cast_endpoint.Wire.Receive.{
  ReadEvent, Reading, full, refused, waiting, read_full, read_rest, Received, payload, rejected,
  incomplete, read_payload, read_frame, stream, is_cut, Reads,
}
use lightning_cast_endpoint.Wire.Stream.{read_full-Reads}

-- What a reader of the stream sees: a text and the bytes behind it, a refusal, or nothing yet.
pub data Verdict : Type 0 where
  accept : List ℕ → List ℕ → Verdict
  reject more : Verdict

abbrev pub short : Bool → Verdict
short true = reject
short false = more

-- The protocol on plain bytes: a header of eight bytes with the right key, then the text it announces.
abbrev pub take_text : ℕ → List ℕ → Bool → Verdict
take_text size bytes cut =
    if ltb (length bytes) size then short cut else accept (take size bytes) (drop size bytes)

abbrev pub take_message : List ℕ → Bool → Verdict
take_message bytes cut =
    if ltb (length bytes) header_size
    then short cut
    else if (load_header (take header_size bytes)).key == header_key
    then take_text (load_header (take header_size bytes)).data_size (drop header_size bytes) cut
    else reject

abbrev pub verdict : Received → Verdict
verdict (payload text rest) = accept text (stream rest)
verdict (rejected rest) = reject
verdict incomplete = more

read_payload-take_text :
    (size : ℕ) (events : List ReadEvent) (r : Reading)
    → read_full size [] events ≡ r
    → Reads size [] events r
    → verdict (read_payload size events) ≡ take_text size (stream events) (is_cut events)
read_payload-take_text size events (full text rest) e h = ground arith
read_payload-take_text size events (refused rest) e h = ground arith
read_payload-take_text size events waiting e h = ground arith

read_rest-verdict :
    (head : List ℕ) (events : List ReadEvent)
    → verdict (read_rest head events) ≡ (
        if (load_header head).key == header_key
        then take_text (load_header head).data_size (stream events) (is_cut events)
        else reject)
read_rest-verdict head events = elim (Bool-cases ((load_header head).key == header_key)) [
  | inl same ↦ rw same (
      read_payload-take_text (load_header head).data_size events _ refl
        (read_full-Reads (load_header head).data_size [] events))
  | inr other ↦ rw other
]

read_frame-take_message_cases :
    (events : List ReadEvent) (r : Reading)
    → read_full header_size [] events ≡ r
    → Reads header_size [] events r
    → verdict (read_frame events) ≡ take_message (stream events) (is_cut events)
unfolding read_frame
read_frame-take_message_cases events (full head rest) e (enough, t, s, c) =
    let long : ltb (length (stream events)) header_size ≡ false = ground arith in
    rw (e, read_frame, long, read_rest-verdict head rest, t, s, c)
read_frame-take_message_cases events (refused rest) e (few, cut) =
    rw (e, read_frame, lt→ltb _ _ few, cut)
read_frame-take_message_cases events waiting e (few, open_end) =
    rw (e, read_frame, lt→ltb _ _ few, open_end)

-- `doRead` reads the protocol off the plain byte stream: its result is the same however the bytes are
-- split into reads and whatever waits come between.
pub read_frame-take_message :
    (events : List ReadEvent)
    → verdict (read_frame events) ≡ take_message (stream events) (is_cut events)
read_frame-take_message events =
    read_frame-take_message_cases events _ refl (read_full-Reads header_size [] events)

take_message-split :
    (head text rest : List ℕ) (cut : Bool)
    → length head ≡ header_size
    → load_header head ≡ record { key = header_key; data_size = length text }
    → take_message (head ++ (text ++ rest)) cut ≡ accept text rest
take_message-split head text rest cut long same =
    let first : ltb (length (head ++ (text ++ rest))) header_size ≡ false =
      ground (arith, length-append head (text ++ rest)) in
    let second : ltb (length (text ++ rest)) (length text) ≡ false =
      ground (arith, length-append text rest) in
    rw (
      first,
      take-append_exact header_size head (text ++ rest) (sym long),
      drop-append_exact header_size head (text ++ rest) (sym long),
      same,
      second,
      take-append_exact (length text) text rest refl,
      drop-append_exact (length text) text rest refl,
    )

-- A framed text in front of other bytes is read back whole, and the other bytes are left.
pub take_message-frame :
    (text rest : List ℕ) (cut : Bool)
    → length text < 2 ^ 32
    → take_message (frame text ++ rest) cut ≡ accept text rest
unfolding frame
take_message-frame text rest cut h = rw (append_assoc (store_header (length text)) text rest) (
    take_message-split (store_header (length text)) text rest cut
      (length-store_header (length text)) (load_header-store_header (length text) h))

-- What `processSend` frames, `doRead` reads back: for a text shorter than 2^32 bytes, if the frame
-- arrives in pieces of any sizes, with any waits, and other bytes follow it, the result is
-- that text, and just the other bytes are left for the next call.
pub read_frame-frame :
    (text rest : List ℕ) (events : List ReadEvent)
    → length text < 2 ^ 32
    → stream events ≡ frame text ++ rest
    → verdict (read_frame events) ≡ accept text rest
read_frame-frame text rest events h e =
    rw (read_frame-take_message events, e) (take_message-frame text rest (is_cut events) h)

-- A header with another key is refused, whatever size it announces and whatever follows.
pub read_frame_wrong_key :
    (head rest : List ℕ) (events : List ReadEvent)
    → length head ≡ header_size
    → (load_header head).key ≢ header_key
    → stream events ≡ head ++ rest
    → verdict (read_frame events) ≡ reject
read_frame_wrong_key head rest events long other e =
    let first : ltb (length (head ++ rest)) header_size ≡ false =
      ground (arith, length-append head rest) in
    let miss : ((load_header head).key == header_key) ≡ false = ground arith in
    rw (
      read_frame-take_message events,
      e,
      first,
      take-append_exact header_size head rest (sym long),
      miss,
    )

-- `doRead` called `n` times on what the earlier calls left; `none` where one gives no text.
unfoldable pub read_frames : ℕ → List ReadEvent → Option (List (List ℕ))
read_frames zero events = some []
read_frames (suc n) events = elim (read_frame events) [
  | payload text rest ↦ Option.map (λ texts. text ∷ texts) (read_frames n rest)
  | rejected rest ↦ none
  | incomplete ↦ none
]

-- The frames of several texts, one behind the other.
abbrev pub frames : List (List ℕ) → List ℕ
frames [] = []
frames (text ∷ texts) = frame text ++ frames texts

abbrev pub AllShort : List (List ℕ) → Type 0
AllShort [] = Unit {0}
AllShort (text ∷ texts) = (length text < 2 ^ 32) × AllShort texts

-- The boundaries of messages survive: texts shorter than 2^32 bytes, framed one behind the other,
-- come back as the same texts, however the bytes are split and whatever follows.
pub read_frames-frames :
    (texts : List (List ℕ)) (rest : List ℕ) (events : List ReadEvent)
    → AllShort texts
    → stream events ≡ frames texts ++ rest
    → read_frames (length texts) events ≡ some texts
unfolding read_frames
read_frames-frames [] rest events h e = refl
read_frames-frames (text ∷ texts) rest events (h, hs) e =
    after (read_frame events) refl
      (read_frame-frame text (frames texts ++ rest) events h
        (e ∙ append_assoc (frame text) (frames texts) rest))
      (λ left. read_frames-frames texts rest left hs)
  where
    after :
        (r : Received)
        → read_frame events ≡ r
        → verdict r ≡ accept text (frames texts ++ rest)
        → ((left : List ReadEvent)
            → stream left ≡ frames texts ++ rest
            → read_frames (length texts) left ≡ some texts)
        → read_frames (suc (length texts)) events ≡ some (text ∷ texts)
    after (payload t left) read v ih =
        let same : t ≡ text = cc in
        let left_over : stream left ≡ frames texts ++ rest = cc in
        rw (read, read_frames, ih left left_over, same)
    after (rejected left) read v ih = cc
    after incomplete read v ih = cc

-- A call that accepts returns the text itself.
pub verdict-accept :
    (r : Received) {text rest : List ℕ}
    → verdict r ≡ accept text rest
    → (left : List ReadEvent) × (r ≡ payload text left) × (stream left ≡ rest)
verdict-accept (payload t left) h = (left, cc, cc)
verdict-accept (rejected left) h = cc
verdict-accept incomplete h = cc
