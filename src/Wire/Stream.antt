-- ===== src/Wire/Stream.antt =====
-- `doRead` depends on the bytes that arrive, not on how they are split.
use lightning_cast_endpoint.Base.{
  ℕ, zero, suc, ◌-◌, ◌≤◌, ◌<◌, ◌≡◌, refl, sym, ◌∙◌, false, List, [], ◌∷◌, ◌++◌, append_assoc,
  append-nil, arith, length, take, drop, leb, Bool-cases, inl, inr, length-append, take-append_ge,
  drop-append_ge, take-append_le, drop-append_le,
}
use lightning_cast_endpoint.Wire.Receive.{
  ReadEvent, arrived, would_block, read_error, end_of_stream, unread, Reading, full, refused,
  waiting, read_full, stream, is_cut, Reads,
}

stream-unread :
    (bs : List ℕ) (events : List ReadEvent) → stream (unread bs events) ≡ bs ++ stream events
stream-unread [] events = refl
stream-unread (b ∷ bs) events = refl

is_cut-unread : (bs : List ℕ) (events : List ReadEvent) → is_cut (unread bs events) ≡ is_cut events
is_cut-unread [] events = refl
is_cut-unread (b ∷ bs) events = refl

-- A call that takes the whole run leaves the rest of the count for later calls.
Reads-arrived :
    (need : ℕ) (got : List ℕ) (b : ℕ) (bs : List ℕ) (events : List ReadEvent) (r : Reading)
    → length bs ≤ need
    → Reads (need - length bs) (got ++ b ∷ bs) events r
    → Reads (suc need) got (arrived b bs ∷ events) r
Reads-arrived need got b bs events (full text rest) h (enough, e, f, g) = (
  omega (arith, length-append bs (stream events)),
  rw (take-append_ge need bs (stream events) h)
      (e ∙ append_assoc got (b ∷ bs) (take (need - length bs) (stream events))),
  rw (drop-append_ge need bs (stream events) h) f,
  g,
)
Reads-arrived need got b bs events (refused rest) h (short, e) =
    (omega (arith, length-append bs (stream events)), e)
Reads-arrived need got b bs events waiting h (short, e) =
    (omega (arith, length-append bs (stream events)), e)

-- The loop of `doRead` takes exactly the bytes asked for, from the front of the stream, whatever the
-- sizes of the pieces and the waits between them; it returns false exactly if the stream is cut
-- short, and waits exactly if it is short and open.
pub read_full-Reads :
    (need : ℕ) (got : List ℕ) (events : List ReadEvent)
    → Reads need got events (read_full need got events)
unfolding read_full
read_full-Reads zero got events = (omega arith, sym (append-nil got), refl, refl)
read_full-Reads (suc need) got [] = (omega arith, refl)
read_full-Reads (suc need) got (would_block ∷ events) = read_full-Reads (suc need) got events
read_full-Reads (suc need) got (read_error ∷ events) = (omega arith, refl)
read_full-Reads (suc need) got (end_of_stream ∷ events) = (omega arith, refl)
read_full-Reads (suc need) got (arrived b bs ∷ events) = elim (Bool-cases (leb (length bs) need)) [
  | inl fits ↦ rw fits (
      Reads-arrived need got b bs events _ (ground arith)
        (read_full-Reads (need - length bs) (got ++ b ∷ bs) events))
  | inr over ↦ rw over (
    omega (arith, length-append bs (stream events), past over),
    rw (take-append_le need bs (stream events) (below over)) refl,
    stream-unread (drop need bs) events ∙ sym (drop-append_le need bs (stream events) (below over)),
    is_cut-unread (drop need bs) events,
  )
]
  where
    past : leb (length bs) need ≡ false → need < length bs
    past over = ground arith

    below : leb (length bs) need ≡ false → need ≤ length bs
    below over = ground arith
