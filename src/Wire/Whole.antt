-- ===== src/Wire/Whole.antt =====
-- What several threads that send at a time put on the wire.
use lightning_cast_endpoint.Base.{
  ℕ, ◌<◌, ◌≡◌, refl, sym, ap, ◌∙◌, Bool, true, false, List, [], ◌∷◌, ◌++◌, append_assoc, append-nil,
  some, arith, length, length-append, take, drop, take-append-drop,
}
use lightning_cast_endpoint.Wire.Header.{frame}
use lightning_cast_endpoint.Wire.Receive.{ReadEvent, stream}
use lightning_cast_endpoint.Wire.RoundTrip.{read_frames, frames, AllShort, read_frames-frames}
use lightning_cast_endpoint.Wire.Shared.{
  Lock, unlocked, held, Shared, begin, release, SendStep, SendSteps, none_yet, further,
}
use lightning_cast_endpoint.Wire.Ordered.{of_thread, SendSteps-Ordered}

abbrev pub texts : List (ℕ × List ℕ) → List (List ℕ)
texts [] = []
texts ((i, text) ∷ calls) = text ∷ texts calls

abbrev unwritten : Lock → List ℕ
unwritten unlocked = []
unwritten (held i left) = left

-- The calls behind the intact ones, by `cut` and the lock: none, the one that is under way, or one at least
-- that has broken off.
abbrev pub Unfinished : Bool → Lock → List (ℕ × List ℕ) → Type 0
Unfinished false unlocked later = later ≡ []
Unfinished false (held i left) later = (text : List ℕ) × (later ≡ (i, text) ∷ [])
Unfinished true lock later = 0 < length later

frames-texts_snoc :
    (calls : List (ℕ × List ℕ)) (i : ℕ) (text : List ℕ)
    → frames (texts (calls ++ (i, text) ∷ [])) ≡ frames (texts calls) ++ frame text
frames-texts_snoc [] i text = append-nil (frame text)
frames-texts_snoc ((j, t) ∷ calls) i text =
    ap (λ bs. frame t ++ bs) (frames-texts_snoc calls i text)
    ∙ sym (append_assoc (frame t) (frames (texts calls)) (frame text))

-- Nothing but whole frames and what the holder of the lock has written so far, until a call breaks off; then the
-- frames of the intact calls are still the first.
record Whole (s : Shared) : Type 0 where
  framed : s.cut ≡ false → s.out ++ unwritten s.lock ≡ frames (texts s.sent)
  begun : (more : List ℕ) × (s.out ≡ frames (texts s.intact) ++ more)
  behind :
      (later : List (ℕ × List ℕ)) × (s.intact ++ later ≡ s.sent) × Unfinished s.cut s.lock later

-- With the lock free, all frames are out.
all_written :
    {s : Shared} → Whole s → s.lock ≡ unlocked → s.cut ≡ false → s.out ≡ frames (texts s.sent)
all_written {s} h free c =
    sym (append-nil s.out) ∙ ap (λ l. s.out ++ unwritten l) (sym free) ∙ h.framed c

Unfinished-locks :
    (cut : Bool) (i : ℕ) (text left : List ℕ) (later : List (ℕ × List ℕ))
    → Unfinished cut unlocked later
    → Unfinished cut (held i left) (later ++ (i, text) ∷ [])
Unfinished-locks false i text left later none_left = (text, ap (λ l. l ++ (i, text) ∷ []) none_left)
Unfinished-locks true i text left later some_left =
    omega (arith, length-append later ((i, text) ∷ []))

Unfinished-writes :
    (cut : Bool) (i : ℕ) (left rest : List ℕ) (later : List (ℕ × List ℕ))
    → Unfinished cut (held i left) later
    → Unfinished cut (held i rest) later
Unfinished-writes false i left rest later h = h
Unfinished-writes true i left rest later h = h

Unfinished-breaks :
    (cut : Bool) (i : ℕ) (left : List ℕ) (later : List (ℕ × List ℕ))
    → Unfinished cut (held i left) later
    → Unfinished true unlocked later
Unfinished-breaks false i left later (text, one) = rw one (omega arith)
Unfinished-breaks true i left later h = h

-- The lock is released behind the loop.
release-Whole :
    {s : Shared} (i : ℕ) (cut : Bool)
    → s.cut ≡ cut
    → s.lock ≡ held i []
    → Whole s
    → Whole (release s)
release-Whole {s} i true same holds h = record {
  framed = λ c. cc;
  begun = rw same h.begun;
  behind =
      let (later, e, u) = h.behind in
      (later, rw same e, rw same (Unfinished-breaks s.cut i [] later (rw (sym holds) u)));
}
release-Whole {s} i false same holds h =
    let all = sym (append-nil s.out) ∙ ap (λ l. s.out ++ unwritten l) (sym holds) ∙ h.framed same in
    record {
      framed = λ c. ap (λ l. s.out ++ unwritten l) (sym holds) ∙ h.framed c;
      begun = ([], rw same (all ∙ sym (append-nil (frames (texts s.sent)))));
      behind = ([], rw same (append-nil s.sent), rw same refl);
    }

SendStep-Whole : {s t : Shared} → SendStep s t → Whole s → Whole t
SendStep-Whole {s} (SendStep.locks i text more free on next) h = record {
  framed = λ c.
      ap (λ bs. bs ++ frame text) (all_written h free c) ∙ sym (frames-texts_snoc s.sent i text);
  begun = h.begun;
  behind =
      let (later, e, u) = h.behind in
      (
        later ++ (i, text) ∷ [],
        sym (append_assoc s.intact later ((i, text) ∷ []))
            ∙ ap (λ calls. calls ++ (i, text) ∷ []) e,
        Unfinished-locks s.cut i text (frame text) later (rw (sym free) u),
      );
}
SendStep-Whole (SendStep.finds_closed i text more free off next) h = record {
  framed = h.framed;
  begun = h.begun;
  behind = h.behind;
}
SendStep-Whole {s} (SendStep.writes i n b left holds) h = record {
  framed = λ c.
      append_assoc s.out (b ∷ take n left) (drop n left)
      ∙ ap (λ bs. s.out ++ b ∷ bs) (take-append-drop n left)
      ∙ ap (λ l. s.out ++ unwritten l) (sym holds)
      ∙ h.framed c;
  begun =
      let (more, e) = h.begun in
      (
        more ++ b ∷ take n left,
        ap (λ bs. bs ++ b ∷ take n left) e
            ∙ append_assoc (frames (texts s.intact)) more (b ∷ take n left),
      );
  behind =
      let (later, e, u) = h.behind in
      (later, e, Unfinished-writes s.cut i (b ∷ left) (drop n left) later (rw (sym holds) u));
}
SendStep-Whole (SendStep.tries_again i b left holds) h = h
SendStep-Whole {s} (SendStep.breaks i b left holds) h = record {
  framed = λ c. cc;
  begun = h.begun;
  behind =
      let (later, e, u) = h.behind in
      (later, e, Unfinished-breaks s.cut i (b ∷ left) later (rw (sym holds) u));
}
SendStep-Whole {s} (SendStep.returns i holds) h = release-Whole i s.cut refl holds h
SendStep-Whole (SendStep.closes free) h = record {
  framed = h.framed;
  begun = h.begun;
  behind = h.behind;
}

SendSteps-Whole : (program : ℕ → List (List ℕ)) {s : Shared} → SendSteps (begin program) s → Whole s
SendSteps-Whole program none_yet = record {
  framed = λ c. refl;
  begun = ([], refl);
  behind = ([], refl, refl);
}
SendSteps-Whole program (further path m) = SendStep-Whole m (SendSteps-Whole program path)

-- `server_mutex` keeps the messages whole: any number of threads call `processSend` on one connection, each its texts
-- in its order, and their calls of ::write, which take any number of bytes, come in any order that the lock allows. In
-- every reachable state a peer that calls `doRead` once for each intact call, on the bytes that are out, split in any
-- way, gets just the texts of these calls, in the order in which they took the lock, if all are shorter than 2^32
-- bytes. As long as no call has broken off, all calls are intact but the one that holds the lock; afterwards those
-- that returned before. And the texts of each thread are the first of those that it sends, in its order.
pub shared_reads :
    (program : ℕ → List (List ℕ)) {s : Shared} (events : List ReadEvent)
    → SendSteps (begin program) s
    → AllShort (texts s.intact)
    → stream events ≡ s.out
    → (read_frames (length (texts s.intact)) events ≡ some (texts s.intact))
      × ((later : List (ℕ × List ℕ)) × (s.intact ++ later ≡ s.sent) × Unfinished s.cut s.lock later)
      × ((i : ℕ) → (rest : List (List ℕ)) × (of_thread i s.sent ++ rest ≡ program i))
shared_reads program {s} events path short e =
    let h = SendSteps-Whole program path in
    let (more, begins) = h.begun in
    (
      read_frames-frames (texts s.intact) more events short (e ∙ begins),
      h.behind,
      λ i. let (rest, f, same) = SendSteps-Ordered program path i in (rest, f),
    )
