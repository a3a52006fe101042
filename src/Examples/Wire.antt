-- ===== src/Examples/Wire.antt =====
-- Framing and time, at concrete inputs.
use lightning_cast_endpoint.Base.{ℕ, ◌≡◌, refl, false, List, [], ◌∷◌, arith}
use lightning_cast_endpoint.Wire.Header.{frame, load_header, store_header}
use lightning_cast_endpoint.Wire.Receive.{
  ReadEvent, arrived, would_block, read_frame, read_full, payload, stream,
}
use lightning_cast_endpoint.Wire.RoundTrip.{
  verdict, accept, take_message, read_frame-take_message, read_frame-frame,
}

-- "hi" in one frame, in three pieces, with the first byte of the next frame behind it.
abbrev pieces : List ReadEvent
pieces =
    arrived 0 (0 ∷ 152 ∷ [])
    ∷ would_block
    ∷ arrived 118 (0 ∷ 0 ∷ 0 ∷ 2 ∷ 104 ∷ [])
    ∷ arrived 105 (0 ∷ [])
    ∷ []

abbrev hi : List ℕ
hi = 104 ∷ 105 ∷ []

frame-hi : frame hi ≡ 0 ∷ 0 ∷ 152 ∷ 118 ∷ 0 ∷ 0 ∷ 0 ∷ 2 ∷ 104 ∷ 105 ∷ []
unfolding frame store_header
frame-hi = refl

read_frame-pieces : read_frame pieces ≡ payload hi (arrived 0 [] ∷ [])
unfolding read_frame read_full load_header
read_frame-pieces = refl

read_frame-frame_example : verdict (read_frame pieces) ≡ accept hi (0 ∷ [])
unfolding frame store_header
read_frame-frame_example = read_frame-frame hi (0 ∷ []) pieces (omega arith) refl

read_frame-take_message_example : verdict (read_frame pieces) ≡ take_message (stream pieces) false
read_frame-take_message_example = read_frame-take_message pieces

-- A stranger that speaks another protocol.
abbrev stranger : List ReadEvent
stranger = arrived 71 (69 ∷ 84 ∷ 32 ∷ []) ∷ arrived 47 (32 ∷ 72 ∷ 84 ∷ 84 ∷ []) ∷ []
