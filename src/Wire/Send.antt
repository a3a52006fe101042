-- ===== src/Wire/Send.antt =====
-- The loop of `processSend` over ::write, the same in all three classes.
use lightning_cast_endpoint.Base.{
  ℕ, zero, suc, ◌-◌, ◌<◌, ◌≡◌, refl, sym, ap, ◌∙◌, List, [], ◌∷◌, ◌++◌, append_assoc, append-nil,
  arith, length, take, drop, take-append-drop, length-drop,
}

-- What a call of ::write returns: a count (at most what was asked for), EAGAIN, or another error.
pub data WriteResult : Type 0 where
  wrote : ℕ → WriteResult
  again failed : WriteResult

-- How the loop ends: everything is written, it `break`s, or it still waits for the socket.
pub data Ending : Type 0 where
  complete broken blocked : Ending

-- `out` is what the peer gets, `writes` what the socket will answer later calls.
pub record Sending : Type 0 where
  pub ending : Ending
  pub out : List ℕ
  pub writes : List WriteResult

-- `left` is the buffer from `ptr` on, so `bytes_left` is its length.
unfoldable pub write_loop : List ℕ → List ℕ → List WriteResult → Sending
write_loop out [] writes = record { ending = complete; out = out; writes = writes }
write_loop out (b ∷ left) [] = record { ending = blocked; out = out; writes = [] }
write_loop out (b ∷ left) (again ∷ writes) = write_loop out (b ∷ left) writes
write_loop out (b ∷ left) (failed ∷ writes) = record { ending = broken; out = out; writes = writes }
write_loop out (b ∷ left) (wrote zero ∷ writes) = record {
  ending = broken;
  out = out;
  writes = writes;
}
write_loop out (b ∷ left) (wrote (suc n) ∷ writes) =
    write_loop (out ++ b ∷ take n left) (drop n left) writes

-- What is never sent, given how the loop ends.
abbrev pub Leaves : Ending → List ℕ → Type 0
Leaves complete rest = rest ≡ []
Leaves broken rest = 0 < length rest
Leaves blocked rest = 0 < length rest

-- However the socket answers, the bytes that leave are a prefix of the buffer: nothing is missing
-- if the loop completes, and something is if it breaks off or waits.
pub write_loop-prefix :
    (out left : List ℕ) (writes : List WriteResult)
    → (rest : List ℕ) × ((write_loop out left writes).out ++ rest ≡ out ++ left)
      × Leaves (write_loop out left writes).ending rest
unfolding write_loop
write_loop-prefix out [] writes = ([], refl, refl)
write_loop-prefix out (b ∷ left) [] = (b ∷ left, refl, omega arith)
write_loop-prefix out (b ∷ left) (again ∷ writes) = write_loop-prefix out (b ∷ left) writes
write_loop-prefix out (b ∷ left) (failed ∷ writes) = (b ∷ left, refl, omega arith)
write_loop-prefix out (b ∷ left) (wrote zero ∷ writes) = (b ∷ left, refl, omega arith)
write_loop-prefix out (b ∷ left) (wrote (suc n) ∷ writes) =
    let (rest, e, l) = write_loop-prefix (out ++ b ∷ take n left) (drop n left) writes in
    (
      rest,
      e
          ∙ append_assoc out (b ∷ take n left) (drop n left)
          ∙ ap (λ t. out ++ b ∷ t) (take-append-drop n left),
      l,
    )

-- The bytes that these answers of the socket take, with no error among them.
abbrev pub Accepts : ℕ → List WriteResult → Type 0
Accepts zero writes = Unit {0}
Accepts (suc n) [] = ⊥
Accepts (suc n) (again ∷ writes) = Accepts (suc n) writes
Accepts (suc n) (failed ∷ writes) = ⊥
Accepts (suc n) (wrote zero ∷ writes) = ⊥
Accepts (suc n) (wrote (suc k) ∷ writes) = Accepts (n - k) writes

-- If the socket takes as many bytes as the buffer has, in pieces of any size and with any waits,
-- the loop completes and sends the whole buffer.
pub write_loop-complete :
    (out left : List ℕ) (writes : List WriteResult)
    → Accepts (length left) writes
    → ((write_loop out left writes).ending ≡ complete)
      × ((write_loop out left writes).out ≡ out ++ left)
unfolding write_loop
write_loop-complete out [] writes h = (refl, sym (append-nil out))
write_loop-complete out (b ∷ left) [] h = absurd h
write_loop-complete out (b ∷ left) (again ∷ writes) h = write_loop-complete out (b ∷ left) writes h
write_loop-complete out (b ∷ left) (failed ∷ writes) h = absurd h
write_loop-complete out (b ∷ left) (wrote zero ∷ writes) h = absurd h
write_loop-complete out (b ∷ left) (wrote (suc n) ∷ writes) h =
    let (e, f) =
      write_loop-complete (out ++ b ∷ take n left) (drop n left) writes
        (rw (length-drop n left) h) in
    (
      e,
      f
          ∙ append_assoc out (b ∷ take n left) (drop n left)
          ∙ ap (λ t. out ++ b ∷ t) (take-append-drop n left),
    )
