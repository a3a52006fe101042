-- ===== src/Wire/Ordered.antt =====
-- Threads that send on one socket: the calls of each thread come in its order.
use lightning_cast_endpoint.Base.{
  ℕ, ◌≡◌, ◌≢◌, refl, true, List, [], ◌∷◌, ◌++◌, arith, ◌==◌, if◌then◌else◌, ℕ_discrete,
}
use lightning_cast_endpoint.Wire.Shared.{
  Shared, begin, with_todo, SendStep, SendSteps, none_yet, further,
}

abbrev pub of_thread : ℕ → List (ℕ × List ℕ) → List (List ℕ)
of_thread i [] = []
of_thread i ((j, text) ∷ calls) =
    let later = of_thread i calls in if i == j then text ∷ later else later

of_thread_same :
    (i : ℕ) (calls : List (ℕ × List ℕ)) (text : List ℕ) (more : List (List ℕ))
    → of_thread i (calls ++ (i, text) ∷ []) ++ more ≡ of_thread i calls ++ text ∷ more
of_thread_same i [] text more = ground arith
of_thread_same i ((j, t) ∷ calls) text more = ground (arith, of_thread_same i calls text more)

of_thread_other :
    (i j : ℕ) (calls : List (ℕ × List ℕ)) (text : List ℕ)
    → i ≢ j
    → of_thread i (calls ++ (j, text) ∷ []) ≡ of_thread i calls
of_thread_other i j [] text apart = ground arith
of_thread_other i j ((k, t) ∷ calls) text apart =
    ground (arith, of_thread_other i j calls text apart)

-- The calls of a thread that have found the socket are the first of those that it makes.
abbrev pub Ordered : (ℕ → List (List ℕ)) → Shared → Type 0
Ordered program s =
    (i : ℕ)
    → (rest : List (List ℕ)) × (of_thread i s.sent ++ rest ≡ program i)
      × (s.connected ≡ true → rest ≡ s.todo i)

-- A call that takes the lock is the next one of its thread.
ordered_locks :
    (program todo : ℕ → List (List ℕ)) (calls : List (ℕ × List ℕ)) (i j : ℕ) (text : List ℕ)
    (more rest : List (List ℕ))
    → todo i ≡ text ∷ more
    → of_thread j calls ++ rest ≡ program j
    → rest ≡ todo j
    → of_thread j (calls ++ (i, text) ∷ []) ++ with_todo i more todo j ≡ program j
ordered_locks program todo calls i j text more rest next e same = elim (ℕ_discrete j i) [
  | yes there ↦ ground (arith, there, of_thread_same i calls text more)
  | no apart ↦ ground (arith, of_thread_other j i calls text apart)
]

SendStep-Ordered :
    (program : ℕ → List (List ℕ)) {s t : Shared}
    → SendStep s t
    → Ordered program s
    → Ordered program t
SendStep-Ordered program {s} (SendStep.locks i text more free on next) h = λ j.
    let (rest, e, same) = h j in
    (
      with_todo i more s.todo j,
      ordered_locks program s.todo s.sent i j text more rest next e (same on),
      λ on. refl,
    )
SendStep-Ordered program (SendStep.finds_closed i text more free off next) h =
    λ j. let (rest, e, same) = h j in (rest, e, λ on. ground arith)
SendStep-Ordered program (SendStep.writes i n b left holds) h = h
SendStep-Ordered program (SendStep.tries_again i b left holds) h = h
SendStep-Ordered program (SendStep.breaks i b left holds) h = h
SendStep-Ordered program (SendStep.returns i holds) h = h
SendStep-Ordered program (SendStep.closes free) h =
    λ j. let (rest, e, same) = h j in (rest, e, λ on. ground arith)

pub SendSteps-Ordered :
    (program : ℕ → List (List ℕ)) {s : Shared} → SendSteps (begin program) s → Ordered program s
SendSteps-Ordered program none_yet = λ i. (program i, refl, λ on. refl)
SendSteps-Ordered program (further path m) =
    SendStep-Ordered program m (SendSteps-Ordered program path)
