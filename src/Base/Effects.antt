-- ===== src/Base/Effects.antt =====
-- Code that changes a state, can throw, and can wait for its environment for ever.
use mathlib.Core.Path.{◌≡◌}

-- `thrown` ends the process, by an exception that nothing catches or by a call of exit; `undefined` is
-- behaviour that the language leaves open; `stuck` is a call that has not returned, since what the
-- environment is known to do ends before.
pub data Outcome {ℓ} (A : Type ℓ) : Type ℓ where
  done : A → Outcome A
  thrown undefined stuck : Outcome A

abbrev pub Run {ℓ} : Type 0 → Type ℓ → Type ℓ
Run S A = S → Outcome (A × S)

abbrev pub pure {ℓ} : {S : Type 0} {A : Type ℓ} → A → Run S A
pure a s = done (a, s)

infixl 5 ◌>>=◌ ◌>>◌
abbrev pub ◌>>=◌ {ℓ κ} : {S : Type 0} {A : Type ℓ} {B : Type κ} → Run S A → (A → Run S B) → Run S B
◌>>=◌ m f s = elim (m s) [
  | done (a, t) ↦ f a t
  | thrown ↦ thrown
  | undefined ↦ undefined
  | stuck ↦ stuck
]

abbrev pub ◌>>◌ {ℓ} : {S : Type 0} {B : Type ℓ} → Run S (Unit {0}) → Run S B → Run S B
m >> k = m >>= λ _. k

-- Inversion of a call that returns.
pub >>=-eq-done {ℓ κ} :
    {S : Type 0} {A : Type ℓ} {B : Type κ} (m : Run S A) (f : A → Run S B) (s : S) {r : B × S}
    → (m >>= f) s ≡ done r
    → (a : A) × (t : S) × (m s ≡ done (a, t)) × (f a t ≡ done r)
>>=-eq-done {S} {A} {B} m f s {r} = go (m s)
  where
    go :
        (o : Outcome (A × S))
        → (elim o as (λ _. Outcome (B × S)) [
          | done (a, t) ↦ f a t
          | thrown ↦ thrown
          | undefined ↦ undefined
          | stuck ↦ stuck
        ])
          ≡ done r
        → (a : A) × (t : S) × (o ≡ done (a, t)) × (f a t ≡ done r)
    go (done (a, t)) h = (a, t, (λ _. done (a, t)), h)
    go thrown h = cc
    go undefined h = cc
    go stuck h = cc

-- A call that returns, and what follows it.
pub >>=-of_done {ℓ κ} :
    {S : Type 0} {A : Type ℓ} {B : Type κ} (m : Run S A) (f : A → Run S B) (s : S) {a : A} {t : S}
    → m s ≡ done (a, t)
    → (m >>= f) s ≡ f a t
>>=-of_done m f s h = rw (h, ◌>>=◌)
