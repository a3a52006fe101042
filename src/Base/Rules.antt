-- ===== src/Base/Rules.antt =====
-- A rule for each construct of a call that keeps a property of its state whenever it returns.
use mathlib.Core.Path.{◌≡◌}
use mathlib.Core.Bool.{Bool, true, false}
use native.Mathlib.Omega.{arith}
use lightning_cast_endpoint.Base.Tests.{if◌then◌else◌}
use lightning_cast_endpoint.Base.Effects.{
  done, thrown, undefined, stuck, Run, pure, ◌>>=◌, ◌>>◌, >>=-eq-done,
}

pub record Keeps {ℓ} {S : Type 0} {A : Type ℓ} (P : S → Type 0) (m : Run S A) : Type ℓ where
  pub keeps : (s s' : S) (a : A) → m s ≡ done (a, s') → P s → P s'

module _ {S : Type 0} {P : S → Type 0} where
  pub >>=-Keeps {ℓ κ} :
      {A : Type ℓ} {B : Type κ} {m : Run S A} {f : A → Run S B}
      → Keeps P m
      → ((a : A) → Keeps P (f a))
      → Keeps P (m >>= f)
  >>=-Keeps {m} {f} first rest = record {
    keeps = λ s s' b h p.
        let (a, t, ran, last) = >>=-eq-done m f s h in
        (rest a).keeps t s' b last (first.keeps s t a ran p);
  }

  pub >>-Keeps {ℓ} :
      {B : Type ℓ} {m : Run S (Unit {0})} {k : Run S B} → Keeps P m → Keeps P k → Keeps P (m >> k)
  >>-Keeps first rest = >>=-Keeps first (λ _. rest)

  pub if-Keeps {ℓ} :
      {A : Type ℓ} (b : Bool) {m n : Run S A} → Keeps P m → Keeps P n → Keeps P (if b then m else n)
  if-Keeps true first second = first
  if-Keeps false first second = second

  -- A call that always returns, and changes the state by `f`.
  pub update-Keeps {ℓ} :
      {A : Type ℓ} (f : S → S) (a : A) → ((s : S) → P s → P (f s)) → Keeps P (λ s. done (a, f s))
  update-Keeps f a keep = record {
    keeps = λ s s' b h p. let same : s' ≡ f s = cc in ground (arith, keep s p);
  }

  pub pure-Keeps {ℓ} : {A : Type ℓ} (a : A) → Keeps P (pure a)
  pure-Keeps a = update-Keeps (λ s. s) a (λ s p. p)

  -- A question about the state.
  pub asks-Keeps {ℓ} : {A : Type ℓ} (f : S → A) → Keeps P (λ s. done (f s, s))
  asks-Keeps f = record { keeps = λ s s' a h p. let same : s' ≡ s = cc in ground (arith, p) }

  -- A call whose course depends on the state in which it begins.
  pub state-Keeps {ℓ} :
      {A : Type ℓ} (f : S → Run S A) → ((s : S) → Keeps P (f s)) → Keeps P (λ s. f s s)
  state-Keeps f keep = record { keeps = λ s s' a h p. (keep s).keeps s s' a h p }

  -- Calls that do not return.
  pub stuck-Keeps {ℓ} : {A : Type ℓ} → Keeps {A = A} P (λ s. stuck)
  stuck-Keeps = record { keeps = λ s s' a h p. cc }

  pub thrown-Keeps {ℓ} : {A : Type ℓ} → Keeps {A = A} P (λ s. thrown)
  thrown-Keeps = record { keeps = λ s s' a h p. cc }

  pub undefined-Keeps {ℓ} : {A : Type ℓ} → Keeps {A = A} P (λ s. undefined)
  undefined-Keeps = record { keeps = λ s s' a h p. cc }

  -- A test of the state in which a call begins.
  pub test-Keeps {ℓ} :
      {A : Type ℓ} (test : S → Bool) (f g : S → Run S A)
      → ((s : S) → Keeps P (f s))
      → ((s : S) → Keeps P (g s))
      → Keeps P (λ s. if test s then f s s else g s s)
  test-Keeps {A} test f g first second = record { keeps = λ s s' a. go s s' a (test s) }
    where
      go : (s s' : S) (a : A) (b : Bool) → (if b then f s s else g s s) ≡ done (a, s') → P s → P s'
      go s s' a true h p = (first s).keeps s s' a h p
      go s s' a false h p = (second s).keeps s s' a h p
