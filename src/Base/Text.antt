-- ===== src/Base/Text.antt =====
-- Texts as lists of bytes: literals, `==`, `find` and `replace` of std::string.
use Prim.Native.Char.{code}
use Prim.Native.String.{String}
use Prim.Native.Nat.{ℕ, suc, ◌+◌, ◌<◌}
use mathlib.Core.Path.{◌≡◌, refl, ap}
use mathlib.Core.Logic.{◌↔◌, ◌≢◌, inl, inr}
use mathlib.Core.Bool.{Bool, true, false, ◌&&◌}
use mathlib.Core.List.{List, [], ◌∷◌, ◌++◌}
use mathlib.Core.Option
use mathlib.Core.Option.{Option, none, some}
use native.Mathlib.Omega.{arith}
use lightning_cast_endpoint.Base.Tests.{◌==◌, if◌then◌else◌, Bool-cases}
use lightning_cast_endpoint.Base.Lists.{length, take, drop}

-- The bytes of an ASCII literal.
abbrev pub codes : String → List ℕ
codes String.[] = []
codes (String.◌∷◌ c s) = code c ∷ codes s

abbrev pub same_text : List ℕ → List ℕ → Bool
same_text [] [] = true
same_text (a ∷ s) (b ∷ t) = a == b && same_text s t
same_text _ _ = false

pub same_text_iff : (s t : List ℕ) → (same_text s t ≡ true) ↔ (s ≡ t)
same_text_iff [] [] = (λ _. refl, λ _. refl)
same_text_iff [] (b ∷ t) = (λ e. cc, λ e. cc)
same_text_iff (a ∷ s) [] = (λ e. cc, λ e. cc)
same_text_iff (a ∷ s) (b ∷ t) = ground (arith, same_text_iff s t)

starts_with : List ℕ → List ℕ → Bool
starts_with [] t = true
starts_with (a ∷ p) [] = false
starts_with (a ∷ p) (b ∷ t) = a == b && starts_with p t

-- The index of the first occurrence; `none` is npos.
unfoldable pub find : List ℕ → List ℕ → Option ℕ
unfolding starts_with
find p [] = if starts_with p [] then some 0 else none
find p (c ∷ t) = if starts_with p (c ∷ t) then some 0 else Option.map suc (find p t)

-- `n` bytes from `i` on give way to a text. The program replaces in range only.
unfoldable pub replace : ℕ → ℕ → List ℕ → List ℕ → List ℕ
replace i n by t = take i t ++ (by ++ drop (i + n) t)

starts_with-append : (p rest : List ℕ) → starts_with p (p ++ rest) ≡ true
unfolding starts_with
starts_with-append [] rest = refl
starts_with-append (a ∷ p) rest = ground (arith, starts_with-append p rest)

starts_with_rest : (p t : List ℕ) → starts_with p t ≡ true → (rest : List ℕ) × (t ≡ p ++ rest)
unfolding starts_with
starts_with_rest [] t h = (t, refl)
starts_with_rest (a ∷ p) [] h = cc
starts_with_rest (a ∷ p) (b ∷ t) h =
    let (rest, e) = starts_with_rest p t (ground arith) in (rest, ground arith)

find_here : (p t : List ℕ) → starts_with p t ≡ true → find p t ≡ some 0
unfolding find
find_here p [] h = ground arith
find_here p (c ∷ t) h = ground arith

-- The pattern stands nowhere in the text.
abbrev pub IsAbsent : List ℕ → List ℕ → Type 0
IsAbsent p t = (before after : List ℕ) → t ≢ before ++ (p ++ after)

-- It stands nowhere before the index.
abbrev pub IsAbsentBefore : ℕ → List ℕ → List ℕ → Type 0
IsAbsentBefore i p t = (before after : List ℕ) → length before < i → t ≢ before ++ (p ++ after)

not-starts_with : (p t : List ℕ) → ((after : List ℕ) → t ≢ p ++ after) → starts_with p t ≡ false
not-starts_with p t h = elim (Bool-cases (starts_with p t)) [
  | inl starts ↦ let (after, e) = starts_with_rest p t starts in absurd (h after e)
  | inr other ↦ other
]

pub find_absent : (p t : List ℕ) → IsAbsent p t → find p t ≡ none
unfolding find
find_absent p [] h = ground (arith, not-starts_with p [] (h []))
find_absent p (c ∷ t) h = ground (
  arith,
  not-starts_with p (c ∷ t) (h []),
  find_absent p t (λ before after e. h (c ∷ before) after (ap (◌∷◌ c) e)),
)

pub find_first :
    (p before after : List ℕ)
    → IsAbsentBefore (length before) p (before ++ (p ++ after))
    → find p (before ++ (p ++ after)) ≡ some (length before)
unfolding find
find_first p [] after h = find_here p (p ++ after) (starts_with-append p after)
find_first p (c ∷ before) after h = ground (
  arith,
  not-starts_with p (c ∷ (before ++ (p ++ after))) (λ rest. h [] rest (omega arith)),
  find_first p before after (λ b a l e. h (c ∷ b) a (omega arith) (ap (◌∷◌ c) e)),
)
