-- ===== src/Util/Clock/Decimals.antt =====
-- The digits that sprintf prints: their number and their value.
use lightning_cast_endpoint.Base.{
  ap, ◌∙◌, dec_lt, ℕ, zero, suc, ◌+◌, ◌-◌, ◌*◌, ◌/◌, ◌%◌, ◌^◌, ◌≤◌, ◌<◌, ◌≡◌, refl, List, [], ◌∷◌,
  ◌++◌, arith, pos, length, length-append, repeat,
}
use lightning_cast_endpoint.Util.Clock.{digits, decimal, padded}

-- The number that a run of digits stands for, behind one that was read before.
unfoldable pub value : ℕ → List ℕ → ℕ
value n [] = n
value n (c ∷ s) = value (n * 10 + (c - b'0')) s

digits_small : (fuel n : ℕ) (out : List ℕ) → n < 10 → digits (suc fuel) n out ≡ (b'0' + n) ∷ out
unfolding digits
digits_small fuel n out h = ground arith

digits_large :
    (fuel n : ℕ) (out : List ℕ)
    → 10 ≤ n
    → digits (suc fuel) n out ≡ digits fuel (n / 10) ((b'0' + n % 10) ∷ out)
unfolding digits
digits_large fuel n out h = ground arith

tenth : (k n : ℕ) → n < 10 ^ suc (suc k) → n / 10 < 10 ^ suc k
tenth k n h = omega arith

value-digits :
    (fuel n : ℕ) (out : List ℕ)
    → n < 10 ^ suc fuel
    → value 0 (digits (suc fuel) n out) ≡ value n out
unfolding value
value-digits zero n out h =
    rw (digits_small zero n out (omega arith)) (ap (λ k. value k out) (omega arith))
value-digits (suc fuel) n out h = elim (dec_lt n 10) [
  | yes small ↦ rw (digits_small (suc fuel) n out small) (ap (λ k. value k out) (omega arith))
  | no large ↦
      rw
        (
          digits_large (suc fuel) n out (omega arith),
          value-digits fuel (n / 10) ((b'0' + n % 10) ∷ out) (tenth fuel n h),
        )
        (ap (λ k. value k out) (omega arith))
]

length-digits :
    (w fuel n : ℕ) (out : List ℕ)
    → n < 10 ^ suc w
    → w ≤ fuel
    → length (digits (suc fuel) n out) ≤ suc w + length out
length-digits zero fuel n out h le = rw (digits_small fuel n out (omega arith)) (omega arith)
length-digits (suc w) zero n out h le = absurd (omega arith)
length-digits (suc w) (suc fuel) n out h le = elim (dec_lt n 10) [
  | yes small ↦ rw (digits_small (suc fuel) n out small) (omega arith)
  | no large ↦ rw (digits_large (suc fuel) n out (omega arith)) (
      omega
        (arith, length-digits w fuel (n / 10) ((b'0' + n % 10) ∷ out) (tenth w n h) (omega arith)))
]

pub length-decimal : (w n : ℕ) → n < 10 ^ suc w → w < 20 → length (decimal n) ≤ suc w
unfolding decimal
length-decimal w n h le = omega (arith, length-digits w 19 n [] h (omega arith))

value-decimal : (n : ℕ) → n < 10 ^ 20 → value 0 (decimal n) ≡ n
unfolding decimal value
value-decimal n h = value-digits 19 n [] h

pub length-repeat : (k c : ℕ) → length (repeat k c) ≡ k
length-repeat zero c = refl
length-repeat (suc k) c = ap suc (length-repeat k c)

value-repeat : (k : ℕ) (s : List ℕ) → value 0 (repeat k b'0' ++ s) ≡ value 0 s
unfolding value
value-repeat zero s = refl
value-repeat (suc k) s = value-repeat k s

pub length-padded : (w n : ℕ) → n < 10 ^ suc w → w < 20 → length (padded (suc w) (pos n)) ≡ suc w
unfolding padded
length-padded w n h le =
    let fill = suc w - length (decimal n) in
    omega (
      arith,
      length-append (repeat fill b'0') (decimal n),
      length-repeat fill b'0',
      length-decimal w n h le,
    )

pub value-padded : (w n : ℕ) → n < 10 ^ 20 → value 0 (padded w (pos n)) ≡ n
unfolding padded
value-padded w n h = value-repeat (w - length (decimal n)) (decimal n) ∙ value-decimal n h
