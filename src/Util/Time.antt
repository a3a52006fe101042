-- ===== src/Util/Time.antt =====
-- diff_in_us of Util.cpp, over clock readings.
use lightning_cast_endpoint.Base.{
  ℕ, ◌+◌, ◌-◌, ◌*◌, ◌/◌, ◌^◌, ◌≤◌, ◌<◌, ◌≡◌, Option, none, some, arith, ltb, if◌then◌else◌, ℤ, pos,
  negsuc, ◌+ℤ◌, ◌-ℤ◌, ◌*ℤ◌, div_trunc, ltb_ℤ, ap, dec_lt, lt→ltb, false,
}

-- struct timespec, as clock_gettime fills it.
pub record TimeSpec : Type 0 where
  pub tv_sec : ℕ
  pub tv_nsec : ℕ

-- The conversion of a double to uint64_t; `none` where the language leaves the result open.
abbrev pub to_uint64 : ℤ → Option ℕ
to_uint64 (pos n) = if ltb n (2 ^ 64) then some n else none
to_uint64 (negsuc n) = none

-- sec * 1000000.0 + nsec / 1000.0, cut to an integer. The double is exact enough for that below
-- 2^43 microseconds.
abbrev pub to_us : ℤ → ℤ → Option ℕ
to_us sec nsec = to_uint64 (div_trunc (sec *ℤ pos 1_000_000_000 +ℤ nsec) 1000)

unfoldable pub diff_in_us : TimeSpec → TimeSpec → Option ℕ
diff_in_us t1 t2 =
    if ltb_ℤ (pos t2.tv_nsec -ℤ pos t1.tv_nsec) (pos 0)
    then to_us (pos t2.tv_sec -ℤ pos t1.tv_sec -ℤ pos 1)
        (pos t2.tv_nsec -ℤ pos t1.tv_nsec +ℤ pos 1_000_000_000)
    else to_us (pos t2.tv_sec -ℤ pos t1.tv_sec) (pos t2.tv_nsec -ℤ pos t1.tv_nsec)

abbrev pub nanos : TimeSpec → ℕ
nanos t = t.tv_sec * 1_000_000_000 + t.tv_nsec

abbrev pub IsNormal : TimeSpec → Type 0
IsNormal t = t.tv_nsec < 1_000_000_000

sub_pos : (a b : ℕ) → b ≤ a → pos a -ℤ pos b ≡ pos (a - b)
unfolding ◌-ℤ◌
sub_pos a b h = ground arith

sub_test : (a b : ℕ) → ltb_ℤ (pos a -ℤ pos b) (pos 0) ≡ ltb a b
unfolding ◌-ℤ◌
sub_test a b = ground arith

nsec_borrow :
    (a b : ℕ)
    → a < b
    → b < 1_000_000_000
    → pos a -ℤ pos b +ℤ pos 1_000_000_000 ≡ pos (a + 1_000_000_000 - b)
unfolding ◌-ℤ◌ ◌+ℤ◌
nsec_borrow a b h small = ground arith

sec_borrow : (a b : ℕ) → b < a → pos a -ℤ pos b -ℤ pos 1 ≡ pos (a - b - 1)
unfolding ◌-ℤ◌
sec_borrow a b h = ground arith

to_us_pos :
    (sec nsec : ℕ)
    → sec * 1_000_000_000 + nsec < 2 ^ 63
    → to_us (pos sec) (pos nsec) ≡ some ((sec * 1_000_000_000 + nsec) / 1000)
unfolding ◌*ℤ◌ ◌+ℤ◌ div_trunc
to_us_pos sec nsec h = ground arith

module _ (t1 t2 : TimeSpec) (n1 : IsNormal t1) (n2 : IsNormal t2) (le : nanos t1 ≤ nanos t2)
    (small : nanos t2 - nanos t1 < 2 ^ 52) where
  borrow : t2.tv_nsec < t1.tv_nsec → diff_in_us t1 t2 ≡ some ((nanos t2 - nanos t1) / 1000)
  unfolding diff_in_us
  borrow h =
      rw
        (
          sub_test t2.tv_nsec t1.tv_nsec,
          lt→ltb _ _ h,
          sec_borrow t2.tv_sec t1.tv_sec (omega arith),
          nsec_borrow t2.tv_nsec t1.tv_nsec h n1,
          to_us_pos (t2.tv_sec - t1.tv_sec - 1) (t2.tv_nsec + 1_000_000_000 - t1.tv_nsec)
              (omega arith),
        )
        (ap some (omega arith))

  plain : t1.tv_nsec ≤ t2.tv_nsec → diff_in_us t1 t2 ≡ some ((nanos t2 - nanos t1) / 1000)
  unfolding diff_in_us
  plain h =
      let above : ltb t2.tv_nsec t1.tv_nsec ≡ false = ground arith in
      rw
        (
          sub_test t2.tv_nsec t1.tv_nsec,
          above,
          sub_pos t2.tv_sec t1.tv_sec (omega arith),
          sub_pos t2.tv_nsec t1.tv_nsec h,
          to_us_pos (t2.tv_sec - t1.tv_sec) (t2.tv_nsec - t1.tv_nsec) (omega arith),
        )
        (ap some (omega arith))

-- Between two normal readings of a clock that does not go back, less than 2^52 nanoseconds apart,
-- the result is the whole number of microseconds that have passed, borrow or not.
pub diff_in_us-nanos :
    (t1 t2 : TimeSpec)
    → IsNormal t1
    → IsNormal t2
    → nanos t1 ≤ nanos t2
    → nanos t2 - nanos t1 < 2 ^ 52
    → diff_in_us t1 t2 ≡ some ((nanos t2 - nanos t1) / 1000)
unfolding diff_in_us
diff_in_us-nanos t1 t2 n1 n2 le small = elim (dec_lt t2.tv_nsec t1.tv_nsec) [
  | yes h ↦ borrow t1 t2 n1 n2 le small h
  | no h ↦ plain t1 t2 n1 n2 le small (omega arith)
]
