-- ===== src/Examples/Clock.antt =====
-- The text of a time, at a concrete input.
use lightning_cast_endpoint.Base.{
  ℤ, negsuc, ◌+ℤ◌, ◌-◌, ◌^◌, ◌+◌, ◌≤◌, ◌≡◌, refl, [], ◌∷◌, arith, pos, codes, length,
}
use lightning_cast_endpoint.Util.Clock.{BrokenDown, digits, decimal, padded, get_time_now_str}
use lightning_cast_endpoint.Util.Clock.Printed.{time_fits, tm, widths, columns, time_columns}

-- No time at all: every value is the smallest that its type holds.
abbrev lowest : ℤ
lowest = negsuc (2 ^ 31 - 1)

abbrev no_time : BrokenDown
no_time = record {
  tm_year = lowest;
  tm_mon = lowest;
  tm_mday = lowest;
  tm_hour = lowest;
  tm_min = lowest;
  tm_sec = lowest;
}

time_fits_example : length (get_time_now_str no_time (negsuc (2 ^ 63 - 1))) + 1 ≤ 100
unfolding get_time_now_str ◌+ℤ◌
time_fits_example = time_fits no_time (negsuc (2 ^ 63 - 1)) (record {
  year = omega arith;
  mon = omega arith;
  mday = omega arith;
  hour = omega arith;
  min = omega arith;
  sec = omega arith;
  usec = omega arith;
})

time_columns_example :
    let text = get_time_now_str (tm 124 1 29 23 59 60) (pos 7) in
    (length text ≡ 26) × (columns widths text ≡ 2024 ∷ 2 ∷ 29 ∷ 23 ∷ 59 ∷ 60 ∷ 7 ∷ [])
time_columns_example = time_columns 124 1 29 23 59 60 7 (record {
  of_year = omega arith;
  of_mon = omega arith;
  of_mday = omega arith;
  of_hour = omega arith;
  of_min = omega arith;
  of_sec = omega arith;
  of_usec = omega arith;
})

-- The format.
leap_day : get_time_now_str (tm 124 1 29 23 59 60) (pos 7) ≡ codes "2024-02-29 23:59:60:000007"
unfolding get_time_now_str padded decimal digits ◌+ℤ◌
leap_day = refl
