-- ===== src/Util/Clock.antt =====
-- getTimeNowStr of Util.cpp: a date and a time as text.
pub mod Decimals
pub mod Printed
use lightning_cast_endpoint.Base.{
  ap, ◌∙◌, dec_lt, ℕ, zero, suc, ◌+◌, ◌-◌, ◌*◌, ◌/◌, ◌%◌, ◌^◌, ◌≤◌, ◌<◌, ◌≡◌, refl, List, [], ◌∷◌,
  ◌++◌, arith, ◌==◌, if◌then◌else◌, ℤ, pos, negsuc, ◌+ℤ◌, length, length-append, repeat, codes,
}

-- The decimal digits of `n` in front of a text; `fuel` bounds their number.
unfoldable pub digits : ℕ → ℕ → List ℕ → List ℕ
digits zero n out = out
digits (suc fuel) n out =
    let more = digits fuel (n / 10) ((b'0' + n % 10) ∷ out) in
    if n / 10 == 0 then (b'0' + n % 10) ∷ out else more

-- An int or a long has at most 19 digits.
unfoldable pub decimal : ℕ → List ℕ
decimal n = digits 20 n []

-- sprintf of `%0wd`: zeros fill up to the width, behind the sign.
unfoldable pub padded : ℕ → ℤ → List ℕ
padded w (pos n) = repeat (w - length (decimal n)) b'0' ++ decimal n
padded w (negsuc n) = b'-' ∷ (repeat (w - 1 - length (decimal (suc n))) b'0' ++ decimal (suc n))

-- struct tm, as localtime_r fills it.
pub record BrokenDown : Type 0 where
  pub tm_year : ℤ
  pub tm_mon : ℤ
  pub tm_mday : ℤ
  pub tm_hour : ℤ
  pub tm_min : ℤ
  pub tm_sec : ℤ

-- The text, without the NUL behind it, for the local time and the microseconds of gettimeofday.
unfoldable pub get_time_now_str : BrokenDown → ℤ → List ℕ
get_time_now_str systime tv_usec =
    padded 4 (systime.tm_year +ℤ pos 1900)
    ++ (codes "-"
        ++ (padded 2 (systime.tm_mon +ℤ pos 1)
            ++ (codes "-"
                ++ (padded 2 systime.tm_mday
                    ++ (codes " "
                        ++ (padded 2 systime.tm_hour
                            ++ (codes ":"
                                ++ (padded 2 systime.tm_min
                                    ++ (codes ":"
                                        ++ (padded 2 systime.tm_sec
                                            ++ (codes ":" ++ padded 6 tv_usec)))))))))))
