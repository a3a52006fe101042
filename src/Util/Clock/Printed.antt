-- ===== src/Util/Clock/Printed.antt =====
-- The text that getTimeNowStr writes: its length, and what its columns say.
use lightning_cast_endpoint.Base.{
  append-nil, ap, ◌∙◌, ℕ, suc, ◌+◌, ◌-◌, ◌^◌, ◌≤◌, ◌<◌, ◌≡◌, refl, List, [], ◌∷◌, ◌++◌, arith, ℤ,
  pos, negsuc, ◌+ℤ◌, length, length-append, repeat, pos_part, neg_part, take, drop,
  take-append_exact, drop-append_ge, sym,
}
use lightning_cast_endpoint.Util.Clock.{padded, decimal, BrokenDown, get_time_now_str}
use lightning_cast_endpoint.Util.Clock.Decimals.{
  value, length-decimal, length-repeat, length-padded, value-padded,
}

-- A number whose decimal print has at most `d` digits.
abbrev pub HasDigits : ℕ → ℤ → Type 0
HasDigits d z = pos_part z + neg_part z < 10 ^ d

length-padded_le :
    (w d : ℕ) (z : ℤ) → w ≤ suc d → d < 20 → HasDigits (suc d) z → length (padded w z) ≤ suc (suc d)
unfolding padded
length-padded_le w d (pos n) le small h =
    let fill = w - length (decimal n) in
    omega (
      arith,
      length-append (repeat fill b'0') (decimal n),
      length-repeat fill b'0',
      length-decimal d n (omega arith) small,
    )
length-padded_le w d (negsuc n) le small h =
    let fill = w - 1 - length (decimal (suc n)) in
    omega (
      arith,
      length-append (repeat fill b'0') (decimal (suc n)),
      length-repeat fill b'0',
      length-decimal d (suc n) (omega arith) small,
    )

-- The values that are printed are ints (at most ten digits), and the microseconds a long (at most 19).
pub record IsInt (t : BrokenDown) (tv_usec : ℤ) : Type 0 where
  pub year : HasDigits 10 (t.tm_year +ℤ pos 1900)
  pub mon : HasDigits 10 (t.tm_mon +ℤ pos 1)
  pub mday : HasDigits 10 t.tm_mday
  pub hour : HasDigits 10 t.tm_hour
  pub min : HasDigits 10 t.tm_min
  pub sec : HasDigits 10 t.tm_sec
  pub usec : HasDigits 19 tv_usec

-- Seven columns with six bytes between them.
length_row :
    (a b c d e f g : List ℕ) (x y z u v w : ℕ)
    → length (a ++ x ∷ (b ++ y ∷ (c ++ z ∷ (d ++ u ∷ (e ++ v ∷ (f ++ w ∷ g))))))
      ≡ length a + length b + length c + length d + length e + length f + length g + 6
length_row a b c d e f g x y z u v w = grind (arith, length-append)

-- Whatever ints and whatever long the system's calls give, valid times or not, the text with the NUL behind it
-- fits into the buffer of 100 bytes that the DEBUG macro declares.
pub time_fits :
    (t : BrokenDown) (tv_usec : ℤ) → IsInt t tv_usec → length (get_time_now_str t tv_usec) + 1 ≤ 100
unfolding get_time_now_str
time_fits t tv_usec h =
    rw
      (length_row (padded 4 (t.tm_year +ℤ pos 1900)) (padded 2 (t.tm_mon +ℤ pos 1))
        (padded 2 t.tm_mday) (padded 2 t.tm_hour) (padded 2 t.tm_min) (padded 2 t.tm_sec)
        (padded 6 tv_usec) b'-' b'-' b' ' b':' b':' b':')
      (omega (
        arith,
        length-padded_le 4 9 (t.tm_year +ℤ pos 1900) (omega arith) (omega arith) h.year,
        length-padded_le 2 9 (t.tm_mon +ℤ pos 1) (omega arith) (omega arith) h.mon,
        length-padded_le 2 9 t.tm_mday (omega arith) (omega arith) h.mday,
        length-padded_le 2 9 t.tm_hour (omega arith) (omega arith) h.hour,
        length-padded_le 2 9 t.tm_min (omega arith) (omega arith) h.min,
        length-padded_le 2 9 t.tm_sec (omega arith) (omega arith) h.sec,
        length-padded_le 6 18 tv_usec (omega arith) (omega arith) h.usec,
      ))

-- Reading a row: a column of each width, with one byte behind it.
pub columns : List ℕ → List ℕ → List ℕ
columns [] s = []
columns (w ∷ ws) s = value 0 (take w s) ∷ columns ws (drop (suc w) s)

columns-padded :
    (w n c : ℕ) (ws rest : List ℕ)
    → n < 10 ^ suc w
    → w < 20
    → n < 10 ^ 20
    → columns (suc w ∷ ws) (padded (suc w) (pos n) ++ c ∷ rest) ≡ n ∷ columns ws rest
unfolding columns
columns-padded w n c ws rest h le fits =
    let printed = padded (suc w) (pos n) in
    let long : length printed ≡ suc w = length-padded w n h le in
    let one : suc (suc w) - length printed ≡ 1 = omega (arith, long) in
    rw
      (
        take-append_exact (suc w) printed (c ∷ rest) (sym long),
        drop-append_ge (suc (suc w)) printed (c ∷ rest) (omega (arith, long)),
        one,
        value-padded (suc w) n fits,
      )
      refl

columns-padded_last :
    (w n : ℕ)
    → n < 10 ^ suc w
    → w < 20
    → n < 10 ^ 20
    → columns (suc w ∷ []) (padded (suc w) (pos n)) ≡ n ∷ []
unfolding columns
columns-padded_last w n h le fits =
    let printed = padded (suc w) (pos n) in
    let whole : take (suc w) printed ≡ printed =
      ap (take (suc w)) (sym (append-nil printed))
      ∙ take-append_exact (suc w) printed [] (sym (length-padded w n h le)) in
    rw (whole, value-padded (suc w) n fits) refl

-- A time of the years 1900 to 9999, as localtime_r and gettimeofday give it; `sec` can be a leap second.
pub record IsTime (year mon mday hour min sec usec : ℕ) : Type 0 where
  pub of_year : year + 1900 < 10000
  pub of_mon : mon < 12
  pub of_mday : mday < 32
  pub of_hour : hour < 24
  pub of_min : min < 60
  pub of_sec : sec < 61
  pub of_usec : usec < 1_000_000

-- struct tm with these values.
abbrev pub tm : ℕ → ℕ → ℕ → ℕ → ℕ → ℕ → BrokenDown
tm year mon mday hour min sec = record {
  tm_year = pos year;
  tm_mon = pos mon;
  tm_mday = pos mday;
  tm_hour = pos hour;
  tm_min = pos min;
  tm_sec = pos sec;
}

abbrev pub widths : List ℕ
widths = 4 ∷ 2 ∷ 2 ∷ 2 ∷ 2 ∷ 2 ∷ 6 ∷ []

add_pos : (a b : ℕ) → pos a +ℤ pos b ≡ pos (a + b)
unfolding ◌+ℤ◌
add_pos a b = ground arith

-- For every time of the years 1900 to 9999 the text has just 26 bytes, and its seven columns, read as decimal
-- numbers, are the year, the month from 1 on, the day, the hour, the minute, the second and the microseconds:
-- no two such times have the same text.
pub time_columns :
    (year mon mday hour min sec usec : ℕ)
    → IsTime year mon mday hour min sec usec
    → let text = get_time_now_str (tm year mon mday hour min sec) (pos usec) in
      (length text ≡ 26)
      × (columns widths text ≡ (year + 1900) ∷ (mon + 1) ∷ mday ∷ hour ∷ min ∷ sec ∷ usec ∷ [])
unfolding get_time_now_str
time_columns year mon mday hour min sec usec h =
    rw (add_pos year 1900, add_pos mon 1)
      (
        rw
            (
              length_row (padded 4 (pos (year + 1900))) (padded 2 (pos (mon + 1)))
                  (padded 2 (pos mday)) (padded 2 (pos hour)) (padded 2 (pos min))
                  (padded 2 (pos sec)) (padded 6 (pos usec)) b'-' b'-' b' ' b':' b':' b':',
              length-padded 3 (year + 1900) h.of_year (omega arith),
              length-padded 1 (mon + 1) (omega arith) (omega arith),
              length-padded 1 mday (omega arith) (omega arith),
              length-padded 1 hour (omega arith) (omega arith),
              length-padded 1 min (omega arith) (omega arith),
              length-padded 1 sec (omega arith) (omega arith),
              length-padded 5 usec h.of_usec (omega arith),
            )
            refl,
        rw
            (
              columns-padded 3 (year + 1900) b'-' (2 ∷ 2 ∷ 2 ∷ 2 ∷ 2 ∷ 6 ∷ []) _ h.of_year
                  (omega arith) (omega arith),
              columns-padded 1 (mon + 1) b'-' (2 ∷ 2 ∷ 2 ∷ 2 ∷ 6 ∷ []) _ (omega arith) (omega arith)
                  (omega arith),
              columns-padded 1 mday b' ' (2 ∷ 2 ∷ 2 ∷ 6 ∷ []) _ (omega arith) (omega arith)
                  (omega arith),
              columns-padded 1 hour b':' (2 ∷ 2 ∷ 6 ∷ []) _ (omega arith) (omega arith)
                  (omega arith),
              columns-padded 1 min b':' (2 ∷ 6 ∷ []) _ (omega arith) (omega arith) (omega arith),
              columns-padded 1 sec b':' (6 ∷ []) _ (omega arith) (omega arith) (omega arith),
              columns-padded_last 5 usec h.of_usec (omega arith) (omega arith),
            )
            refl,
      )
