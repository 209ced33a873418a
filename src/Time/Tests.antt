-- ===== src/Time/Tests.antt =====
-- Runs of the time intervals, and the theorems at concrete inputs.
use binkleyforce.Base.{ℕ, ◌≡◌, refl, arith, true, false, [], ◌∷◌, ◌++◌, Bytes}
use binkleyforce.Base.Int.{pos, ◌+ℤ◌, ◌*ℤ◌}
use binkleyforce.Time.{Tm, scan_interval, within, strtok_all, sun, wk}
use binkleyforce.Time.Check.{
  conforms, other_time, incorrect, day_word, day_conforms, behind_day, hours_check, time_check,
  check_pieces, time_checkintervals,
}
use binkleyforce.Time.Vector.{
  TimeInt, TimeVec, timevec_add, beg_day, hours_at, days, add_interval, timevec_parse, parse_pieces,
  timevec_parse_list, interval_ok, any_ok, timevec_check, timevec_isnow,
}
use binkleyforce.Time.Agree.{timevec_check-time_checkintervals}
use binkleyforce.Time.Full.{timevec_parse-full}

-- 08:00-18:30
abbrev office : Bytes
office = b'0' ∷ b'8' ∷ b':' ∷ b'0' ∷ b'0' ∷ b'-' ∷ b'1' ∷ b'8' ∷ b':' ∷ b'3' ∷ b'0' ∷ []

-- 22:00-07:00
abbrev night : Bytes
night = b'2' ∷ b'2' ∷ b':' ∷ b'0' ∷ b'0' ∷ b'-' ∷ b'0' ∷ b'7' ∷ b':' ∷ b'0' ∷ b'0' ∷ []

abbrev intervals : Bytes
intervals = (wk ++ office) ++ b',' ∷ sun ++ night

abbrev sunday_at_three : Tm
sunday_at_three = record { tm_wday = 0; tm_hour = 3; tm_min = 15 }

check_run :
    (time_check (wk ++ office) sunday_at_three ≡ other_time)
    × (time_check (wk ++ office) (record sunday_at_three { tm_wday = 2; tm_hour = 18 }) ≡ conforms)
    × (time_check (b'8' ∷ []) sunday_at_three ≡ incorrect)
    × (time_checkintervals intervals sunday_at_three ≡ conforms)
unfolding time_checkintervals strtok_all check_pieces time_check day_word day_conforms behind_day
    hours_check scan_interval within ◌+ℤ◌ ◌*ℤ◌
check_run = (refl, refl, refl, refl)

parse_run :
    ((timevec_parse_list [] intervals).0 ≡ false)
    × (timevec_isnow (timevec_parse_list [] intervals).1 sunday_at_three ≡ true)
unfolding timevec_parse_list parse_pieces timevec_parse beg_day hours_at add_interval timevec_add
    days strtok_all scan_interval timevec_isnow timevec_check any_ok interval_ok ◌+ℤ◌ ◌*ℤ◌
parse_run = (refl, refl)

timevec_check-time_checkintervals_example :
    timevec_check (timevec_parse_list [] intervals).1 sunday_at_three
    ≡ time_checkintervals intervals sunday_at_three
unfolding timevec_parse_list parse_pieces timevec_parse beg_day hours_at add_interval timevec_add
    days strtok_all scan_interval ◌+ℤ◌ ◌*ℤ◌
timevec_check-time_checkintervals_example =
    timevec_check-time_checkintervals intervals sunday_at_three (omega arith) (omega arith) refl

abbrev hour : ℕ → TimeInt
hour h = record { day_beg = 0; day_end = 6; beg = pos h; end = pos 1439 }

abbrev full : TimeVec
full = hour 0 ∷ hour 1 ∷ hour 2 ∷ hour 3 ∷ hour 4 ∷ hour 5 ∷ hour 6 ∷ hour 7 ∷ hour 8 ∷ hour 9 ∷ []

timevec_parse-full_run :
    ((timevec_parse full office).1 ≡ full)
    × ((timevec_parse full office).0 ≡ (timevec_parse [] office).0)
timevec_parse-full_run = timevec_parse-full full office (omega arith)

full_run : (timevec_parse full office).0 ≡ false
unfolding timevec_parse beg_day hours_at add_interval scan_interval ◌+ℤ◌ ◌*ℤ◌
full_run = refl
