-- ===== src/Time/Check.antt =====
-- Whether a time conforms to an interval that is given as text (`time_check` and
-- `time_checkintervals` of source/bforce/u_time.c).
use binkleyforce.Base.{
  ℕ, Bool, true, false, not, ◌&&◌, ◌||◌, none, some, List, [], ◌∷◌, ◌==◌, drop, if◌then◌else◌,
  Bytes,
}
use binkleyforce.Time.{
  Tm, begins, scan_interval, minutes, current, within, strtok_all, sun, mon, tue, wed, thu, fri,
  sat, any, wk, we,
}

-- The results 0, 1 and -1.
pub data Answer : Type 0 where
  conforms other_time incorrect : Answer

-- `day`: a day of the week, or a negative number.
pub data DayWord : Type 0 where
  weekday : ℕ → DayWord
  any_day : DayWord  -- -1
  workday : DayWord  -- -2
  weekend : DayWord  -- -3
  no_day : DayWord  -- -4

unfoldable pub day_word : Bytes → DayWord
unfolding begins
day_word str =
    if begins sun str
    then weekday 0
    else if begins mon str
    then weekday 1
    else if begins tue str
    then weekday 2
    else if begins wed str
    then weekday 3
    else if begins thu str
    then weekday 4
    else if begins fri str
    then weekday 5
    else if begins sat str
    then weekday 6
    else if begins any str
    then any_day
    else if begins wk str
    then workday
    else if begins we str
    then weekend
    else no_day

unfoldable pub day_conforms : DayWord → ℕ → Bool
day_conforms (weekday day) wday = wday == day
day_conforms weekend wday = wday == 0 || wday == 6
day_conforms workday wday = not (wday == 0) && not (wday == 6)
day_conforms any_day wday = true
day_conforms no_day wday = true

-- `str` behind the day.
unfoldable pub behind_day : DayWord → Bytes → Bytes
behind_day (weekday day) str = drop 3 str
behind_day weekend str = drop 2 str
behind_day workday str = drop 2 str
behind_day any_day str = drop 3 str
behind_day no_day str = str

abbrev pub answer : Bool → Answer
answer true = conforms
answer false = other_time

-- The end of the string behind the day.
abbrev day_alone : DayWord → Answer
day_alone no_day = incorrect
day_alone _ = conforms

-- A day that conforms, and what stands behind it.
unfoldable pub hours_check : DayWord → Tm → Bytes → Answer
hours_check day now [] = day_alone day
hours_check day now (c ∷ str) = elim (scan_interval (c ∷ str)) [
  | none ↦ incorrect
  | some (h1, m1, h2, m2) ↦ answer (within (current now) (minutes h1 m1) (minutes h2 m2))
]

unfoldable pub time_check : Bytes → Tm → Answer
time_check [] now = other_time
time_check (c ∷ str) now =
    let day = day_word (c ∷ str) in
    if not (day_conforms day now.tm_wday)
    then other_time
    else hours_check day now (behind_day day (c ∷ str))

-- The loop over the pieces.
unfoldable pub check_pieces : List Bytes → Tm → Answer
check_pieces [] now = other_time
check_pieces (p ∷ rest) now =
    let later = check_pieces rest now in
    elim (time_check p now) [ conforms ↦ conforms | incorrect ↦ incorrect | other_time ↦ later ]

unfoldable pub time_checkintervals : Bytes → Tm → Answer
time_checkintervals timestr now = check_pieces (strtok_all timestr) now
