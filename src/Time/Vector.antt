-- ===== src/Time/Vector.antt =====
-- Intervals that are parsed once and checked later (`timevec_*` of source/bforce/u_time.c).
use binkleyforce.Base.{
  ℕ, Bool, true, false, ◌&&◌, ◌||◌, none, some, List, [], ◌∷◌, ◌++◌, ◌==◌, leb, length, drop, ◌-◌,
  if◌then◌else◌, Bytes,
}
use binkleyforce.Base.Int.{ℤ, ◌==ℤ◌}
use binkleyforce.Time.{
  Tm, begins, scan_interval, minutes, current, within, strtok_all, sun, mon, tue, wed, thu, fri,
  sat, any, wk, we,
}
use binkleyforce.Time.Check.{Answer, conforms, other_time, incorrect, answer}

-- `s_timeint`, with the days as the numbers of `enum day`, and `s_timevec` as the list of its intervals.
pub record TimeInt : Type 0 where
  pub day_beg : ℕ
  pub day_end : ℕ
  pub beg : ℤ
  pub end : ℤ

abbrev pub TimeVec : Type 0
TimeVec = List TimeInt

abbrev pub timevec_max_elements : ℕ
timevec_max_elements = 10

-- Whether an interval of the list has the same time on these days.
unfoldable pub is_dupe : TimeVec → TimeInt → Bool
is_dupe [] new = false
is_dupe (t ∷ tv) new =
    (leb t.day_beg new.day_beg
      && leb new.day_end t.day_end
      && t.beg ==ℤ new.beg
      && t.end ==ℤ new.end)
    || is_dupe tv new

-- `true` is the -1 of a list that is full.
unfoldable pub timevec_add : TimeVec → TimeInt → Bool × TimeVec
unfolding is_dupe
timevec_add dest new =
    if is_dupe dest new
    then (false, dest)
    else if leb timevec_max_elements (length dest)
    then (true, dest)
    else (false, dest ++ new ∷ [])

-- `enum day` from DAY_MONDAY on.
unfoldable pub beg_day : Bytes → ℕ
unfolding begins
beg_day str =
    if begins sun str
    then 6
    else if begins mon str
    then 0
    else if begins tue str
    then 1
    else if begins wed str
    then 2
    else if begins thu str
    then 3
    else if begins fri str
    then 4
    else if begins sat str
    then 5
    else if begins any str
    then 7
    else if begins wk str
    then 8
    else if begins we str
    then 9
    else 10

unfoldable pub hours_at : ℕ → Bytes → Bytes
hours_at day str =
    if leb day 6
    then drop 3 str
    else if day == 7
    then drop 3 str
    else if day == 8 || day == 9
    then drop 2 str
    else str

-- The first and the last day that is added.
unfoldable pub days : ℕ → ℕ × ℕ
days day =
    if leb day 6
    then (day, day)
    else if day == 8
    then (0, 4)
    else if day == 9
    then (5, 6)
    else (0, 6)

unfoldable pub add_interval : TimeVec → ℕ → ℤ → ℤ → Bool × TimeVec
add_interval dest day beg end = if beg ==ℤ end then (true, dest) else (
  false,
  (timevec_add dest
      (record { day_beg = (days day).0; day_end = (days day).1; beg = beg; end = end })).1,
)

-- `true` is the -1 of an incorrect string.
unfoldable pub timevec_parse : TimeVec → Bytes → Bool × TimeVec
timevec_parse dest str = elim (scan_interval (hours_at (beg_day str) str)) [
  | none ↦ (true, dest)
  | some (h1, m1, h2, m2) ↦ add_interval dest (beg_day str) (minutes h1 m1) (minutes h2 m2)
]

unfoldable pub parse_pieces : TimeVec → List Bytes → Bool × TimeVec
parse_pieces dest [] = (false, dest)
parse_pieces dest (p ∷ rest) =
    let parsed = timevec_parse dest p in
    let r = parse_pieces parsed.1 rest in (parsed.0 || r.0, r.1)

unfoldable pub timevec_parse_list : TimeVec → Bytes → Bool × TimeVec
timevec_parse_list dest str = parse_pieces dest (strtok_all str)

unfoldable pub interval_ok : ℕ → ℤ → TimeInt → Bool
unfolding within
interval_ok cur_day cur t = leb t.day_beg cur_day && leb cur_day t.day_end && within cur t.beg t.end

-- The loop, which ends at the first interval that has the time.
unfoldable pub any_ok : ℕ → ℤ → TimeVec → Bool
any_ok cur_day cur [] = false
any_ok cur_day cur (t ∷ tv) = interval_ok cur_day cur t || any_ok cur_day cur tv

-- `enum day` counts from Monday, `tm_wday` from Sunday.
abbrev pub day_of_week : ℕ → ℕ
day_of_week wday = if wday == 0 then 6 else wday - 1

unfoldable pub timevec_check : TimeVec → Tm → Answer
timevec_check tv now =
    if leb now.tm_wday 6
    then answer (any_ok (day_of_week now.tm_wday) (current now) tv)
    else incorrect

unfoldable pub timevec_isnow : TimeVec → Tm → Bool
timevec_isnow tv now = elim (timevec_check tv now) [
  | conforms ↦ true
  | other_time ↦ false
  | incorrect ↦ false
]
