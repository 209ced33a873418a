-- ===== src/Time/Agree.antt =====
-- The two readings of intervals, checked at once or parsed first (source/bforce/u_time.c).
use binkleyforce.Base.{
  ℕ, zero, suc, ◌+◌, ◌≤◌, ◌<◌, ◌≡◌, refl, arith, inl, inr, Bool, true, false, ◌&&◌, ◌||◌, some,
  List, [], ◌∷◌, ◌++◌, leb, length, length-append, if◌then◌else◌, Bytes, Option-cases,
}
use binkleyforce.Base.Int.{ℤ, ==ℤ_iff}
use binkleyforce.Time.{Tm, scan_interval, minutes, current, within, strtok_all}
use binkleyforce.Time.Check.{
  conforms, answer, DayWord, weekday, any_day, workday, weekend, no_day, day_word, day_conforms,
  behind_day, hours_check, time_check, check_pieces, time_checkintervals,
}
use binkleyforce.Time.Vector.{
  TimeInt, TimeVec, timevec_max_elements, is_dupe, timevec_add, beg_day, hours_at, days,
  add_interval, timevec_parse, parse_pieces, timevec_parse_list, interval_ok, any_ok, day_of_week,
  timevec_check,
}

-- The number in `enum day` for a day of `time_check`.
abbrev number : DayWord → ℕ
number (weekday zero) = 6
number (weekday (suc d)) = d
number any_day = 7
number workday = 8
number weekend = 9
number no_day = 10

abbrev IsDay : DayWord → Type 0
IsDay (weekday d) = d ≤ 6
IsDay _ = Unit {0}

beg_day-day_word : (str : Bytes) → (beg_day str ≡ number (day_word str)) × IsDay (day_word str)
unfolding beg_day day_word
beg_day-day_word str = (ground arith, ground arith)

hours_at-number : (d : DayWord) (str : Bytes) → IsDay d → hours_at (number d) str ≡ behind_day d str
unfolding hours_at behind_day
hours_at-number (weekday zero) str h = refl
hours_at-number (weekday (suc d)) str h = ground arith
hours_at-number any_day str h = refl
hours_at-number workday str h = refl
hours_at-number weekend str h = refl
hours_at-number no_day str h = refl

days-number :
    (d : DayWord) (wday : ℕ)
    → IsDay d
    → wday ≤ 6
    → (leb (days (number d)).0 (day_of_week wday) && leb (day_of_week wday) (days (number d)).1)
      ≡ day_conforms d wday
unfolding days day_conforms
days-number (weekday zero) wday h k = ground arith
days-number (weekday (suc d)) wday h k = ground arith
days-number any_day wday h k = ground arith
days-number workday wday h k = ground arith
days-number weekend wday h k = ground arith
days-number no_day wday h k = ground arith

any_ok-append :
    (day : ℕ) (cur : ℤ) (tv : TimeVec) (t : TimeInt)
    → any_ok day cur (tv ++ t ∷ []) ≡ (any_ok day cur tv || interval_ok day cur t)
unfolding any_ok
any_ok-append day cur [] t = ground arith
any_ok-append day cur (s ∷ tv) t = ground (arith, any_ok-append day cur tv t)

-- An interval that is not added for a dupe adds nothing.
any_ok-dupe :
    (day : ℕ) (cur : ℤ) (tv : TimeVec) (t : TimeInt)
    → is_dupe tv t ≡ true
    → interval_ok day cur t ≡ true
    → any_ok day cur tv ≡ true
unfolding any_ok interval_ok is_dupe
any_ok-dupe day cur [] t h k = cc
any_ok-dupe day cur (s ∷ tv) t h k =
    ground (arith, ==ℤ_iff s.beg t.beg, ==ℤ_iff s.end t.end, any_ok-dupe day cur tv t)

any_ok-timevec_add :
    (day : ℕ) (cur : ℤ) (tv : TimeVec) (t : TimeInt)
    → length tv < timevec_max_elements
    → (any_ok day cur (timevec_add tv t).1 ≡ (any_ok day cur tv || interval_ok day cur t))
      × (length (timevec_add tv t).1 ≤ suc (length tv))
unfolding timevec_add
any_ok-timevec_add day cur tv t room = (
  ground (arith, any_ok-append day cur tv t, any_ok-dupe day cur tv t),
  ground (arith, length-append tv (t ∷ [])),
)

module _ (now : Tm) (in_week : now.tm_wday ≤ 6) where
  abbrev hits : TimeVec → Bool
  hits tv = any_ok (day_of_week now.tm_wday) (current now) tv

  -- The interval that a piece of text stands for.
  abbrev interval : DayWord → ℤ × ℤ × ℤ × ℤ → TimeInt
  interval d (h1, m1, h2, m2) = record {
    day_beg = (days (number d)).0;
    day_end = (days (number d)).1;
    beg = minutes h1 m1;
    end = minutes h2 m2;
  }

  abbrev hit : DayWord → ℤ × ℤ × ℤ × ℤ → Bool
  hit d q = interval_ok (day_of_week now.tm_wday) (current now) (interval d q)

  hours_check-scan :
      (d : DayWord) (str : Bytes) (q : ℤ × ℤ × ℤ × ℤ)
      → scan_interval str ≡ some q
      → hours_check d now str ≡ answer (within (current now) (minutes q.0 q.1) (minutes q.2 q.3))
  unfolding hours_check
  hours_check-scan d [] q e = unfold scan_interval in cc
  hours_check-scan d (c ∷ str) q e = rw (e, hours_check) refl

  time_check-scan :
      (str : Bytes) (q : ℤ × ℤ × ℤ × ℤ)
      → scan_interval (behind_day (day_word str) str) ≡ some q
      → time_check str now ≡ answer (hit (day_word str) q)
  unfolding time_check interval_ok
  time_check-scan [] q e = unfold scan_interval day_word behind_day in cc
  time_check-scan (c ∷ str) q e =
      let d = day_word (c ∷ str) in
      ground (
        arith,
        days-number d now.tm_wday (beg_day-day_word (c ∷ str)).1 in_week,
        hours_check-scan d (behind_day d (c ∷ str)) q e,
      )

  -- A piece that is parsed conforms exactly if its interval, which is added, has the time.
  timevec_parse-time_check :
      (tv : TimeVec) (p : Bytes)
      → length tv < timevec_max_elements
      → (timevec_parse tv p).0 ≡ false
      → (found : Bool) × (time_check p now ≡ answer found)
        × (hits (timevec_parse tv p).1 ≡ (hits tv || found))
        × (length (timevec_parse tv p).1 ≤ suc (length tv))
  unfolding timevec_parse add_interval
  timevec_parse-time_check tv p room good =
      let d = day_word p in
      let day = beg_day-day_word p in
      let at = hours_at-number d p day.1 in
      elim (Option-cases (scan_interval (behind_day d p))) [
        | inl e ↦ absurd (ground arith)
        | inr (q, e) ↦
            let added =
              any_ok-timevec_add (day_of_week now.tm_wday) (current now) tv (interval d q) room in
            (hit d q, time_check-scan p q e, ground arith, ground arith)
      ]

  parse_pieces-check_pieces :
      (tv : TimeVec) (pieces : List Bytes)
      → length tv + length pieces ≤ timevec_max_elements
      → (parse_pieces tv pieces).0 ≡ false
      → answer (hits (parse_pieces tv pieces).1)
        ≡ (if hits tv then conforms else check_pieces pieces now)
  unfolding parse_pieces check_pieces
  parse_pieces-check_pieces tv [] room good = ground arith
  parse_pieces-check_pieces tv (p ∷ pieces) room good =
      let one = timevec_parse-time_check tv p (omega arith) (ground arith) in
      ground (arith, one, parse_pieces-check_pieces (timevec_parse tv p).1 pieces)

-- In a day of the week, ten intervals at most that all parse: the parsed list has the time exactly if
-- the text, checked interval by interval, has it.
pub timevec_check-time_checkintervals :
    (timestr : Bytes) (now : Tm)
    → now.tm_wday ≤ 6
    → length (strtok_all timestr) ≤ timevec_max_elements
    → (timevec_parse_list [] timestr).0 ≡ false
    → timevec_check (timevec_parse_list [] timestr).1 now ≡ time_checkintervals timestr now
unfolding timevec_check timevec_parse_list time_checkintervals any_ok
timevec_check-time_checkintervals timestr now week room good =
    ground (arith, parse_pieces-check_pieces now week [] (strtok_all timestr))
