-- ===== src/Time/Full.antt =====
-- A list of intervals that is full (source/bforce/u_time.c).
use binkleyforce.Base.{◌≤◌, ◌≡◌, arith, inl, inr, [], length, Bytes, Option-cases}
use binkleyforce.Time.{scan_interval}
use binkleyforce.Time.Vector.{
  TimeVec, timevec_max_elements, timevec_add, add_interval, beg_day, hours_at, timevec_parse,
}

-- Whatever text is parsed into a full list, no interval is added, and the answer is the one that it
-- would be with room: 0 for each correct interval.
pub timevec_parse-full :
    (tv : TimeVec) (str : Bytes)
    → timevec_max_elements ≤ length tv
    → ((timevec_parse tv str).1 ≡ tv) × ((timevec_parse tv str).0 ≡ (timevec_parse [] str).0)
unfolding timevec_parse add_interval timevec_add
timevec_parse-full tv str full = elim (Option-cases (scan_interval (hours_at (beg_day str) str))) [
  | inl e ↦ (ground arith, ground arith)
  | inr (q, e) ↦ (ground arith, ground arith)
]
