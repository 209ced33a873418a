-- ===== src/Time.antt =====
-- Time intervals (source/bforce/u_time.c), such as "Wk08:00-18:30". `struct tm` and `sscanf` are as the C
-- library has them.
pub mod Check
pub mod Vector
pub mod Agree
pub mod Full
mod Tests
use binkleyforce.Base.{
  ℕ, zero, suc, ◌+◌, ◌-◌, ◌*◌, Bool, true, false, not, ◌&&◌, ◌||◌, Option, none, some, List, [],
  ◌∷◌, ◌++◌, ◌==◌, leb, ltb, if◌then◌else◌, Bytes,
}
use binkleyforce.Base.Int.{ℤ, pos, negsuc, ltb_ℤ, ◌+ℤ◌, ◌*ℤ◌}
use binkleyforce.Text.{is_digit, is_space, to_lower, skip, negated}

-- The fields of `struct tm` that are read.
pub record Tm : Type 0 where
  pub tm_wday : ℕ
  pub tm_hour : ℕ
  pub tm_min : ℕ

-- `strncasecmp(str, word, strlen(word)) == 0`.
unfoldable pub begins : Bytes → Bytes → Bool
unfolding to_lower
begins [] str = true
begins (w ∷ word) [] = false
begins (w ∷ word) (c ∷ str) = to_lower c == to_lower w && begins word str

-- `%02d`: white space, then a sign and a digit, or one digit or two.
one_digit : (ℕ → ℤ) → Bytes → Option (ℤ × Bytes)
one_digit sign [] = none
one_digit sign (c ∷ s) = if is_digit c then some (sign (c - b'0'), s) else none

more_digits : ℕ → Bytes → ℤ × Bytes
more_digits n [] = (pos n, [])
more_digits n (c ∷ s) = if is_digit c then (pos (n * 10 + (c - b'0')), s) else (pos n, c ∷ s)

two_digits : Bytes → Option (ℤ × Bytes)
unfolding one_digit more_digits
two_digits [] = none
two_digits (c ∷ s) =
    if c == b'-'
    then one_digit negated s
    else if c == b'+'
    then one_digit pos s
    else if is_digit c
    then some (more_digits (c - b'0') s)
    else none

unfoldable pub scan_number : Bytes → Option (ℤ × Bytes)
unfolding two_digits skip
scan_number s = two_digits (skip is_space s)

unfoldable pub scan_char : ℕ → Bytes → Option Bytes
scan_char c [] = none
scan_char c (d ∷ s) = if d == c then some s else none

infixl 5 ◌>>=◌
abbrev pub ◌>>=◌ {ℓ κ} : {A : Type ℓ} {B : Type κ} → Option A → (A → Option B) → Option B
none >>= f = none
some a >>= f = f a

-- `sscanf(str, "%02d:%02d-%02d:%02d", …)`, none if it does not return 4.
unfoldable pub scan_interval : Bytes → Option (ℤ × ℤ × ℤ × ℤ)
unfolding scan_number scan_char
scan_interval str = do
  h1 ← scan_number str
  s1 ← scan_char b':' h1.1
  m1 ← scan_number s1
  s2 ← scan_char b'-' m1.1
  h2 ← scan_number s2
  s3 ← scan_char b':' h2.1
  m2 ← scan_number s3
  some (h1.0, m1.0, h2.0, m2.0)

abbrev pub minutes : ℤ → ℤ → ℤ
minutes hour min = hour *ℤ pos 60 +ℤ min

abbrev pub current : Tm → ℤ
current now = pos (now.tm_hour * 60 + now.tm_min)

-- An interval that does not end behind its start goes over midnight.
unfoldable pub within : ℤ → ℤ → ℤ → Bool
within cur beg end =
    if ltb_ℤ beg end
    then not (ltb_ℤ cur beg) && not (ltb_ℤ end cur)
    else not (ltb_ℤ cur beg) || not (ltb_ℤ end cur)

abbrev pub cons_token : Bytes → List Bytes → List Bytes
cons_token [] rest = rest
cons_token (c ∷ token) rest = (c ∷ token) ∷ rest

-- What `strtok(str, ",")` and `strtok(NULL, ",")` return one after the other; `token` is the one
-- that has begun.
unfoldable pub strtok_from : Bytes → Bytes → List Bytes
strtok_from token [] = cons_token token []
strtok_from token (c ∷ str) =
    let rest = strtok_from [] str in
    let more = strtok_from (token ++ c ∷ []) str in
    if c == b',' then cons_token token rest else more

unfoldable pub strtok_all : Bytes → List Bytes
unfolding strtok_from
strtok_all str = strtok_from [] str

abbrev pub sun : Bytes
sun = b'S' ∷ b'u' ∷ b'n' ∷ []

abbrev pub mon : Bytes
mon = b'M' ∷ b'o' ∷ b'n' ∷ []

abbrev pub tue : Bytes
tue = b'T' ∷ b'u' ∷ b'e' ∷ []

abbrev pub wed : Bytes
wed = b'W' ∷ b'e' ∷ b'd' ∷ []

abbrev pub thu : Bytes
thu = b'T' ∷ b'h' ∷ b'u' ∷ []

abbrev pub fri : Bytes
fri = b'F' ∷ b'r' ∷ b'i' ∷ []

abbrev pub sat : Bytes
sat = b'S' ∷ b'a' ∷ b't' ∷ []

abbrev pub any : Bytes
any = b'A' ∷ b'n' ∷ b'y' ∷ []

abbrev pub wk : Bytes
wk = b'W' ∷ b'k' ∷ []

abbrev pub we : Bytes
we = b'W' ∷ b'e' ∷ []
