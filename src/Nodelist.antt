-- ===== src/Nodelist.antt =====
-- Flags of a node (`nodelist_checkflag` of source/bforce/nodelist.c).
mod Tests
use binkleyforce.Base.{
  ℕ, suc, ◌+◌, ◌≡◌, ◌≢◌, refl, arith, Bool, true, false, ◌&&◌, ◌||◌, List, [], ◌∷◌, ◌++◌, ◌==◌,
  length, length-append, if◌then◌else◌, Bytes, All,
}

-- Whether a string starts with another one.
unfoldable pub starts_with : Bytes → Bytes → Bool
starts_with [] s = true
starts_with (f ∷ flag) [] = false
starts_with (f ∷ flag) (c ∷ s) = f == c && starts_with flag s

-- `strstr(s, sub) != NULL`.
unfoldable pub contains : Bytes → Bytes → Bool
unfolding starts_with
contains sub [] = starts_with sub []
contains sub (c ∷ s) = starts_with sub (c ∷ s) || contains sub s

-- The number of bytes before the first `ch`, or before the end.
unfoldable pub index_of : ℕ → Bytes → ℕ
index_of ch [] = 0
index_of ch (c ∷ s) = let later = suc (index_of ch s) in if c == ch then 0 else later

-- The tests at a place where the flag was found at the front of a field.
unfoldable pub ends_flag : Bytes → Bytes → Bool
unfolding index_of
ends_flag flag p =
    index_of b',' p == length p || index_of b',' p == length flag || index_of b':' p == length flag

-- The loop; `front` says that `p` is the start of the search or stands behind a comma. The search goes
-- on behind the byte where the flag was found.
unfoldable pub flag_loop : Bytes → Bool → Bytes → Bool
unfolding starts_with ends_flag
flag_loop flag front [] = starts_with flag []
flag_loop flag front (c ∷ p) =
    let later = flag_loop flag (starts_with flag (c ∷ p) || c == b',') p in
    (starts_with flag (c ∷ p) && front && ends_flag flag (c ∷ p)) || later

-- `true` is the zero for a flag that is present.
unfoldable pub nodelist_checkflag : Bytes → Bytes → Bool
unfolding flag_loop
nodelist_checkflag nodeflags flag = flag_loop flag true nodeflags

-- A flag of a field, and what may stand behind it there: the end, another field, or a value.
abbrev pub ends_field : Bytes → Bool
ends_field [] = true
ends_field (c ∷ rest) = c == b',' || c == b':'

index_of-append :
    (ch : ℕ) (flag rest : Bytes)
    → All (λ c. (c == ch) ≡ false) flag
    → index_of ch (flag ++ rest) ≡ length flag + index_of ch rest
unfolding index_of
index_of-append ch [] rest h = omega arith
index_of-append ch (c ∷ flag) rest h = ground (arith, h.0, index_of-append ch flag rest h.1)

starts_with-append : (flag rest : Bytes) → starts_with flag (flag ++ rest) ≡ true
unfolding starts_with
starts_with-append [] rest = refl
starts_with-append (f ∷ flag) rest = ground (arith, starts_with-append flag rest)

ends_flag-field :
    (flag rest : Bytes)
    → All (λ c. (c == b',') ≡ false) flag
    → All (λ c. (c == b':') ≡ false) flag
    → ends_field rest ≡ true
    → ends_flag flag (flag ++ rest) ≡ true
unfolding ends_flag index_of
ends_flag-field flag [] h k e =
    ground (arith, index_of-append b',' flag [] h, length-append flag [])
ends_flag-field flag (c ∷ rest) h k e =
    ground (arith, index_of-append b',' flag (c ∷ rest) h, index_of-append b':' flag (c ∷ rest) k)

-- At a field that has the flag.
flag_loop-here :
    (flag rest : Bytes)
    → flag ≢ []
    → All (λ c. (c == b',') ≡ false) flag
    → All (λ c. (c == b':') ≡ false) flag
    → ends_field rest ≡ true
    → flag_loop flag true (flag ++ rest) ≡ true
unfolding flag_loop
flag_loop-here [] rest ne h k e = absurd (ne refl)
flag_loop-here (f ∷ flag) rest ne h k e =
    ground (arith, starts_with-append (f ∷ flag) rest, ends_flag-field (f ∷ flag) rest h k e)

flag_loop-later :
    (flag : Bytes) (front : Bool) (fields rest : Bytes)
    → flag_loop flag true rest ≡ true
    → flag_loop flag front (fields ++ b',' ∷ rest) ≡ true
unfolding flag_loop
flag_loop-later flag front [] rest h = ground (arith, h)
flag_loop-later flag front (c ∷ fields) rest h = ground (
  arith,
  flag_loop-later flag (starts_with flag (c ∷ fields ++ b',' ∷ rest) || c == b',') fields rest h,
)

-- A flag that is a field of its own, or has a value behind a colon, is found, wherever it stands
-- among the others.
pub nodelist_checkflag_found :
    (fields flag rest : Bytes)
    → flag ≢ []
    → All (λ c. (c == b',') ≡ false) flag
    → All (λ c. (c == b':') ≡ false) flag
    → ends_field rest ≡ true
    → (nodelist_checkflag (flag ++ rest) flag ≡ true)
      × (nodelist_checkflag (fields ++ b',' ∷ (flag ++ rest)) flag ≡ true)
unfolding nodelist_checkflag
nodelist_checkflag_found fields flag rest ne h k e =
    let here = flag_loop-here flag rest ne h k e in
    (here, flag_loop-later flag true fields (flag ++ rest) here)
