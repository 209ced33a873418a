-- ===== src/Emsi.antt =====
-- The fields of an EMSI packet (`add_str` and `get_field` of source/bforce/prot_emsi_misc.c), in the
-- build without USE_EMSI7BIT.
pub mod Fields
mod Tests
use binkleyforce.Base.{
  ℕ, zero, suc, ◌+◌, ◌-◌, ◌*◌, Bool, true, false, not, ◌&&◌, ◌||◌, Option, none, some, List, [],
  ◌∷◌, ◌++◌, ◌==◌, leb, ltb, length, take, drop, if◌then◌else◌, Bytes,
}
use binkleyforce.Text.{head, tail, is_digit, is_print, print_nat}

-- `\\%02hd`; the place behind it is three bytes further, also where three digits were written.
unfoldable pub quoted_char : ℕ → Bytes
quoted_char c = b'\\' ∷ take 2 (if ltb c 10 then b'0' ∷ print_nat c else print_nat c)

-- What `add_str` appends.
unfoldable pub add_str : Bytes → Bytes
unfolding quoted_char
add_str [] = []
add_str (c ∷ add) =
    (if c == b']' || c == b'}' then c ∷ [] else [])
    ++ ((if is_print c then c ∷ [] else quoted_char c) ++ add_str add)

abbrev pub is_hex_digit : ℕ → Bool
is_hex_digit c = is_digit c || (leb b'a' c && leb c b'f') || (leb b'A' c && leb c b'F')

abbrev pub hex_value : ℕ → ℕ
hex_value c = if is_digit c then c - b'0' else if leb b'a' c then c - b'a' + 10 else c - b'A' + 10

-- `strspn(src, "0123456789abcdefABCDEF") == 2`.
unfoldable pub two_hex_digits : Bytes → Bool
two_hex_digits s =
    is_hex_digit (head s)
    && is_hex_digit (head (tail s))
    && not (is_hex_digit (head (tail (tail s))))

abbrev pub cons_field : Bytes → Option (Bytes × Bytes) → Option (Bytes × Bytes)
cons_field front none = none
cons_field front (some (field, rest)) = some (front ++ field, rest)

-- The byte that the two digits stand for; a `]` is written twice.
abbrev pub unquoted_char : Bytes → Bytes
unquoted_char s =
    let ch = hex_value (head s) * 16 + hex_value (head (tail s)) in
    ch ∷ (if ch == b']' then b']' ∷ [] else [])

-- The loop, `fuel` rounds at most: the field, and the string behind it.
unfoldable pub field_loop : ℕ → ℕ → Bytes → Option (Bytes × Bytes)
unfolding two_hex_digits
field_loop zero to src = none
field_loop (suc fuel) to [] = none
field_loop (suc fuel) to (c ∷ src) =
    let pair = cons_field (c ∷ []) (field_loop fuel to (tail src)) in
    let byte = cons_field (unquoted_char src) (field_loop fuel to (drop 2 src)) in
    let plain = cons_field (c ∷ []) (field_loop fuel to src) in
    if c == to
    then (if head src == to then pair else some ([], src))
    else if c == b'\\'
    then (if head src == b'\\' then pair else if two_hex_digits src then byte else plain)
    else plain

-- A round for each byte.
unfoldable pub get_field : Bytes → ℕ → ℕ → Option (Bytes × Bytes)
unfolding field_loop
get_field [] from to = none
get_field (c ∷ src) from to = if c == from then field_loop (length src) to src else none
