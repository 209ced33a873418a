-- ===== src/Text.antt =====
-- source/bforce/u_string.c, and what the program takes of the C library on strings (`isdigit`,
-- `isspace`, `isprint`, `tolower`, `atoi`, `%d`, in the C locale). A string is the list of its
-- bytes, without the terminating zero.
pub mod Hex
pub mod Decimal
pub mod Printable
mod Tests
use binkleyforce.Base.{
  ℕ, zero, suc, ◌+◌, ◌-◌, ◌*◌, ◌/◌, ◌%◌, ◌^◌, ◌<◌, Bool, true, false, not, ◌&&◌, ◌||◌, Option, none,
  some, List, [], ◌∷◌, ◌++◌, ◌==◌, leb, ltb, if◌then◌else◌, length, take, get_or, Bytes,
}
use binkleyforce.Base.Int.{ℤ, pos, negsuc}

-- The character that a pointer at this string reads; the end reads the terminating zero.
abbrev pub head : Bytes → ℕ
head [] = 0
head (c ∷ s) = c

abbrev pub tail : Bytes → Bytes
tail [] = []
tail (c ∷ s) = s

abbrev pub is_digit : ℕ → Bool
is_digit c = leb b'0' c && leb c b'9'

abbrev pub is_space : ℕ → Bool
is_space c = c == b' ' || (leb 9 c && leb c 13)

abbrev pub is_print : ℕ → Bool
is_print c = leb 32 c && leb c 126

abbrev pub is_cntrl : ℕ → Bool
is_cntrl c = ltb c 32 || c == 127

unfoldable pub to_lower : ℕ → ℕ
to_lower c = if leb b'A' c && leb c b'Z' then c + 32 else c

unfoldable pub skip : (ℕ → Bool) → Bytes → Bytes
skip p [] = []
skip p (c ∷ s) = let rest = skip p s in if p c then rest else c ∷ s

-- The front of a string up to the first byte with `p`, and what starts there.
unfoldable pub span_until : (ℕ → Bool) → Bytes → Bytes × Bytes
span_until p [] = ([], [])
span_until p (c ∷ s) =
    let rest = span_until p s in if p c then ([], c ∷ s) else (c ∷ rest.0, rest.1)

-- `strncpy` into a buffer of `len` bytes whose last one is set to zero; `len` is never 0.
unfoldable pub strnxcpy : Bytes → ℕ → Bytes
strnxcpy src len = take (len - 1) src

unfoldable pub strnxcat : Bytes → Bytes → ℕ → Bytes
unfolding strnxcpy
strnxcat dst src len = dst ++ strnxcpy src (len - length dst)

-- `strchr(delim, c)`, for a character of the string proper.
unfoldable pub has_char : Bytes → ℕ → Bool
has_char [] c = false
has_char (d ∷ delim) c = c == d || has_char delim c

-- `if( delim && *delim )` chooses between the listed characters and the white space.
unfoldable pub is_delim : Bytes → ℕ → Bool
unfolding has_char
is_delim [] c = is_space c
is_delim (d ∷ delim) c = has_char (d ∷ delim) c

-- The tail of `string_token`: a zero is written over the delimiter, and `*next` is set behind it.
unfoldable pub cut_token : Bytes × Bytes → Option Bytes × Option Bytes
cut_token (token, []) = (some token, none)
cut_token (token, d ∷ rest) = (some token, some rest)

unfoldable pub token_at : Bytes → Bool → Bytes → Option Bytes × Option Bytes
unfolding span_until is_delim cut_token
token_at delim quoted [] = (none, none)
token_at delim quoted (c ∷ s) =
    if quoted && c == b'"'
    then cut_token (span_until (λ x. x == b'"') s)
    else cut_token (span_until (is_delim delim) (c ∷ s))

-- The result and the new `*next`, from `str` or the old `*next`. A null `delim` is the empty one.
unfoldable pub string_token : Option Bytes → Bytes → Bool → Option Bytes × Option Bytes
unfolding token_at skip
string_token none delim quoted = (none, none)
string_token (some yield) delim quoted = token_at delim quoted (skip (is_delim delim) yield)

-- The loop `for( p = string_token(s, &n, …); p; p = string_token(NULL, &n, …) )` makes `fuel`
-- calls at most; each takes a byte at least.
unfoldable pub tokens_loop : ℕ → Option Bytes × Option Bytes → Bytes → List Bytes
unfolding string_token
tokens_loop fuel (none, next) delim = []
tokens_loop zero (some token, next) delim = token ∷ []
tokens_loop (suc fuel) (some token, next) delim =
    token ∷ tokens_loop fuel (string_token next delim false) delim

unfoldable pub string_tokens : Bytes → Bytes → List Bytes
unfolding tokens_loop
string_tokens str delim = tokens_loop (length str) (string_token (some str) delim false) delim

abbrev pub hexdigits : Bytes
hexdigits =
    b'0' ∷ b'1' ∷ b'2' ∷ b'3' ∷ b'4' ∷ b'5' ∷ b'6' ∷ b'7' ∷ b'8' ∷ b'9' ∷ b'a' ∷ b'b' ∷ b'c' ∷ b'd'
    ∷ b'e' ∷ b'f' ∷ []

-- The offset that `string_casechr` finds `ch` at.
unfoldable pub string_casechr : Bytes → ℕ → Option ℕ
unfolding to_lower
string_casechr [] ch = none
string_casechr (c ∷ str) ch =
    let later = string_casechr str ch in
    if to_lower c == to_lower ch then some 0 else elim later [ none ↦ none | some i ↦ some (suc i) ]

unfoldable pub string_bin_to_hex : Bytes → Bytes
string_bin_to_hex [] = []
string_bin_to_hex (b ∷ bin) =
    get_or hexdigits (b / 2 ^ 4 % 16) 0 ∷ get_or hexdigits (b % 16) 0 ∷ string_bin_to_hex bin

-- The loop of `string_hex_to_bin`: the bytes written, and whether all characters were digits.
hex_loop : Bytes → Bytes × Bool
unfolding string_casechr
hex_loop [] = ([], true)
hex_loop (a ∷ []) = ([], false)
hex_loop (a ∷ b ∷ string) =
    let rest = hex_loop string in
    elim (string_casechr hexdigits a) [
      | none ↦ ([], false)
      | some high ↦ elim (string_casechr hexdigits b) [
        | none ↦ ([], false)
        | some low ↦ ((high * 16 + low) % 256 ∷ rest.0, rest.1)
      ]
    ]

-- The bytes written to the destination, and the length returned.
unfoldable pub string_hex_to_bin : Bytes → Bytes × ℕ
unfolding hex_loop
string_hex_to_bin string =
    let (dest, good) = hex_loop string in (dest, if good then length dest else 0)

-- Hexadecimal digits of one byte, as `\\x%02x` prints them.
abbrev quoted_byte : ℕ → Bytes
quoted_byte c =
    b'\\' ∷ b'x' ∷ get_or hexdigits (c / 2 ^ 4 % 16) 0 ∷ get_or hexdigits (c % 16) 0 ∷ []

-- The second loop of `string_printable`; without a byte to quote it copies, as the early return does.
unfoldable pub string_printable : Bytes → Bytes
string_printable [] = []
string_printable (c ∷ str) =
    let rest = string_printable str in
    if is_cntrl c || not (is_print c) then quoted_byte c ++ rest else c ∷ rest

-- The digits of `%d` for a number that is not negative, the highest first.
print_digits : ℕ → ℕ → Bytes
print_digits zero n = []
print_digits (suc fuel) n =
    let rest = print_digits fuel (n / 10) in
    if ltb n 10 then (b'0' + n) ∷ [] else rest ++ (b'0' + n % 10) ∷ []

unfoldable pub print_nat : ℕ → Bytes
unfolding print_digits
print_nat n = print_digits (suc n) n

unfoldable pub print_int : ℤ → Bytes
unfolding print_nat
print_int (pos n) = print_nat n
print_int (negsuc n) = b'-' ∷ print_nat (suc n)

abbrev pub negated : ℕ → ℤ
negated zero = pos 0
negated (suc n) = negsuc n

-- The value of the digits at the front of a string.
unfoldable pub read_digits : ℕ → Bytes → ℕ
read_digits acc [] = acc
read_digits acc (c ∷ s) =
    let more = read_digits (acc * 10 + (c - b'0')) s in if is_digit c then more else acc

-- `atoi`: white space, a sign, digits. (What C leaves open, a number beyond `int`, is exact here.)
signed_digits : Bytes → ℤ
signed_digits [] = pos 0
signed_digits (c ∷ s) =
    if c == b'-'
    then negated (read_digits 0 s)
    else if c == b'+'
    then pos (read_digits 0 s)
    else pos (read_digits 0 (c ∷ s))

unfoldable pub atoi : Bytes → ℤ
unfolding signed_digits skip
atoi s = signed_digits (skip is_space s)
