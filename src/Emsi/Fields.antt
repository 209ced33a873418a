-- ===== src/Emsi/Fields.antt =====
-- A field that is written and read back (source/bforce/prot_emsi_misc.c).
use binkleyforce.Base.{
  ℕ, zero, suc, ◌+◌, ◌*◌, ◌/◌, ◌%◌, ◌≤◌, ◌<◌, ◌≡◌, refl, ap, ◌∙◌, arith, true, false, not, ◌&&◌,
  some, [], ◌∷◌, ◌++◌, ◌==◌, length, length-append, Bytes, All,
}
use binkleyforce.Base.Bits.{all_below, all_below_at}
use binkleyforce.Text.{head, is_print, print_nat}
use binkleyforce.Locks.{same_name, same_name→eq}
use binkleyforce.Emsi.{add_str, field_loop, get_field, quoted_char, unquoted_char, two_hex_digits}

-- Characters that are written as they are, or twice: printable, and neither `]` nor a backslash.
abbrev pub IsPlain : ℕ → Type 0
IsPlain c = (is_print c && not (c == b']') && not (c == b'\\')) ≡ true

-- The rounds that are needed, with those for the bytes behind the field.
field_loop-add_str :
    (fuel : ℕ) (s rest : Bytes)
    → All IsPlain s
    → (head rest == b'}') ≡ false
    → length s < fuel
    → field_loop fuel b'}' (add_str s ++ b'}' ∷ rest) ≡ some (s, rest)
unfolding field_loop add_str
field_loop-add_str zero s rest plain stops room = absurd (omega arith)
field_loop-add_str (suc fuel) [] rest plain stops room = ground arith
field_loop-add_str (suc fuel) (c ∷ s) rest plain stops room =
    ground (arith, plain.0, field_loop-add_str fuel s rest plain.1)

length-add_str : (s : Bytes) → All IsPlain s → length s ≤ length (add_str s)
unfolding add_str
length-add_str [] plain = omega arith
length-add_str (c ∷ s) plain = ground (arith, plain.0, length-add_str s plain.1)

-- A field of printable characters, without `]` and backslash, is read back as it was, whatever stands
-- behind it but another `}`. A `}` in it is written twice.
pub get_field-add_str :
    (s rest : Bytes)
    → All IsPlain s
    → (head rest == b'}') ≡ false
    → get_field (b'{' ∷ (add_str s ++ b'}' ∷ rest)) b'{' b'}' ≡ some (s, rest)
unfolding get_field
get_field-add_str s rest plain stops =
    field_loop-add_str (length (add_str s ++ b'}' ∷ rest)) s rest plain stops
      (omega (arith, length-append (add_str s) (b'}' ∷ rest), length-add_str s plain))

-- The two decimal digits of a control character.
quoted_char_table :
    all_below 32 (λ c. same_name (quoted_char c) (b'\\' ∷ (b'0' + c / 10) ∷ (b'0' + c % 10) ∷ []))
    ≡ true
unfolding all_below same_name quoted_char print_nat
quoted_char_table = refl

quoted_char_digits :
    (c : ℕ) → c < 32 → quoted_char c ≡ b'\\' ∷ (b'0' + c / 10) ∷ (b'0' + c % 10) ∷ []
quoted_char_digits c h = same_name→eq _ _ (all_below_at 32 _ c quoted_char_table h)

control_written :
    (c : ℕ) → c < 32 → add_str (c ∷ []) ≡ b'\\' ∷ (b'0' + c / 10) ∷ (b'0' + c % 10) ∷ []
unfolding add_str
control_written c h = ground (arith, quoted_char_digits c h)

two_digits :
    (a b : ℕ) (rest : Bytes)
    → a < 10
    → b < 10
    → two_hex_digits ((b'0' + a) ∷ (b'0' + b) ∷ b'}' ∷ rest) ≡ true
unfolding two_hex_digits
two_digits a b rest h k = ground arith

-- The byte of two digits that is not a `]`.
unquoted_digits :
    (a b : ℕ) (rest : Bytes)
    → a < 4
    → b < 10
    → unquoted_char ((b'0' + a) ∷ (b'0' + b) ∷ rest) ≡ (a * 16 + b) ∷ []
unquoted_digits a b rest h k = ground arith

field_loop-end :
    (fuel : ℕ) (rest : Bytes)
    → (head rest == b'}') ≡ false
    → field_loop (suc fuel) b'}' (b'}' ∷ rest) ≡ some ([], rest)
unfolding field_loop
field_loop-end fuel rest stops = rw stops refl

field_loop-digits :
    (fuel a b : ℕ) (rest : Bytes)
    → a < 4
    → b < 10
    → (head rest == b'}') ≡ false
    → field_loop (suc (suc fuel)) b'}' (b'\\' ∷ (b'0' + a) ∷ (b'0' + b) ∷ b'}' ∷ rest)
      ≡ some ((a * 16 + b) ∷ [], rest)
unfolding field_loop
field_loop-digits fuel a b rest h k stops =
    let no_backslash : ((b'0' + a) == b'\\') ≡ false = ground arith in
    rw
      (
        no_backslash,
        two_digits a b rest (omega arith) k,
        unquoted_digits a b (b'}' ∷ rest) h k,
        stops,
      )
      refl

-- A control character is written with decimal digits, which are read as hexadecimal ones: from 10 on
-- another byte is read.
pub get_field-control :
    (c : ℕ) (rest : Bytes)
    → c < 32
    → (head rest == b'}') ≡ false
    → get_field (b'{' ∷ (add_str (c ∷ []) ++ b'}' ∷ rest)) b'{' b'}'
      ≡ some ((c + 6 * (c / 10)) ∷ [], rest)
unfolding get_field
get_field-control c rest h stops = rw (control_written c h) (
    field_loop-digits (suc (suc (length rest))) (c / 10) (c % 10) rest (omega arith) (omega arith)
      stops
    ∙ ap (λ (b : ℕ). some (b ∷ [], rest)) (omega arith))
