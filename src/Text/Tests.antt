-- ===== src/Text/Tests.antt =====
-- Strings: runs, and the theorems at concrete strings.
use binkleyforce.Base.{◌≡◌, refl, arith, true, some, [], ◌∷◌, ◌++◌, All, Bytes}
use binkleyforce.Base.Int.{pos}
use binkleyforce.Text.{
  string_bin_to_hex, string_hex_to_bin, string_printable, print_nat, atoi, string_token,
  string_tokens, tokens_loop, skip, span_until, has_char,
}
use binkleyforce.Text.Hex.{string_hex_to_bin-string_bin_to_hex}
use binkleyforce.Text.Decimal.{atoi-print_nat}
use binkleyforce.Text.Printable.{IsPrint, string_printable-IsPrint, string_printable-id}

abbrev binary : Bytes
binary = 0 ∷ 255 ∷ 16 ∷ []

-- "a, b" cut at commas and spaces, and at white space.
tokens_run :
    string_tokens (b'a' ∷ b',' ∷ b' ' ∷ b'b' ∷ []) (b',' ∷ b' ' ∷ [])
    ≡ (b'a' ∷ []) ∷ (b'b' ∷ []) ∷ []
unfolding string_tokens tokens_loop string_token skip span_until has_char
tokens_run = refl

space_run : string_tokens (b' ' ∷ b'a' ∷ 9 ∷ b'b' ∷ []) [] ≡ (b'a' ∷ []) ∷ (b'b' ∷ []) ∷ []
unfolding string_tokens tokens_loop string_token skip span_until
space_run = refl

-- A quoted token.
quoted_run :
    (string_token (some (b'"' ∷ b'a' ∷ b' ' ∷ b'"' ∷ b'c' ∷ [])) [] true).0
    ≡ some (b'a' ∷ b' ' ∷ [])
unfolding string_token skip span_until
quoted_run = refl

string_hex_to_bin-string_bin_to_hex_run : string_hex_to_bin (string_bin_to_hex binary) ≡ (binary, 3)
string_hex_to_bin-string_bin_to_hex_run =
    string_hex_to_bin-string_bin_to_hex binary (omega arith, (omega arith, (omega arith, tt)))

atoi_run : atoi (print_nat 5020 ++ (b'/' ∷ b'1' ∷ [])) ≡ pos 5020
atoi_run = atoi-print_nat 5020 (b'/' ∷ b'1' ∷ []) refl

string_printable-IsPrint_run : All IsPrint (string_printable binary)
string_printable-IsPrint_run = string_printable-IsPrint binary

string_printable-id_run : string_printable (b'o' ∷ b'k' ∷ []) ≡ b'o' ∷ b'k' ∷ []
string_printable-id_run = string_printable-id (b'o' ∷ b'k' ∷ []) (refl, (refl, tt))
