-- ===== src/Text/Hex.antt =====
-- The hexadecimal form of binary data: what is printed reads back.
use binkleyforce.Base.{
  ℕ, ◌/◌, ◌%◌, ◌<◌, ◌≡◌, refl, ap, [], ◌∷◌, arith, All, IsByte, Bytes, length, get_or, Option, some,
  true, ◌==◌, ==_iff, Bool, false, none,
}
use binkleyforce.Base.Bits.{all_below, all_below_at}
use binkleyforce.Text.{hexdigits, string_casechr, string_bin_to_hex, hex_loop, string_hex_to_bin}

is_value : ℕ → Option ℕ → Bool
is_value v none = false
is_value v (some i) = i == v

is_value_iff : (v : ℕ) (o : Option ℕ) → is_value v o ≡ true → o ≡ some v
unfolding is_value
is_value_iff v none h = cc
is_value_iff v (some i) h = ap some ((==_iff i v).0 h)

digits_found :
    all_below 16 (λ d. is_value d (string_casechr hexdigits (get_or hexdigits d 0))) ≡ true
unfolding all_below is_value string_casechr
digits_found = refl

casechr_digit : (d : ℕ) → d < 16 → string_casechr hexdigits (get_or hexdigits d 0) ≡ some d
casechr_digit d h = is_value_iff d _ (all_below_at 16 _ d digits_found h)

hex_loop-string_bin_to_hex :
    (bin : Bytes) → All IsByte bin → hex_loop (string_bin_to_hex bin) ≡ (bin, true)
unfolding hex_loop string_bin_to_hex
hex_loop-string_bin_to_hex [] h = refl
hex_loop-string_bin_to_hex (b ∷ bin) (hb, h) = ground (
  arith,
  casechr_digit (b / 16 % 16) (omega arith),
  casechr_digit (b % 16) (omega arith),
  hex_loop-string_bin_to_hex bin h,
)

-- `string_hex_to_bin` reads back every byte string that `string_bin_to_hex` wrote, and returns its
-- length.
pub string_hex_to_bin-string_bin_to_hex :
    (bin : Bytes) → All IsByte bin → string_hex_to_bin (string_bin_to_hex bin) ≡ (bin, length bin)
unfolding string_hex_to_bin
string_hex_to_bin-string_bin_to_hex bin h = rw (hex_loop-string_bin_to_hex bin h)
