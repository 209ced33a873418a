-- ===== src/Text/Printable.antt =====
-- `string_printable`: its result is printable, and printable text is left alone.
use binkleyforce.Base.{
  ℕ, ◌/◌, ◌%◌, ◌<◌, ◌≡◌, refl, ap, arith, true, not, ◌||◌, [], ◌∷◌, All, Bytes, get_or, Bool-cases,
  inl, inr, ◌≤◌, length, take, zero, suc,
}
use binkleyforce.Base.Bits.{all_below, all_below_at}
use binkleyforce.Text.{is_print, is_cntrl, hexdigits, string_printable}

abbrev pub IsPrint : ℕ → Type 0
IsPrint c = is_print c ≡ true

digits_print : all_below 16 (λ d. is_print (get_or hexdigits d 0)) ≡ true
unfolding all_below
digits_print = refl

digit-IsPrint : (d : ℕ) → d < 16 → IsPrint (get_or hexdigits d 0)
digit-IsPrint d h = all_below_at 16 _ d digits_print h

-- Every byte of what `string_printable` returns is printable, whatever bytes it is given.
pub string_printable-IsPrint : (str : Bytes) → All IsPrint (string_printable str)
unfolding string_printable
string_printable-IsPrint [] = tt
string_printable-IsPrint (c ∷ str) = elim (Bool-cases (is_cntrl c || not (is_print c))) [
  | inl quoted ↦ rw quoted (
    refl,
    (
      refl,
      (
        digit-IsPrint (c / 16 % 16) (omega arith),
        (digit-IsPrint (c % 16) (omega arith), string_printable-IsPrint str),
      ),
    ),
  )
  | inr plain ↦ rw plain (ground arith, string_printable-IsPrint str)
]

-- Printable text comes back unchanged.
pub string_printable-id : (str : Bytes) → All IsPrint str → string_printable str ≡ str
unfolding string_printable
string_printable-id [] h = refl
string_printable-id (c ∷ str) (hc, h) = ground (arith, string_printable-id str h)

pub take-all : (k : ℕ) (s : Bytes) → length s ≤ k → take k s ≡ s
take-all zero [] h = refl
take-all zero (c ∷ s) h = absurd (omega arith)
take-all (suc k) [] h = refl
take-all (suc k) (c ∷ s) h = ap (◌∷◌ c) (take-all k s (omega arith))
