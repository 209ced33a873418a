-- ===== src/Text/Decimal.antt =====
-- Decimal numbers: `%d` writes digits alone, and `atoi` reads them back.
use mathlib.Core.List.{append_assoc}
use native.Mathlib.Nat.{pow-suc}
use binkleyforce.Base.{
  ℕ, zero, suc, ◌+◌, ◌-◌, ◌*◌, ◌/◌, ◌%◌, ◌^◌, ◌≤◌, ◌<◌, ◌≡◌, refl, ap, ◌∙◌, [], ◌∷◌, ◌++◌, arith,
  All, All-append, Bytes, length, length-append, true, false, ltb, Bool-cases, inl, inr,
}
use binkleyforce.Base.Int.{pos}
use binkleyforce.Text.{head, is_digit, print_digits, print_nat, read_digits, atoi}

abbrev pub IsDigit : ℕ → Type 0
IsDigit c = is_digit c ≡ true

-- A string whose first byte, or the end, is no digit.
abbrev pub EndsNumber : Bytes → Type 0
EndsNumber rest = is_digit (head rest) ≡ false

print_digits-IsDigit : (fuel n : ℕ) → All IsDigit (print_digits fuel n)
unfolding print_digits
print_digits-IsDigit zero n = tt
print_digits-IsDigit (suc fuel) n = elim (Bool-cases (ltb n 10)) [
  | inl small ↦ rw small (ground arith)
  | inr large ↦ rw large (
      All-append IsDigit (print_digits fuel (n / 10)) _ (print_digits-IsDigit fuel (n / 10))
        (ground arith))
]

pub print_nat-IsDigit : (n : ℕ) → All IsDigit (print_nat n)
unfolding print_nat
print_nat-IsDigit n = print_digits-IsDigit (suc n) n

read_digits_one :
    (acc c : ℕ) (s : Bytes)
    → is_digit c ≡ true
    → read_digits acc (c ∷ s) ≡ read_digits (acc * 10 + (c - b'0')) s
unfolding read_digits
read_digits_one acc c s h = rw h

read_digits_end : (acc : ℕ) (rest : Bytes) → EndsNumber rest → read_digits acc rest ≡ acc
unfolding read_digits
read_digits_end acc [] h = refl
read_digits_end acc (c ∷ rest) h = rw h

read_digits-print_digits :
    (fuel n acc : ℕ) (rest : Bytes)
    → n < fuel
    → read_digits acc (print_digits fuel n ++ rest)
      ≡ read_digits (acc * 10 ^ length (print_digits fuel n) + n) rest
unfolding print_digits
read_digits-print_digits zero n acc rest h = absurd (omega arith)
read_digits-print_digits (suc fuel) n acc rest h = elim (Bool-cases (ltb n 10)) [
  | inl small ↦ rw small (
      read_digits_one acc (b'0' + n) rest (ground arith)
      ∙ ap (λ t. read_digits t rest) (omega arith))
  | inr large ↦
      let front = print_digits fuel (n / 10) in
      let last = b'0' + n % 10 in
      let k = length front in
      rw large (
        ap (read_digits acc) (append_assoc front (last ∷ []) rest)
        ∙ read_digits-print_digits fuel (n / 10) acc (last ∷ rest) (ground arith)
        ∙ read_digits_one _ last rest (ground arith)
        ∙ ap (λ t. read_digits t rest)
            (omega (
              arith,
              ap (λ t. acc * 10 ^ t) (length-append front (last ∷ [])),
              ap (λ t. acc * t) (pow-suc 10 k),
              ap (λ t. acc * 10 ^ t) {x = k + 1} {y = suc k} (omega arith),
            )))
]

-- Where digits end, the number that `%d` wrote reads back.
pub read_digits-print_nat :
    (n : ℕ) (rest : Bytes) → EndsNumber rest → read_digits 0 (print_nat n ++ rest) ≡ n
unfolding print_nat
read_digits-print_nat n rest h =
    read_digits-print_digits (suc n) n 0 rest (omega arith) ∙ read_digits_end _ rest h ∙ omega arith

length-print_digits : (fuel n k : ℕ) → n < 10 ^ suc k → length (print_digits fuel n) ≤ suc k
unfolding print_digits
length-print_digits zero n k h = omega arith
length-print_digits (suc fuel) n zero h = ground arith
length-print_digits (suc fuel) n (suc k) h = ground (
  arith,
  length-append (print_digits fuel (n / 10)) ((b'0' + n % 10) ∷ []),
  length-print_digits fuel (n / 10) k (omega (arith, pow-suc 10 (suc k))),
)

-- A number below `10 ^ k` has `k` digits at most.
pub length-print_nat : (n k : ℕ) → n < 10 ^ suc k → length (print_nat n) ≤ suc k
unfolding print_nat
length-print_nat n k h = length-print_digits (suc n) n k h

pub print_nat_nonempty : (n : ℕ) → 1 ≤ length (print_nat n)
unfolding print_nat print_digits
print_nat_nonempty n =
    ground (arith, length-append (print_digits n (n / 10)) ((b'0' + n % 10) ∷ []))

head-append : (xs ys : Bytes) → 1 ≤ length xs → head (xs ++ ys) ≡ head xs
head-append [] ys h = absurd (omega arith)
head-append (x ∷ xs) ys h = refl

head-IsDigit : (xs : Bytes) → 1 ≤ length xs → All IsDigit xs → IsDigit (head xs)
head-IsDigit [] h a = absurd (omega arith)
head-IsDigit (x ∷ xs) h (a, _) = a

-- What `%d` writes starts with a digit.
pub head-print_nat : (n : ℕ) (rest : Bytes) → IsDigit (head (print_nat n ++ rest))
head-print_nat n rest =
    rw (head-append (print_nat n) rest (print_nat_nonempty n))
      (head-IsDigit (print_nat n) (print_nat_nonempty n) (print_nat-IsDigit n))

atoi_digit : (s : Bytes) → IsDigit (head s) → atoi s ≡ pos (read_digits 0 s)
unfolding atoi
atoi_digit [] h = absurd (ground arith)
atoi_digit (c ∷ s) h = ground arith

-- `atoi` reads back a number that `%d` wrote, up to the first byte that is no digit.
pub atoi-print_nat : (n : ℕ) (rest : Bytes) → EndsNumber rest → atoi (print_nat n ++ rest) ≡ pos n
atoi-print_nat n rest h =
    atoi_digit (print_nat n ++ rest) (head-print_nat n rest)
    ∙ ap pos (read_digits-print_nat n rest h)
