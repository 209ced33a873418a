-- ===== src/Base/Bits.antt =====
-- Exclusive or on numbers of any width: digit by digit, as an abelian group of exponent two, and
-- what it does to the low and the high digits of its operands.
pub mod Or
use Prim.Native.Nat.{ℕ, zero, suc, ◌+◌, ◌-◌, ◌*◌, ◌/◌, ◌%◌, ◌^◌, ◌≤◌, ◌<◌}
use Prim.Native.Nat.{
  bit_and, bit_xor, min, digits, bitwise, differ, bit_and-bitwise, bit_xor-bitwise,
}
use mathlib.Core.Bool.{Bool, true, ◌&&◌}
use mathlib.Core.Path.{◌≡◌, refl, sym, ap, ap₂, subst, ◌∙◌}
use native.Mathlib.Nat.{
  le_refl, pow-suc, mul_comm, div-div-eq-div-mul, mod-eq-sub-div-mul, div-mul-le_self, div-one,
  mod-one, mod-eq_of_lt, mod-lt, one-le-pow,
}
use native.Mathlib.Omega.{arith}
use binkleyforce.Base.Tests.{if◌then◌else◌, ◌==◌}

module _ (rest : ℕ → ℕ) (op : ℕ → ℕ → ℕ) where
  -- With no digit left in the first number, the fuel does not count.
  exhausted : (fuel b : ℕ) → digits rest op fuel 0 b ≡ digits rest op 0 0 b
  exhausted zero b = refl
  exhausted (suc fuel) b = refl

  -- Fuel for each digit is enough: the number itself is as good as any larger one.
  enough :
      (a b spare fuel : ℕ)
      → a ≤ spare
      → spare ≤ fuel
      → digits rest op fuel a b ≡ digits rest op spare a b
  enough zero b spare fuel h k = exhausted fuel b ∙ sym (exhausted spare b)
  enough (suc a) b zero fuel h k = absurd (omega arith)
  enough (suc a) b (suc spare) zero h k = absurd (omega arith)
  enough (suc a) b (suc spare) (suc fuel) h k =
      ap (λ high. high * 2 + op (suc a % 2) (b % 2))
        (enough (suc a / 2) (b / 2) spare fuel (omega arith) (omega arith))

  lowest_digit :
      (a b : ℕ)
      → bitwise rest op (suc a) b ≡ bitwise rest op (suc a / 2) (b / 2) * 2 + op (suc a % 2) (b % 2)
  lowest_digit a b =
      ap (λ high. high * 2 + op (suc a % 2) (b % 2))
        (enough (suc a / 2) (b / 2) (suc a / 2) a (le_refl (suc a / 2)) (omega arith))

differ_sum : (x y : ℕ) → x < 2 → y < 2 → differ x y ≡ (x + y) % 2
differ_sum zero y p q = omega arith
differ_sum (suc zero) zero p q = refl
differ_sum (suc zero) (suc zero) p q = refl
differ_sum (suc zero) (suc (suc y)) p q = absurd (omega arith)
differ_sum (suc (suc x)) y p q = absurd (omega arith)

-- The lowest digit of an exclusive or is the parity of the sum.
pub bit_xor_step : (a b : ℕ) → bit_xor a b ≡ bit_xor (a / 2) (b / 2) * 2 + (a + b) % 2
bit_xor_step zero b = simp bit_xor-bitwise (omega arith)
bit_xor_step (suc a) b =
    let whole = lowest_digit (λ y. y) differ a b in
    simp bit_xor-bitwise
      (omega (arith, whole, differ_sum (suc a % 2) (b % 2) (omega arith) (omega arith)))

pub bit_xor_half : (a b : ℕ) → bit_xor a b / 2 ≡ bit_xor (a / 2) (b / 2)
bit_xor_half a b = omega (arith, bit_xor_step a b)

pub bit_xor_parity : (a b : ℕ) → bit_xor a b % 2 ≡ (a + b) % 2
bit_xor_parity a b = omega (arith, bit_xor_step a b)

-- Each law goes from the halves to the whole, so it is stated below a bound.
comm_below : (n a b : ℕ) → a + b ≤ n → bit_xor a b ≡ bit_xor b a
comm_below n zero zero h = refl
comm_below zero zero (suc b) h = absurd (omega arith)
comm_below zero (suc a) b h = absurd (omega arith)
comm_below (suc n) a b h =
    omega (arith, bit_xor_step a b, bit_xor_step b a, comm_below n (a / 2) (b / 2) (omega arith))

assoc_below : (n a b c : ℕ) → a + b + c ≤ n → bit_xor (bit_xor a b) c ≡ bit_xor a (bit_xor b c)
assoc_below zero zero zero zero h = refl
assoc_below zero zero zero (suc c) h = absurd (omega arith)
assoc_below zero zero (suc b) c h = absurd (omega arith)
assoc_below zero (suc a) b c h = absurd (omega arith)
assoc_below (suc n) a b c h =
    let left =
      bit_xor_step (bit_xor a b) c
      ∙ ap (λ t. bit_xor t (c / 2) * 2 + (bit_xor a b + c) % 2) (bit_xor_half a b) in
    let right =
      bit_xor_step a (bit_xor b c)
      ∙ ap (λ t. bit_xor (a / 2) t * 2 + (a + bit_xor b c) % 2) (bit_xor_half b c) in
    omega (
      arith,
      left,
      right,
      bit_xor_parity a b,
      bit_xor_parity b c,
      assoc_below n (a / 2) (b / 2) (c / 2) (omega arith),
    )

self_below : (n a : ℕ) → a ≤ n → bit_xor a a ≡ 0
self_below zero zero h = refl
self_below zero (suc a) h = absurd (omega arith)
self_below (suc n) zero h = refl
self_below (suc n) (suc a) h =
    omega (arith, bit_xor_step (suc a) (suc a), self_below n (suc a / 2) (omega arith))

pub bit_xor_comm : (a b : ℕ) → bit_xor a b ≡ bit_xor b a
bit_xor_comm a b = comm_below (a + b) a b (le_refl _)

pub bit_xor_assoc : (a b c : ℕ) → bit_xor (bit_xor a b) c ≡ bit_xor a (bit_xor b c)
bit_xor_assoc a b c = assoc_below (a + b + c) a b c (le_refl _)

pub bit_xor_self : (a : ℕ) → bit_xor a a ≡ 0
bit_xor_self a = self_below a a (le_refl _)

pub zero-bit_xor : (b : ℕ) → bit_xor 0 b ≡ b
zero-bit_xor b = bit_xor-bitwise 0 b

pub bit_xor-zero : (a : ℕ) → bit_xor a 0 ≡ a
bit_xor-zero a = bit_xor_comm a 0 ∙ zero-bit_xor a

-- Masking twice with the same word gives the word back.
pub bit_xor_cancel : (a b : ℕ) → bit_xor (bit_xor a b) b ≡ a
bit_xor_cancel a b = bit_xor_assoc a b b ∙ ap (bit_xor a) (bit_xor_self b) ∙ bit_xor-zero a

pub bit_xor_left_comm : (a b c : ℕ) → bit_xor a (bit_xor b c) ≡ bit_xor b (bit_xor a c)
bit_xor_left_comm a b c =
    sym (bit_xor_assoc a b c) ∙ ap (λ t. bit_xor t c) (bit_xor_comm a b) ∙ bit_xor_assoc b a c

-- The sum of two exclusive ors, regrouped.
pub bit_xor_interchange :
    (a b c d : ℕ) → bit_xor (bit_xor a b) (bit_xor c d) ≡ bit_xor (bit_xor a c) (bit_xor b d)
bit_xor_interchange a b c d =
    bit_xor_assoc a b (bit_xor c d)
    ∙ ap (bit_xor a) (bit_xor_left_comm b c d)
    ∙ sym (bit_xor_assoc a c (bit_xor b d))

div-two-pow-suc : (k x : ℕ) → x / 2 ^ suc k ≡ x / 2 / 2 ^ k
div-two-pow-suc k x =
    ap (λ t. x / t) (pow-suc 2 k ∙ mul_comm (2 ^ k) 2) ∙ sym (div-div-eq-div-mul x 2 (2 ^ k))

mod-two-pow-suc : (k x : ℕ) → x % 2 ^ suc k ≡ 2 * (x / 2 % 2 ^ k) + x % 2
mod-two-pow-suc k x = omega (
  arith,
  pow-suc 2 k,
  mod-eq-sub-div-mul x (2 ^ suc k),
  mod-eq-sub-div-mul (x / 2) (2 ^ k),
  div-mul-le_self (x / 2) (2 ^ k),
  ap (λ t. t * 2 ^ suc k) (div-two-pow-suc k x),
  ap (λ t. x / 2 / 2 ^ k * t) (pow-suc 2 k),
)

half-mod-two-pow : (k x : ℕ) → x % 2 ^ suc k / 2 ≡ x / 2 % 2 ^ k
half-mod-two-pow k x = omega (arith, mod-two-pow-suc k x)

-- The digits from `k` on go through by themselves.
pub bit_xor_shr : (k a b : ℕ) → bit_xor a b / 2 ^ k ≡ bit_xor (a / 2 ^ k) (b / 2 ^ k)
bit_xor_shr zero a b = simp div-one
bit_xor_shr (suc k) a b =
    div-two-pow-suc k (bit_xor a b)
    ∙ ap (λ t. t / 2 ^ k) (bit_xor_half a b)
    ∙ bit_xor_shr k (a / 2) (b / 2)
    ∙ ap₂ bit_xor (sym (div-two-pow-suc k a)) (sym (div-two-pow-suc k b))

-- So do the digits below `k`.
pub bit_xor_low : (k a b : ℕ) → bit_xor a b % 2 ^ k ≡ bit_xor (a % 2 ^ k) (b % 2 ^ k)
bit_xor_low zero a b = simp mod-one
bit_xor_low (suc k) a b =
    let halves = ap₂ bit_xor (half-mod-two-pow k a) (half-mod-two-pow k b) in
    omega (
      arith,
      mod-two-pow-suc k (bit_xor a b),
      ap (λ t. t % 2 ^ k) (bit_xor_half a b),
      bit_xor_low k (a / 2) (b / 2),
      bit_xor_parity a b,
      halves,
      bit_xor_step (a % 2 ^ suc k) (b % 2 ^ suc k),
      mod-two-pow-suc k a,
      mod-two-pow-suc k b,
    )

-- An exclusive or needs no more digits than its operands.
pub bit_xor_lt : (k a b : ℕ) → a < 2 ^ k → b < 2 ^ k → bit_xor a b < 2 ^ k
bit_xor_lt k a b ha hb =
    let low = bit_xor_low k a b ∙ ap₂ bit_xor (mod-eq_of_lt ha) (mod-eq_of_lt hb) in
    subst (λ t. t < 2 ^ k) low (mod-lt (bit_xor a b) (one-le-pow k 2 (omega arith)))

-- A field above digit 8 and a byte below it add up.
pub bit_xor_byte : (q r : ℕ) → r < 256 → bit_xor (q * 256) r ≡ q * 256 + r
bit_xor_byte q r h =
    let high : bit_xor (q * 256) r / 256 ≡ q =
      bit_xor_shr 8 (q * 256) r ∙ ap₂ bit_xor (omega arith) (omega arith) ∙ bit_xor-zero q in
    let low : bit_xor (q * 256) r % 256 ≡ r =
      bit_xor_low 8 (q * 256) r ∙ ap₂ bit_xor (omega arith) (omega arith) ∙ zero-bit_xor r in
    omega (arith, high, low)

bit_and_digit : (m n : ℕ) → bit_and m n ≡ bit_and (m / 2) (n / 2) * 2 + min (m % 2) (n % 2)
bit_and_digit zero n = simp bit_and-bitwise (omega arith)
bit_and_digit (suc m) n =
    let whole = lowest_digit (λ y. 0) min m n in simp bit_and-bitwise (omega (arith, whole))

bit_and-zero_below : (n a : ℕ) → a ≤ n → bit_and a 0 ≡ 0
bit_and-zero_below n zero h = refl
bit_and-zero_below zero (suc a) h = absurd (omega arith)
bit_and-zero_below (suc n) (suc a) h =
    omega (arith, bit_and_digit (suc a) 0, bit_and-zero_below n (suc a / 2) (omega arith))

-- A mask of `k` ones is the remainder by `2 ^ k`.
pub bit_and_ones : (k a : ℕ) → bit_and a (2 ^ k - 1) ≡ a % 2 ^ k
bit_and_ones zero a = rw mod-one (bit_and-zero_below a a (le_refl a))
bit_and_ones (suc k) a =
    let half : (2 ^ suc k - 1) / 2 ≡ 2 ^ k - 1 = omega (arith, pow-suc 2 k) in
    omega (
      arith,
      pow-suc 2 k,
      one-le-pow k 2,
      bit_and_digit a (2 ^ suc k - 1),
      ap (bit_and (a / 2)) half,
      bit_and_ones k (a / 2),
      mod-two-pow-suc k a,
    )

-- A table of tests over a small range holds at each of its places.
unfoldable pub all_below : ℕ → (ℕ → Bool) → Bool
all_below zero p = true
all_below (suc n) p = p n && all_below n p

pub all_below_at :
    (bound : ℕ) (test : ℕ → Bool) (i : ℕ) → all_below bound test ≡ true → i < bound → test i ≡ true
unfolding all_below
all_below_at zero test i passed below = absurd (omega arith)
all_below_at (suc bound) test i passed below = ground (arith, all_below_at bound test i)

-- A term that is fed back once for each digit that differs.
unfoldable pub fed_back : ℕ → ℕ → ℕ
fed_back p t = if t == 1 then p else 0

pub fed_back-bit_xor :
    (p s t : ℕ) → s < 2 → t < 2 → fed_back p ((s + t) % 2) ≡ bit_xor (fed_back p s) (fed_back p t)
unfolding fed_back
fed_back-bit_xor p zero t hs ht = rw zero-bit_xor (ap (λ n. if n == 1 then p else 0) (omega arith))
fed_back-bit_xor p (suc zero) zero hs ht = sym (bit_xor-zero p)
fed_back-bit_xor p (suc zero) (suc zero) hs ht = sym (bit_xor_self p)
fed_back-bit_xor p (suc zero) (suc (suc t)) hs ht = absurd (omega arith)
fed_back-bit_xor p (suc (suc s)) t hs ht = absurd (omega arith)

pub bit_xor_double : (a b : ℕ) → bit_xor (a * 2) (b * 2) ≡ bit_xor a b * 2
bit_xor_double a b =
    let halves =
      ap₂ bit_xor {x = a * 2 / 2} {y = a} {u = b * 2 / 2} {v = b} (omega arith) (omega arith) in
    omega (arith, bit_xor_step (a * 2) (b * 2), halves)

-- Below `2 ^ k`, a word and its complement cover every digit once.
pub bit_xor_complement : (k r : ℕ) → r < 2 ^ k → bit_xor r (2 ^ k - 1 - r) ≡ 2 ^ k - 1
bit_xor_complement zero zero h = refl
bit_xor_complement zero (suc r) h = absurd (omega arith)
bit_xor_complement (suc k) r h =
    let half : (2 ^ suc k - 1 - r) / 2 ≡ 2 ^ k - 1 - r / 2 = omega (arith, pow-suc 2 k) in
    omega (
      arith,
      pow-suc 2 k,
      bit_xor_step r (2 ^ suc k - 1 - r),
      ap (bit_xor (r / 2)) half,
      bit_xor_complement k (r / 2) (omega (arith, pow-suc 2 k)),
    )

-- So the word that completes `r` to all ones is its complement.
pub bit_xor_eq_ones : (k r x : ℕ) → r < 2 ^ k → bit_xor r x ≡ 2 ^ k - 1 → x ≡ 2 ^ k - 1 - r
bit_xor_eq_ones k r x h e =
    let flip = λ (y : ℕ). bit_xor_comm r y in
    sym (bit_xor_cancel x r)
    ∙ ap (λ t. bit_xor t r) (sym (flip x) ∙ e ∙ sym (bit_xor_complement k r h) ∙ flip _)
    ∙ bit_xor_cancel (2 ^ k - 1 - r) r
